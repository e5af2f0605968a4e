-- ===== src/Tests/Ontology.antt =====
-- The property of claims under a contract with one predicate.
use kotowari.Base.{
  string_eq, filter, includes, add_all, String, Bool, lookup, insert, refl, [], ◌∷◌, none, some,
  true, false, ◌≡◌, ◌↔◌, ok,
}
use kotowari.Base.Number.{Number, nan, integer, num_lt}
use kotowari.Base.Sorting.{sort}
use kotowari.Ontology.{SemanticContract, active, PredicateRange, string, enum}
use kotowari.Ontology.Claims.{Reader, ClaimContractContext, validate_claim_against_contract}
use kotowari.Ontology.Claims.Laws.{Conforms, validate_claim_against_contract-Conforms_iff}
use kotowari.Ontology.Contracts.{
  validate_semantic_contract, duplicate_issues, duplicates, repeated_from, alias_issues, aliases_of,
  entity_type_reference_issues, unknown_parent_issues, unknown_domain_issues, unknown_range_issues,
  entity_type_cycle_issues, is_cyclic, has_entity_type_cycle, any_option, constraint_issues,
  parents_from, predicate_constraint_issues,
}
use kotowari.Ontology.Registry.{Registry, semantic_contract_key, put_contract}
use kotowari.Ontology.Registry.Laws.{IsKept, put_contract-keeps}
use kotowari.Tests.Data.{red_claim}
use kotowari.Tests.Store.{collate}

abbrev reader : Reader
reader = record {
  to_number = λ s. nan;
  parses_date = λ s. false;
  parses_url = λ s. false;
  test_pattern = λ source value. ok true;
}

abbrev colours : SemanticContract
colours = record {
  id = "colours";
  name = "Colours";
  version = integer 1;
  status = active;
  base_iri = "https://example.org/";
  prefixes = none;
  entity_types =
      record {
        id = "vehicle";
        iri = none;
        label = none;
        description = none;
        aliases = none;
        extends = none;
        closed = none;
      }
      ∷ [];
  predicates =
      record {
        id = "colour";
        iri = none;
        label = none;
        description = none;
        aliases = none;
        domain = some ("vehicle" ∷ []);
        range = PredicateRange.literal string none;
        cardinality = none;
        rules = some (enum ("red" ∷ "blue" ∷ []) ∷ []);
      }
      ∷ [];
}

abbrev about_vehicles : ClaimContractContext
about_vehicles = record {
  subject_entity_type_ids = some ("vehicle" ∷ []);
  object_entity_type_ids = none;
}

validate_claim_against_contract-Conforms_iff_example :
    (validate_claim_against_contract reader red_claim colours about_vehicles ≡ ok [])
    ↔ Conforms reader about_vehicles red_claim colours
validate_claim_against_contract-Conforms_iff_example =
    validate_claim_against_contract-Conforms_iff reader red_claim colours about_vehicles

abbrev json : SemanticContract → String
json contract = contract.name

abbrev number_text : Number → String
number_text n = "1"

abbrev is_pattern : String → Bool
is_pattern source = true

abbrev registered : Registry
registered = ("colours@1", colours) ∷ []

put_again :
    put_contract json collate number_text is_pattern colours registered ≡ (ok tt, registered)
unfolding put_contract validate_semantic_contract duplicate_issues duplicates sort repeated_from
    includes alias_issues aliases_of entity_type_reference_issues unknown_parent_issues filter
    unknown_domain_issues add_all unknown_range_issues entity_type_cycle_issues is_cyclic
    has_entity_type_cycle any_option insert lookup num_lt constraint_issues parents_from
    predicate_constraint_issues semantic_contract_key
put_again = refl

put_contract-keeps_example :
    IsKept json (lookup "colours@1" registered) (lookup "colours@1" registered)
    × (lookup (semantic_contract_key json collate number_text is_pattern colours) registered
        ≡ some colours)
put_contract-keeps_example =
    put_contract-keeps json collate number_text is_pattern colours "colours@1" registered registered
      put_again
