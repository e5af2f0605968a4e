-- ===== src/Ontology/Registry.antt =====
-- packages/capability-ontology/src: registry.ts, whose versions are immutable, and conflict-rules.ts.
pub mod Laws
use Prim.Native.String
use kotowari.Base.{
  String, List, [], ◌∷◌, ◌++◌, map, Option, none, some, Bool, true, false, not, ◌&&◌, ◌||◌, filter,
  string_eq, ◌==◌, set_of, Dict, lookup, insert, values, get_or, if◌then◌else◌, absent_or, Result,
  ok, err, throw_if,
}
use kotowari.Base.Exec.{Exec, ◌>>=◌, ◌>>◌, pure, lift, gets, modify}
use kotowari.Base.Number.{Number, integer, num_lt}
use kotowari.Base.Sorting.{sort, then_by}
use kotowari.Base.Text.{join}
use kotowari.Kernel.Errors.{Failure, plain_error, ontology_error}
use kotowari.Kernel.Entity.{CardinalityConflictRule}
use kotowari.Ontology.{
  SemanticContractStatus, draft, active, retired, PredicateDefinition, SemanticContract,
  predicate_names,
}
use kotowari.Ontology.Contracts.{
  SemanticContractIssueCode, duplicate_entity_type_id, duplicate_entity_type_iri,
  duplicate_predicate_id, duplicate_predicate_iri, duplicate_alias, unknown_parent_entity_type,
  entity_type_cycle, unknown_domain_entity_type, unknown_range_entity_type, invalid_cardinality,
  invalid_pattern, invalid_rule, SemanticContractIssue, max_of, validate_semantic_contract,
}

abbrev pub contract_code_text : SemanticContractIssueCode → String
contract_code_text duplicate_entity_type_id = "DUPLICATE_ENTITY_TYPE_ID"
contract_code_text duplicate_entity_type_iri = "DUPLICATE_ENTITY_TYPE_IRI"
contract_code_text duplicate_predicate_id = "DUPLICATE_PREDICATE_ID"
contract_code_text duplicate_predicate_iri = "DUPLICATE_PREDICATE_IRI"
contract_code_text duplicate_alias = "DUPLICATE_ALIAS"
contract_code_text unknown_parent_entity_type = "UNKNOWN_PARENT_ENTITY_TYPE"
contract_code_text entity_type_cycle = "ENTITY_TYPE_CYCLE"
contract_code_text unknown_domain_entity_type = "UNKNOWN_DOMAIN_ENTITY_TYPE"
contract_code_text unknown_range_entity_type = "UNKNOWN_RANGE_ENTITY_TYPE"
contract_code_text invalid_cardinality = "INVALID_CARDINALITY"
contract_code_text invalid_pattern = "INVALID_PATTERN"
contract_code_text invalid_rule = "INVALID_RULE"

abbrev pub status_text : SemanticContractStatus → String
status_text draft = "draft"
status_text active = "active"
status_text retired = "retired"

-- `if (issues.length > 0) throw new Error(...)`
abbrev pub reject_issues :
    (String → Failure) → List SemanticContractIssue → Result Failure (Unit {0})
reject_issues error [] = ok tt
reject_issues error (found ∷ more) = err (
    error (
      String.◌++◌ "Invalid semantic contract: " (
        join ", " (map (λ (i : SemanticContractIssue). contract_code_text i.code) (found ∷ more)))))

pub record SemanticContractFilter : Type 0 where
  pub id : Option String
  pub status : Option SemanticContractStatus

-- The contracts under their keys.
abbrev pub Registry : Type 0
Registry = Dict String SemanticContract

abbrev pub newest : Option SemanticContract → List SemanticContract → Option SemanticContract
newest latest [] = latest
newest none (contract ∷ rest) = newest (some contract) rest
newest (some latest) (contract ∷ rest) =
    newest (some (if num_lt latest.version contract.version then contract else latest)) rest

-- `json` is `JSON.stringify` of a contract; the others are as in `Contracts`.
module _ (json : SemanticContract → String) (collate : String → String → Bool)
    (number_text : Number → String) (is_pattern : String → Bool) where
  abbrev pub contract_key : String → Number → String
  contract_key id version = String.◌++◌ id (String.◌++◌ "@" (number_text version))

  unfoldable pub semantic_contract_key : SemanticContract → String
  semantic_contract_key contract = contract_key contract.id contract.version

  abbrev pub check_same :
      String → SemanticContract → Option SemanticContract → Result Failure (Unit {0})
  check_same key contract none = ok tt
  check_same key contract (some existing) =
      throw_if (not (json existing == json contract))
        (plain_error (String.◌++◌ "Semantic contract versions are immutable: " key))

  unfoldable pub put_contract : SemanticContract → Exec Registry Failure (Unit {0})
  put_contract contract = do
    lift (
        reject_issues plain_error
          (validate_semantic_contract collate number_text is_pattern contract))
    existing ← gets (λ contracts. lookup (semantic_contract_key contract) contracts)
    lift (check_same (semantic_contract_key contract) contract existing)
    modify (insert (semantic_contract_key contract) contract)

  unfoldable pub get_contract : String → Number → Registry → Option SemanticContract
  get_contract id version contracts = lookup (contract_key id version) contracts

  unfoldable pub list_contracts : SemanticContractFilter → Registry → List SemanticContract
  list_contracts wanted contracts =
      sort
        (λ left right.
          then_by (collate left.id right.id) (collate right.id left.id)
            (num_lt left.version right.version))
        (filter
          (λ (c : SemanticContract).
            absent_or wanted.status (λ s. status_text c.status == status_text s))
          (filter (λ (c : SemanticContract). absent_or wanted.id (λ id. c.id == id))
            (values contracts)))

  unfoldable pub latest_active_semantic_contract : String → Registry → Option SemanticContract
  latest_active_semantic_contract id contracts =
      newest none (list_contracts (record { id = some id; status = some active }) contracts)

  -- The rule of a predicate with a greatest number of values, or none.
  abbrev pub rule_of : String → PredicateDefinition → Option Number → List CardinalityConflictRule
  rule_of source predicate none = []
  rule_of source predicate (some max) =
      if num_lt max (integer 1)
      then []
      else record {
        predicate = predicate.id;
        terms = sort collate (set_of (predicate_names predicate));
        max = max;
        source = some source;
      }
        ∷ []

  unfoldable pub rules_of : String → List PredicateDefinition → List CardinalityConflictRule
  rules_of source [] = []
  rules_of source (predicate ∷ predicates) =
      rule_of source predicate (max_of predicate.cardinality) ++ rules_of source predicates

  abbrev pub checked_rules :
      SemanticContract → Result Failure (Unit {0}) → Result Failure (List CardinalityConflictRule)
  checked_rules contract (err e) = err e
  checked_rules contract (ok done) = ok (
      rules_of (String.◌++◌ "semantic-contract:" (semantic_contract_key contract))
        contract.predicates)

  unfoldable pub semantic_contract_conflict_rules :
      SemanticContract → Result Failure (List CardinalityConflictRule)
  semantic_contract_conflict_rules contract =
      if not (status_text contract.status == "active")
      then ok []
      else checked_rules contract (
          reject_issues ontology_error
            (validate_semantic_contract collate number_text is_pattern contract))
