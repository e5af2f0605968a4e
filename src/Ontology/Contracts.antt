-- ===== src/Ontology/Contracts.antt =====
-- `validateSemanticContract` of packages/capability-ontology/src/semantic-contract.ts, and the registry of
-- packages/capability-ontology/src/registry.ts.
pub mod Laws
use Prim.Native.String
use kotowari.Base.{
  ℕ, zero, suc, ◌+◌, String, List, [], ◌∷◌, ◌++◌, map, Option, none, some, Bool, true, false, not,
  ◌&&◌, ◌||◌, filter, includes, length, string_eq, ◌==◌, set_of, Dict, lookup, insert, values,
  get_or, if◌then◌else◌, Result, ok, err, absent_or,
}
use kotowari.Base.Number.{Number, integer, num_lt, is_integer}
use kotowari.Base.Sorting.{sort}
use kotowari.Ontology.{
  ValidationRule, enum, pattern_rule, min_length, max_length, PredicateRange, Cardinality,
  EntityTypeDefinition, PredicateDefinition, SemanticContract,
}

pub data SemanticContractIssueCode : Type 0 where
  duplicate_entity_type_id duplicate_entity_type_iri duplicate_predicate_id :
      SemanticContractIssueCode
  duplicate_predicate_iri duplicate_alias unknown_parent_entity_type : SemanticContractIssueCode
  entity_type_cycle unknown_domain_entity_type unknown_range_entity_type : SemanticContractIssueCode
  invalid_cardinality invalid_pattern invalid_rule : SemanticContractIssueCode

pub record SemanticContractIssue : Type 0 where
  pub code : SemanticContractIssueCode
  pub path : String
  pub message : String

abbrev pub issue : SemanticContractIssueCode → String → String → SemanticContractIssue
issue code path message = record { code = code; path = path; message = message }

-- `some` of tests that may run out of fuel: the first that holds ends it.
unfoldable pub any_option : {A : Type 0} → (A → Option Bool) → List A → Option Bool
any_option test [] = some false
any_option test (x ∷ xs) =
    let rest = any_option test xs in
    elim (test x) [ none ↦ none | some true ↦ some true | some false ↦ rest ]

-- `hasEntityTypeCycle`, on fuel; `none` means that the fuel ran out.
unfoldable pub has_entity_type_cycle :
    ℕ → Dict String (List String) → String → List String → Option Bool
has_entity_type_cycle zero parents id visiting = none
has_entity_type_cycle (suc fuel) parents id visiting =
    let found =
      any_option (λ parent. has_entity_type_cycle fuel parents parent (id ∷ visiting))
        (get_or (lookup id parents) []) in
    if includes visiting id then some true else found

-- `new Map(contract.entityTypes.map((item) => [item.id, item.extends ?? []]))`
unfoldable pub parents_from :
    List EntityTypeDefinition → Dict String (List String) → Dict String (List String)
parents_from [] parents = parents
parents_from (item ∷ items) parents =
    parents_from items (insert item.id (get_or item.extends []) parents)

-- Every call but the last marks an entity type that has an entry and was not marked, so the depth is at
-- most one more than the entries.
unfoldable pub is_cyclic : Dict String (List String) → String → Bool
is_cyclic parents id = get_or (has_entity_type_cycle (suc (length parents)) parents id []) false

unfoldable pub entity_type_cycle_issues : SemanticContract → List SemanticContractIssue
entity_type_cycle_issues contract =
    map
      (λ (item : EntityTypeDefinition).
        issue entity_type_cycle (String.◌++◌ "entityTypes." (String.◌++◌ item.id ".extends"))
          (String.◌++◌ "Entity type inheritance must be acyclic: " item.id))
      (filter
        (λ (item : EntityTypeDefinition). is_cyclic (parents_from contract.entity_types []) item.id)
        contract.entity_types)

-- The loop of `duplicates`: what is seen, and what is seen again.
unfoldable pub repeated_from : List (Option String) → List String → List String → List String
repeated_from [] seen repeated = repeated
repeated_from (none ∷ values) seen repeated = repeated_from values seen repeated
repeated_from (some value ∷ values) seen repeated =
    repeated_from values (value ∷ seen)
      (if includes seen value then set_of (repeated ++ value ∷ []) else repeated)

-- `(xs ?? []).filter((x) => !known.has(x))`
abbrev pub unknown_of : List String → Option (List String) → List String
unknown_of known ids = filter (λ id. not (includes known id)) (get_or ids [])

abbrev pub range_types : PredicateRange → Option (List String)
range_types (PredicateRange.entity ids) = ids
range_types (PredicateRange.literal datatype iri) = none

abbrev pub min_of : Option Cardinality → Number
min_of none = integer 0
min_of (some cardinality) = get_or cardinality.min (integer 0)

abbrev pub max_of : Option Cardinality → Option Number
max_of none = none
max_of (some cardinality) = cardinality.max

-- `max !== undefined && (max < min || !Number.isInteger(max))`
abbrev pub is_bad_max : Number → Option Number → Bool
is_bad_max min none = false
is_bad_max min (some max) = num_lt max min || not (is_integer max)

abbrev pub is_invalid_cardinality : Option Cardinality → Bool
is_invalid_cardinality cardinality =
    num_lt (min_of cardinality) (integer 0)
    || not (is_integer (min_of cardinality))
    || is_bad_max (min_of cardinality) (max_of cardinality)

abbrev pub is_invalid_length : ValidationRule → Bool
is_invalid_length (min_length value) = num_lt value (integer 0) || not (is_integer value)
is_invalid_length (max_length value) = num_lt value (integer 0) || not (is_integer value)
is_invalid_length _ = false

abbrev pub issue_if : Bool → SemanticContractIssue → List SemanticContractIssue
issue_if failing found = if failing then found ∷ [] else []

unfoldable pub aliases_of : {A : Type 0} → (A → Option (List String)) → List A → List String
aliases_of aliases [] = []
aliases_of aliases (item ∷ items) = get_or (aliases item) [] ++ aliases_of aliases items

-- `collate a b` is `a.localeCompare(b) < 0`, `number_text` is `String` on numbers, and `is_pattern` whether
-- `new RegExp` accepts a source.
module _ (collate : String → String → Bool) (number_text : Number → String)
    (is_pattern : String → Bool) where
  unfoldable pub duplicates : List (Option String) → List String
  duplicates values = sort collate (repeated_from values [] [])

  unfoldable pub duplicate_issues :
      List (Option String)
      → SemanticContractIssueCode
      → String
      → String
      → List SemanticContractIssue
  duplicate_issues values code path label =
      map (λ value. issue code path (String.◌++◌ label (String.◌++◌ " must be unique: " value)))
        (duplicates values)

  -- `${what}[${String(index)}]${rest}`
  abbrev pub indexed : String → ℕ → String → String
  indexed what index rest =
      String.◌++◌ what
        (String.◌++◌ "[" (String.◌++◌ (number_text (integer index)) (String.◌++◌ "]" rest)))

  unfoldable pub unknown_parent_issues :
      List String → ℕ → List EntityTypeDefinition → List SemanticContractIssue
  unknown_parent_issues known index [] = []
  unknown_parent_issues known index (item ∷ items) =
      map
        (λ parent.
          issue unknown_parent_entity_type (indexed "entityTypes" index ".extends")
            (String.◌++◌ "Unknown parent entity type: " parent))
        (unknown_of known item.extends)
      ++ unknown_parent_issues known (index + 1) items

  unfoldable pub unknown_domain_issues :
      List String → ℕ → List PredicateDefinition → List SemanticContractIssue
  unknown_domain_issues known index [] = []
  unknown_domain_issues known index (item ∷ items) =
      map
        (λ id.
          issue unknown_domain_entity_type (indexed "predicates" index ".domain")
            (String.◌++◌ "Unknown domain entity type: " id))
        (unknown_of known item.domain)
      ++ unknown_domain_issues known (index + 1) items

  unfoldable pub unknown_range_issues :
      List String → ℕ → List PredicateDefinition → List SemanticContractIssue
  unknown_range_issues known index [] = []
  unknown_range_issues known index (item ∷ items) =
      map
        (λ id.
          issue unknown_range_entity_type (indexed "predicates" index ".range.entityTypeIds")
            (String.◌++◌ "Unknown range entity type: " id))
        (unknown_of known (range_types item.range))
      ++ unknown_range_issues known (index + 1) items

  unfoldable pub entity_type_reference_issues : SemanticContract → List SemanticContractIssue
  entity_type_reference_issues contract =
      let known = set_of (map (λ (item : EntityTypeDefinition). item.id) contract.entity_types) in
      unknown_parent_issues known 0 contract.entity_types
      ++ (unknown_domain_issues known 0 contract.predicates
          ++ unknown_range_issues known 0 contract.predicates)

  abbrev pub is_bad_pattern : ValidationRule → Bool
  is_bad_pattern (pattern_rule source) = not (is_pattern source)
  is_bad_pattern _ = false

  -- The loop over the rules of a predicate.
  unfoldable pub constraint_issues :
      PredicateDefinition → ℕ → ℕ → List ValidationRule → List SemanticContractIssue
  constraint_issues predicate index rule_index [] = []
  constraint_issues predicate index rule_index (rule ∷ rules) =
      let path = indexed "predicates" index (indexed ".rules" rule_index "") in
      issue_if (is_bad_pattern rule) (
        issue invalid_pattern path
          (String.◌++◌ "Invalid regular expression for predicate: " predicate.id))
      ++ (issue_if (is_invalid_length rule) (
            issue invalid_rule path
              (String.◌++◌ "Length constraints must be non-negative integers: " predicate.id))
          ++ constraint_issues predicate index (rule_index + 1) rules)

  -- The loop over the predicates.
  unfoldable pub predicate_constraint_issues :
      ℕ → List PredicateDefinition → List SemanticContractIssue
  predicate_constraint_issues index [] = []
  predicate_constraint_issues index (predicate ∷ predicates) =
      issue_if (is_invalid_cardinality predicate.cardinality) (
        issue invalid_cardinality (indexed "predicates" index ".cardinality")
          (String.◌++◌ "Invalid cardinality for predicate: " predicate.id))
      ++ (constraint_issues predicate index 0 (get_or predicate.rules [])
          ++ predicate_constraint_issues (index + 1) predicates)

  unfoldable pub alias_issues : SemanticContract → List SemanticContractIssue
  alias_issues contract =
      duplicate_issues
        (map some (
          aliases_of (λ (item : EntityTypeDefinition). item.aliases) contract.entity_types
          ++ aliases_of (λ (item : PredicateDefinition). item.aliases) contract.predicates))
        duplicate_alias "aliases" "Aliases"

  unfoldable pub validate_semantic_contract : SemanticContract → List SemanticContractIssue
  validate_semantic_contract contract =
      duplicate_issues (map (λ (item : EntityTypeDefinition). some item.id) contract.entity_types)
        duplicate_entity_type_id "entityTypes" "Entity type IDs"
      ++ (duplicate_issues (map (λ (item : EntityTypeDefinition). item.iri) contract.entity_types)
            duplicate_entity_type_iri "entityTypes" "Entity type IRIs"
          ++ (duplicate_issues
                (map (λ (item : PredicateDefinition). some item.id) contract.predicates)
                duplicate_predicate_id "predicates" "Predicate IDs"
              ++ (duplicate_issues
                    (map (λ (item : PredicateDefinition). item.iri) contract.predicates)
                    duplicate_predicate_iri "predicates" "Predicate IRIs"
                  ++ (alias_issues contract
                      ++ (entity_type_reference_issues contract
                          ++ (entity_type_cycle_issues contract
                              ++ predicate_constraint_issues 0 contract.predicates))))))
