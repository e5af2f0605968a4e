-- ===== src/Ontology.antt =====
-- packages/capability-ontology/src: the types of a semantic contract and the terms that name its parts,
-- of semantic-contract.ts.
pub mod Claims
pub mod Contracts
pub mod Registry
use kotowari.Base.{
  String, List, [], ◌∷◌, ◌++◌, Option, none, some, Bool, string_eq, Dict, lookup, insert, is_some,
  if◌then◌else◌, get_or,
}
use kotowari.Base.Number.{Number}

pub data SemanticContractStatus : Type 0 where
  draft active retired : SemanticContractStatus

pub data LiteralDatatype : Type 0 where
  string integer_text number boolean date date_time uri : LiteralDatatype

pub data ValidationRule : Type 0 where
  enum : (values : List String) → ValidationRule
  pattern_rule : (source : String) → ValidationRule
  min_length max_length : (value : Number) → ValidationRule

pub data PredicateRange : Type 0 where
  literal : (datatype : LiteralDatatype) (datatype_iri : Option String) → PredicateRange
  entity : (entity_type_ids : Option (List String)) → PredicateRange

pub record Cardinality : Type 0 where
  pub min : Option Number
  pub max : Option Number

pub record EntityTypeDefinition : Type 0 where
  pub id : String
  pub iri : Option String
  pub label : Option String
  pub description : Option String
  pub aliases : Option (List String)
  pub extends : Option (List String)
  pub closed : Option Bool

pub record PredicateDefinition : Type 0 where
  pub id : String
  pub iri : Option String
  pub label : Option String
  pub description : Option String
  pub aliases : Option (List String)
  pub domain : Option (List String)
  pub range : PredicateRange
  pub cardinality : Option Cardinality
  pub rules : Option (List ValidationRule)

pub record SemanticContract : Type 0 where
  pub id : String
  pub name : String
  pub version : Number
  pub status : SemanticContractStatus
  pub base_iri : String
  pub prefixes : Option (Dict String String)
  pub entity_types : List EntityTypeDefinition
  pub predicates : List PredicateDefinition

abbrev pub present : Option String → List String
present none = []
present (some term) = term ∷ []

-- A term that is taken stays with the item that has it.
unfoldable pub add_names : {A : Type 0} → A → List String → Dict String A → Dict String A
add_names item [] terms = terms
add_names item (term ∷ rest) terms =
    add_names item rest (if is_some (lookup term terms) then terms else insert term item terms)

-- `[item.id, item.iri, ...(item.aliases ?? [])]`, what is undefined left out.
abbrev pub entity_type_names : EntityTypeDefinition → List String
entity_type_names item = item.id ∷ (present item.iri ++ get_or item.aliases [])

abbrev pub predicate_names : PredicateDefinition → List String
predicate_names item = item.id ∷ (present item.iri ++ get_or item.aliases [])

unfoldable pub semantic_terms :
    {A : Type 0} → (A → List String) → List A → Dict String A → Dict String A
semantic_terms names [] terms = terms
semantic_terms names (item ∷ items) terms =
    semantic_terms names items (add_names item (names item) terms)

unfoldable pub resolve_entity_type : SemanticContract → String → Option EntityTypeDefinition
resolve_entity_type contract term =
    lookup term (semantic_terms entity_type_names contract.entity_types [])

unfoldable pub resolve_predicate : SemanticContract → String → Option PredicateDefinition
resolve_predicate contract term =
    lookup term (semantic_terms predicate_names contract.predicates [])
