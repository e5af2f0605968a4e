-- ===== src/Ontology/Claims.antt =====
-- packages/capability-ontology/src/claim-validation.ts: what a claim does that its contract forbids.
pub mod Laws
use Prim.Native.String
use kotowari.Base.{
  ℕ, zero, suc, String, List, [], ◌∷◌, ◌++◌, Option, none, some, Bool, true, false, not, ◌&&◌, ◌||◌,
  any, includes, length, leb, nat_eq, string_eq, ◌==◌, get_or, if◌then◌else◌, Result, ok, err,
}
use kotowari.Base.Number.{
  Number, nan, pos_infinity, neg_infinity, pos, neg, integer, is_integer, num_lt, num_eq,
}
use kotowari.Base.Text.{units, is_blank}
use kotowari.Base.Throw
use kotowari.Kernel.Errors.{Failure}
use kotowari.Kernel.Claim.{Claim, ClaimObject}
use kotowari.Ontology.{
  LiteralDatatype, string, integer_text, number, boolean, date, date_time, uri, ValidationRule,
  enum, pattern_rule, min_length, max_length, PredicateRange, PredicateDefinition, SemanticContract,
  resolve_predicate,
}

pub data ClaimContractIssueCode : Type 0 where
  unknown_predicate domain_mismatch range_kind_mismatch : ClaimContractIssueCode
  range_entity_type_mismatch datatype_mismatch value_rule_violation : ClaimContractIssueCode

pub record ClaimContractIssue : Type 0 where
  pub code : ClaimContractIssueCode
  pub path : String
  pub message : String

pub record ClaimContractContext : Type 0 where
  pub subject_entity_type_ids : Option (List String)
  pub object_entity_type_ids : Option (List String)

-- What the language reads texts with: `Number`, whether `Date.parse` and `new URL` accept a text, and
-- `new RegExp(source).test(value)`, which throws where the source is no pattern.
pub record Reader : Type 0 where
  pub to_number : String → Number
  pub parses_date : String → Bool
  pub parses_url : String → Bool
  pub test_pattern : String → String → Result Failure Bool

unfoldable pub has_intersection : List String → List String → Bool
has_intersection left right = any (λ value. includes left value) right

abbrev pub is_digit : ℕ → Bool
is_digit c = leb 48 c && leb c 57

-- So many digits, and then what `rest` accepts.
unfoldable pub digits_then : ℕ → (List ℕ → Bool) → List ℕ → Bool
digits_then zero rest cs = rest cs
digits_then (suc n) rest [] = false
digits_then (suc n) rest (c ∷ cs) = is_digit c && digits_then n rest cs

abbrev pub dash_then : (List ℕ → Bool) → List ℕ → Bool
dash_then rest [] = false
dash_then rest (c ∷ cs) = nat_eq c 45 && rest cs

-- `/^\d{4}-\d{2}-\d{2}$/`
abbrev pub has_date_shape : String → Bool
has_date_shape value =
    digits_then 4
      (dash_then (digits_then 2 (dash_then (digits_then 2 (λ cs. nat_eq (length cs) 0)))))
      (units value)

unfoldable pub only_digits : List ℕ → Bool
only_digits [] = true
only_digits (c ∷ cs) = is_digit c && only_digits cs

abbrev pub some_digits : List ℕ → Bool
some_digits cs = not (nat_eq (length cs) 0) && only_digits cs

-- `/^-?\d+$/`
abbrev pub has_integer_shape : String → Bool
has_integer_shape value = elim (units value) [
  | [] ↦ false
  | c ∷ cs ↦ if nat_eq c 45 then some_digits cs else some_digits (c ∷ cs)
]

-- `Number.isSafeInteger(x)`, `Number.isFinite(x)`
abbrev pub is_safe_integer : Number → Bool
is_safe_integer x =
    is_integer x
    && not (num_lt (integer 9007199254740991) x)
    && not (num_lt x (neg 9007199254740991 0))

abbrev pub is_finite : Number → Bool
is_finite nan = false
is_finite pos_infinity = false
is_finite neg_infinity = false
is_finite (pos a b) = true
is_finite (neg a b) = true

-- `a <= b`, false where either is NaN.
abbrev pub at_most : Number → Number → Bool
at_most a b = num_lt a b || num_eq a b

abbrev pub text_length : String → Number
text_length value = integer (length (units value))

abbrev pub issue : ClaimContractIssueCode → String → String → ClaimContractIssue
issue code path message = record { code = code; path = path; message = message }

abbrev pub datatype_text : LiteralDatatype → String
datatype_text string = "string"
datatype_text integer_text = "integer"
datatype_text number = "number"
datatype_text boolean = "boolean"
datatype_text date = "date"
datatype_text date_time = "date-time"
datatype_text uri = "uri"

abbrev pub rule_text : ValidationRule → String
rule_text (enum values) = "enum"
rule_text (pattern_rule source) = "pattern"
rule_text (min_length value) = "min-length"
rule_text (max_length value) = "max-length"

abbrev pub issue_if : Bool → ClaimContractIssue → List ClaimContractIssue
issue_if failing found = if failing then found ∷ [] else []

-- `xs.length === 0`
abbrev pub is_empty : List String → Bool
is_empty [] = true
is_empty (x ∷ xs) = false

-- `left.length === 0 || right.length === 0 || hasIntersection(left, right)`
abbrev pub compatible : List String → List String → Bool
compatible left right = is_empty left || is_empty right || has_intersection left right

unfoldable pub domain_issues : PredicateDefinition → ClaimContractContext → List ClaimContractIssue
domain_issues predicate context =
    issue_if
      (not (compatible (get_or predicate.domain []) (get_or context.subject_entity_type_ids [])))
      (issue domain_mismatch "subject"
        (String.◌++◌ "Subject entity type is outside predicate domain: " predicate.id))

unfoldable pub entity_range_issues :
    PredicateDefinition → Option (List String) → ClaimContractContext → List ClaimContractIssue
entity_range_issues predicate entity_type_ids context =
    issue_if
      (not (compatible (get_or entity_type_ids []) (get_or context.object_entity_type_ids [])))
      (issue range_entity_type_mismatch "object.entityId"
        (String.◌++◌ "Object entity type is outside predicate range: " predicate.id))

-- `expected !== undefined && actual !== undefined && actual !== expected`
abbrev pub differs : Option String → Option String → Bool
differs (some expected) (some actual) = not (actual == expected)
differs _ _ = false

module _ (reader : Reader) where
  unfoldable pub literal_matches_datatype : String → LiteralDatatype → Bool
  literal_matches_datatype value string = true
  literal_matches_datatype value integer_text =
      has_integer_shape value && is_safe_integer (reader.to_number value)
  literal_matches_datatype value number = not (is_blank value) && is_finite (reader.to_number value)
  literal_matches_datatype value boolean = (value == "true") || (value == "false")
  literal_matches_datatype value date =
      has_date_shape value && reader.parses_date (String.◌++◌ value "T00:00:00Z")
  literal_matches_datatype value date_time = reader.parses_date value
  literal_matches_datatype value uri = reader.parses_url value

  unfoldable pub rule_matches : String → ValidationRule → Result Failure Bool
  rule_matches value (enum values) = ok (includes values value)
  rule_matches value (pattern_rule source) = reader.test_pattern source value
  rule_matches value (min_length least) = ok (at_most least (text_length value))
  rule_matches value (max_length most) = ok (at_most (text_length value) most)

  -- The loop over the rules.
  unfoldable pub rule_issues :
      PredicateDefinition → String → List ValidationRule → Result Failure (List ClaimContractIssue)
  rule_issues predicate value [] = ok []
  rule_issues predicate value (rule ∷ rules) = Throw.◌>>=◌ (rule_matches value rule) (λ matching.
      Throw.◌>>=◌ (rule_issues predicate value rules) (λ rest. ok (
        issue_if (not matching) (
          issue value_rule_violation "object.value" (
            String.◌++◌ "Literal value violates "
              (String.◌++◌ (rule_text rule) (String.◌++◌ " rule: " predicate.id))))
        ++ rest)))

  unfoldable pub literal_issues :
      PredicateDefinition
      → LiteralDatatype
      → Option String
      → String
      → Option String
      → Result Failure (List ClaimContractIssue)
  literal_issues predicate datatype datatype_iri value stated =
      Throw.◌>>=◌ (rule_issues predicate value (get_or predicate.rules [])) (λ broken. ok (
        issue_if (not (literal_matches_datatype value datatype)) (
          issue datatype_mismatch "object.value" (
            String.◌++◌ "Value does not match "
              (String.◌++◌ (datatype_text datatype) (String.◌++◌ ": " predicate.id))))
        ++ (issue_if (differs datatype_iri stated) (
              issue datatype_mismatch "object.datatype" (
                String.◌++◌ "Literal datatype IRI does not match predicate contract: "
                  predicate.id))
            ++ broken)))

  abbrev pub kind_mismatch : PredicateDefinition → List ClaimContractIssue
  kind_mismatch predicate =
      issue range_kind_mismatch "object"
        (String.◌++◌ "Claim object kind does not match predicate range: " predicate.id)
      ∷ []

  -- The issues of the object, by the kinds of the predicate's range and of the object.
  abbrev pub object_issues :
      PredicateDefinition
      → ClaimContractContext
      → PredicateRange
      → ClaimObject
      → Result Failure (List ClaimContractIssue)
  object_issues predicate context (PredicateRange.entity ids) (ClaimObject.entity id) =
      ok (entity_range_issues predicate ids context)
  object_issues predicate context (PredicateRange.literal datatype iri)
        (ClaimObject.literal value stated) =
      literal_issues predicate datatype iri value stated
  object_issues predicate context (PredicateRange.entity ids) (ClaimObject.literal value stated) =
      ok (kind_mismatch predicate)
  object_issues predicate context (PredicateRange.literal datatype iri) (ClaimObject.entity id) =
      ok (kind_mismatch predicate)

  abbrev pub predicate_issues :
      Claim
      → ClaimContractContext
      → Option PredicateDefinition
      → Result Failure (List ClaimContractIssue)
  predicate_issues claim context none = ok (
      issue unknown_predicate "predicate"
        (String.◌++◌ "Predicate is not defined by semantic contract: " claim.predicate)
      ∷ [])
  predicate_issues claim context (some predicate) =
      Throw.◌>>=◌ (object_issues predicate context predicate.range claim.object)
        (λ found. ok (domain_issues predicate context ++ found))

  unfoldable pub validate_claim_against_contract :
      Claim → SemanticContract → ClaimContractContext → Result Failure (List ClaimContractIssue)
  validate_claim_against_contract claim contract context =
      predicate_issues claim context (resolve_predicate contract claim.predicate)
