-- ===== src/Knowledge/Conflicts.antt =====
-- What detection and resolution of conflicts share in packages/capability-knowledge/src/conflicts.ts:
-- the identity of a conflict, the claims that count, the index of the rules, and a conflict's scope.
pub mod Sets
pub mod Detection
pub mod Resolution
use Prim.Native.String
use kotowari.Base.{
  String, List, [], ◌∷◌, map, Option, none, some, Bool, true, false, not, ◌&&◌, ◌||◌, any,
  string_eq, ◌==◌, option_eq, get_or, set_of, Dict, lookup, insert, if◌then◌else◌, Result, ok, err,
}
use kotowari.Base.Number.{Number, integer, num_lt, num_eq, is_integer}
use kotowari.Base.Sorting.{sort}
use kotowari.Base.Text.{text_lt, text_le, join}
use kotowari.Base.Throw
use kotowari.Kernel.Errors.{Failure, knowledge_error}
use kotowari.Kernel.Metadata.{ScopedMetadata}
use kotowari.Kernel.Access.{ResourceKind, Resource, Principal}
use kotowari.Kernel.Claim.{Claim, asserted, conflicted, claim_status_eq, max_timestamp}
use kotowari.Kernel.Entity.{CardinalityConflictRule, ConflictCause}
use kotowari.Knowledge.{stands_elsewhere, joint_metadata}

abbrev pub claim_resource : Claim → Resource
claim_resource claim = record {
  kind = ResourceKind.claim;
  id = claim.id;
  metadata = claim.metadata;
}

-- `collate a b` is `a.localeCompare(b) < 0`.
unfoldable pub claim_set_key : (String → String → Bool) → List String → String
claim_set_key collate claim_ids = join "\0" (sort collate claim_ids)

abbrev pub cause_key : (Number → String) → Option ConflictCause → String
cause_key number_text none = "legacy"
cause_key number_text (some cause) = String.◌++◌ "max-cardinality:" (
    String.◌++◌ cause.subject (
      String.◌++◌ ":" (
        String.◌++◌ cause.predicate (
          String.◌++◌ ":" (
            String.◌++◌ (number_text cause.max) (String.◌++◌ ":" (get_or cause.rule_source "")))))))

unfoldable pub conflict_identity :
    (Number → String) → (String → String → Bool) → List String → Option ConflictCause → String
conflict_identity number_text collate claim_ids cause =
    String.◌++◌ (cause_key number_text cause)
      (String.◌++◌ "\u{1}" (claim_set_key collate claim_ids))

unfoldable pub active_for_detection : Claim → Bool
active_for_detection claim = (claim.status == asserted) || (claim.status == conflicted)

unfoldable pub active_at : Claim → String → Bool
unfolding active_for_detection
active_at claim at =
    let end = get_or claim.bitemporal.valid_to max_timestamp in
    active_for_detection claim && text_le claim.bitemporal.valid_from at && text_lt at end

-- The rule of a term that another rule has already.
abbrev pub is_ambiguous : CardinalityConflictRule → CardinalityConflictRule → Bool
is_ambiguous rule existing =
    not (existing.predicate == rule.predicate)
    || not (num_eq existing.max rule.max)
    || not (option_eq existing.source rule.source)

abbrev pub add_term :
    CardinalityConflictRule
    → String
    → Option CardinalityConflictRule
    → Dict String CardinalityConflictRule
    → Result Failure (Dict String CardinalityConflictRule)
add_term rule term none index = ok (insert term rule index)
add_term rule term (some existing) index =
    if is_ambiguous rule existing
    then err (knowledge_error (String.◌++◌ "Ambiguous conflict-rule term: " term))
    else ok (insert term rule index)

-- The loop over the terms of a rule.
unfoldable pub add_terms :
    CardinalityConflictRule
    → List String
    → Dict String CardinalityConflictRule
    → Result Failure (Dict String CardinalityConflictRule)
add_terms rule [] index = ok index
add_terms rule (term ∷ terms) index =
    Throw.◌>>=◌ (add_term rule term (lookup term index) index) (λ more. add_terms rule terms more)

abbrev pub check_max : CardinalityConflictRule → Result Failure (Unit {0})
check_max rule = Throw.throw_if (not (is_integer rule.max) || num_lt rule.max (integer 1)) (
    knowledge_error
      (String.◌++◌ "Conflict cardinality max must be a positive integer: " rule.predicate))

-- The loop over the rules.
unfoldable pub add_rules :
    List CardinalityConflictRule
    → Dict String CardinalityConflictRule
    → Result Failure (Dict String CardinalityConflictRule)
add_rules [] index = ok index
add_rules (rule ∷ rules) index = Throw.◌>>◌ (check_max rule) (
    Throw.◌>>=◌ (add_terms rule (set_of (rule.predicate ∷ rule.terms)) index)
      (λ more. add_rules rules more))

unfoldable pub rule_term_index :
    List CardinalityConflictRule → Result Failure (Dict String CardinalityConflictRule)
unfolding add_rules add_terms
rule_term_index rules = add_rules rules []

unfoldable pub metadata_for_claims :
    (String → String → Bool) → Principal → List Claim → Result Failure ScopedMetadata
metadata_for_claims collate principal [] =
    err (knowledge_error "Conflict requires at least one claim")
metadata_for_claims collate principal (first ∷ rest) =
    if any (λ (c : Claim). stands_elsewhere first.metadata c.metadata) (first ∷ rest)
    then err (knowledge_error "A conflict cannot cross tenant or namespace scope")
    else ok (
        joint_metadata collate principal first.metadata
          (map (λ (c : Claim). c.metadata) (first ∷ rest)))
