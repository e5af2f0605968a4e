-- ===== src/Knowledge/Conflicts/Sets.antt =====
-- Which claims conflict, in packages/capability-knowledge/src/conflicts.ts: the claims of one subject
-- under one rule, and the maximal sets of them that hold together and are too many.
pub mod Laws
use Prim.Native.String
use kotowari.Base.{
  String, List, [], ◌∷◌, ◌++◌, map, Option, none, some, Bool, true, false, not, ◌&&◌, any, all,
  filter, length, ltb, is_some, string_eq, ◌==◌, get_or, set_of, Dict, lookup, insert, values,
  if◌then◌else◌, Result, ok,
}
use kotowari.Base.Number.{Number, integer, num_lt}
use kotowari.Base.Sorting.{sort}
use kotowari.Base.Throw
use kotowari.Kernel.Errors.{Failure}
use kotowari.Kernel.Claim.{Claim, ClaimObject, entity, literal, claim_objects_equal}
use kotowari.Kernel.Entity.{CardinalityConflictRule}
use kotowari.Kernel.Events.{DomainEvent}
use kotowari.Knowledge.Merges.{canonical_entity_id_from_events}
use kotowari.Knowledge.Conflicts.{claim_set_key, active_for_detection, active_at, rule_term_index}

pub record ClaimGroup : Type 0 where
  pub subject : String
  pub rule : CardinalityConflictRule
  pub claims : List Claim

-- A later claim of the same object does not replace the first.
abbrev pub add_representative : String → Claim → Dict String Claim → Dict String Claim
add_representative key claim kept =
    if is_some (lookup key kept) then kept else insert key claim kept

-- `claims.map((claim) => claim.id)`
abbrev pub ids_of : List Claim → List String
ids_of claims = map (λ (c : Claim). c.id) claims

-- Every claim of the one is a claim of the other.
abbrev pub is_within : List Claim → List Claim → Bool
is_within candidate other =
    all (λ (claim : Claim). any (λ (item : Claim). item.id == claim.id) other) candidate

unfoldable pub keep_maximal : List (List Claim) → List (List Claim)
keep_maximal candidates =
    filter
      (λ candidate. not (
        any (λ other. ltb (length candidate) (length other) && is_within candidate other)
          candidates))
      candidates

-- A claim joins the group of its subject and rule.
abbrev pub join_group :
    String
    → String
    → CardinalityConflictRule
    → Claim
    → Option ClaimGroup
    → Dict String ClaimGroup
    → Dict String ClaimGroup
join_group key subject rule claim none groups =
    insert key (record { subject = subject; rule = rule; claims = claim ∷ [] }) groups
join_group key subject rule claim (some group) groups =
    insert key (record group { claims = group.claims ++ claim ∷ [] }) groups

-- `collate a b` is `a.localeCompare(b) < 0`.
module _ (collate : String → String → Bool) (events : List DomainEvent) where
  abbrev pub object_key : ClaimObject → Result Failure String
  object_key (entity id) =
      Throw.◌>>=◌ (canonical_entity_id_from_events collate events id)
        (λ canonical. ok (String.◌++◌ "entity:" canonical))
  object_key (literal value datatype) =
      ok (String.◌++◌ "literal:" (String.◌++◌ (get_or datatype "") (String.◌++◌ ":" value)))

  unfoldable pub canonical_object_key : Claim → Result Failure String
  canonical_object_key claim = object_key claim.object

  abbrev pub objects_equal : ClaimObject → ClaimObject → Result Failure Bool
  objects_equal (entity a) (entity b) =
      Throw.◌>>=◌ (canonical_entity_id_from_events collate events a) (λ left.
        Throw.◌>>=◌ (canonical_entity_id_from_events collate events b)
          (λ right. ok (left == right)))
  objects_equal (entity a) (literal v s) = ok (claim_objects_equal (entity a) (literal v s))
  objects_equal (literal v s) other = ok (claim_objects_equal (literal v s) other)

  unfoldable pub semantic_objects_equal : Claim → Claim → Result Failure Bool
  semantic_objects_equal left right = objects_equal left.object right.object

  -- The loop over the claims that are active at an instant.
  unfoldable pub representatives_from :
      List Claim → Dict String Claim → Result Failure (Dict String Claim)
  representatives_from [] kept = ok kept
  representatives_from (claim ∷ claims) kept =
      Throw.◌>>=◌ (canonical_object_key claim)
        (λ key. representatives_from claims (add_representative key claim kept))

  abbrev pub by_claim_id : Claim → Claim → Bool
  by_claim_id left right = collate left.id right.id

  -- `if (representatives.size <= max) continue`, or the set that conflicts. `ruleTermIndex`
  -- has rejected a `max` that is not a positive integer, so it is no NaN.
  abbrev pub add_candidate :
      Number → Dict String Claim → Dict String (List Claim) → Dict String (List Claim)
  add_candidate max representatives candidates =
      let conflicting = sort by_claim_id (values representatives) in
      if not (num_lt max (integer (length representatives)))
      then candidates
      else insert (claim_set_key collate (ids_of conflicting)) conflicting candidates

  -- The loop over the instants at which some claim begins to hold.
  unfoldable pub candidate_sets :
      ClaimGroup
      → List String
      → Dict String (List Claim)
      → Result Failure (Dict String (List Claim))
  candidate_sets group [] candidates = ok candidates
  candidate_sets group (at ∷ times) candidates =
      Throw.◌>>=◌
        (representatives_from
          (sort by_claim_id (filter (λ (c : Claim). active_at c at) group.claims)) [])
        (λ representatives.
          candidate_sets group times (add_candidate group.rule.max representatives candidates))

  unfoldable pub start_times : ClaimGroup → List String
  start_times group =
      sort collate (set_of (map (λ (c : Claim). c.bitemporal.valid_from) group.claims))

  unfoldable pub maximal_violating_sets : ClaimGroup → Result Failure (List (List Claim))
  maximal_violating_sets group =
      Throw.◌>>=◌ (candidate_sets group (start_times group) [])
        (λ candidates. ok (keep_maximal (values candidates)))

  -- The key of a claim's group.
  abbrev pub group_key : Claim → String → CardinalityConflictRule → String
  group_key claim subject rule =
      String.◌++◌ claim.namespace_id
        (String.◌++◌ "\0" (String.◌++◌ subject (String.◌++◌ "\0" rule.predicate)))

  abbrev pub add_claim :
      Claim
      → Option CardinalityConflictRule
      → Dict String ClaimGroup
      → Result Failure (Dict String ClaimGroup)
  add_claim claim none groups = ok groups
  add_claim claim (some rule) groups =
      if not (active_for_detection claim)
      then ok groups
      else Throw.◌>>=◌ (canonical_entity_id_from_events collate events claim.subject) (λ subject.
        let key = group_key claim subject rule in
        ok (join_group key subject rule claim (lookup key groups) groups))

  -- The loop over the claims.
  unfoldable pub groups_from :
      Dict String CardinalityConflictRule
      → List Claim
      → Dict String ClaimGroup
      → Result Failure (Dict String ClaimGroup)
  groups_from terms [] groups = ok groups
  groups_from terms (claim ∷ claims) groups =
      Throw.◌>>=◌ (add_claim claim (lookup claim.predicate terms) groups)
        (λ more. groups_from terms claims more)

  unfoldable pub groups_for_claims :
      List Claim → List CardinalityConflictRule → Result Failure (List ClaimGroup)
  groups_for_claims claims rules =
      Throw.◌>>=◌ (rule_term_index rules)
        (λ terms. Throw.◌>>=◌ (groups_from terms claims []) (λ groups. ok (values groups)))

  -- `claims.slice(index + 1).every((other) => semanticObjectsEqual(events, claim, other))`
  unfoldable pub equal_to_all : Claim → List Claim → Result Failure Bool
  equal_to_all claim [] = ok true
  equal_to_all claim (other ∷ others) =
      Throw.◌>>=◌ (semantic_objects_equal claim other)
        (λ same. if same then equal_to_all claim others else ok false)

  unfoldable pub all_semantically_equal : List Claim → Result Failure Bool
  all_semantically_equal [] = ok true
  all_semantically_equal (claim ∷ claims) =
      Throw.◌>>=◌ (equal_to_all claim claims)
        (λ same. if same then all_semantically_equal claims else ok false)
