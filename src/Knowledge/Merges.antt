-- ===== src/Knowledge/Merges.antt =====
-- `activeEntityMergeEvents` and `canonicalEntityIdFromEvents` of
-- packages/capability-knowledge/src/entity-resolution-store.ts: which merges stand, and where the
-- redirects of the absorbed entities lead.
pub mod Follow
pub mod Redirects
pub mod Canonical
use Prim.Native.String
use kotowari.Base.{
  ℕ, zero, suc, String, List, [], ◌∷◌, Option, none, some, Bool, true, false, not, filter, includes,
  length, Dict, lookup, insert, string_eq, if◌then◌else◌, Result, ok, err, get_or,
}
use kotowari.Base.Sorting.{sort, then_by}
use kotowari.Kernel.Errors.{Failure, knowledge_error}
use kotowari.Kernel.Events.{DomainEvent, entity_merged, entity_merge_reverted}

-- The merges that a reversal names.
unfoldable pub reverted_merges : List DomainEvent → List String
reverted_merges [] = []
reverted_merges (e ∷ es) = elim e.body [
  | entity_merge_reverted merge_event_id _ _ _ ↦ merge_event_id ∷ reverted_merges es
  | _ ↦ reverted_merges es
]

abbrev pub is_merge : DomainEvent → Bool
is_merge e = elim e.body [ entity_merged _ _ _ _ ↦ true | _ ↦ false ]

-- `redirects.set(absorbed, event.survivingEntityId)` for each of the absorbed.
unfoldable pub set_redirects : String → List String → Dict String String → Dict String String
set_redirects surviving [] redirects = redirects
set_redirects surviving (absorbed ∷ rest) redirects =
    set_redirects surviving rest (insert absorbed surviving redirects)

abbrev pub add_redirects : DomainEvent → Dict String String → Dict String String
add_redirects e redirects = elim e.body [
  | entity_merged surviving absorbed _ _ ↦ set_redirects surviving absorbed redirects
  | _ ↦ redirects
]

-- The loop over the merges.
unfoldable pub redirects_from : List DomainEvent → Dict String String → Dict String String
redirects_from [] redirects = redirects
redirects_from (e ∷ es) redirects = redirects_from es (add_redirects e redirects)

abbrev pub cycle_error : String → Failure
cycle_error at = knowledge_error (String.◌++◌ "Entity merge cycle detected at " at)

-- The `while` loop, on fuel; `none` means that the fuel ran out.
unfoldable pub follow :
    ℕ → Dict String String → String → List String → Option (Result Failure String)
follow zero redirects current seen = none
follow (suc fuel) redirects current seen = elim (lookup current redirects) [
  | none ↦ some (ok current)
  | some next ↦
      let rest = follow fuel redirects next (current ∷ seen) in
      if includes seen current then some (err (cycle_error current)) else rest
]

-- Every round but the last marks an entity that is redirected, so the rounds are at most one more than
-- the redirects.
unfoldable pub follow_redirects : Dict String String → String → Result Failure String
unfolding follow
follow_redirects redirects id =
    get_or (follow (suc (length redirects)) redirects id []) (err (knowledge_error "out of fuel"))

-- `collate a b` is `a.localeCompare(b) < 0`.
module _ (collate : String → String → Bool) where
  abbrev pub event_order : DomainEvent → DomainEvent → Bool
  event_order left right =
      then_by (collate left.occurred_at right.occurred_at)
        (collate right.occurred_at left.occurred_at) (collate left.event_id right.event_id)

  unfoldable pub active_entity_merge_events : List DomainEvent → List DomainEvent
  unfolding reverted_merges
  active_entity_merge_events events =
      sort event_order
        (filter (λ e. not (includes (reverted_merges events) e.event_id)) (filter is_merge events))

  unfoldable pub redirects_of : List DomainEvent → Dict String String
  unfolding redirects_from set_redirects
  redirects_of events = redirects_from (active_entity_merge_events events) []

  unfoldable pub canonical_entity_id_from_events : List DomainEvent → String → Result Failure String
  canonical_entity_id_from_events events entity_id =
      follow_redirects (redirects_of events) entity_id
