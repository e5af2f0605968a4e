-- ===== src/Tests/Knowledge.antt =====
-- The properties of entity resolution at two entities of one town: a proposal, its review, the merge and
-- the reversal.
use mathlib.Core.Bool.{decide, false≢true}
use kotowari.Base.{
  String, List, [], ◌∷◌, ◌++◌, none, some, false, ◌≡◌, ◌≢◌, inl, inr, refl, ap, sym, ◌∙◌, ok, In,
  All, lookup, insert, length, includes, filter, find, any, string_eq, ==_iff, set_of, add_all,
}
use kotowari.Base.Exec.{for_each}
use kotowari.Base.Number.{integer}
use kotowari.Base.Sorting.{sort}
use kotowari.Base.Text.{is_blank, trim}
use kotowari.Kernel.World.{now_iso, new_id}
use kotowari.Kernel.Metadata.{Visibility-discrete}
use kotowari.Kernel.Ids.{as_entity_id, as_event_id}
use kotowari.Kernel.Provenance.{Provenance, assert_provenance, compact_provenance}
use kotowari.Kernel.Access.{Action-discrete, entity_resolve}
use kotowari.Kernel.Authorization.{
  allow, allow_now, assert_allowed, deny_if_cross_tenant, deny_if_classification_insufficient,
  deny_if_not_admin, deny_if_agent_delegation_invalid, deny_if_private_visibility,
  deny_if_outside_namespace, deny_if_viewer_cannot_write,
}
use kotowari.Kernel.Entity.{
  Entity, EntityResolutionProposal, EntityResolutionDecision, EntityMergeLineage, approved,
}
use kotowari.Kernel.Events.{DomainEvent, entity_merge_reverted}
use kotowari.Kernel.Invariants.Entities.{build_entity_merged}
use kotowari.PluginSdk.Store.{empty_store, get_entity, append_event, append_outbox}
use kotowari.PluginSdk.System.{System}
use kotowari.Knowledge.Merges.{
  follow, follow_redirects, reverted_merges, canonical_entity_id_from_events,
  active_entity_merge_events, redirects_of, redirects_from,
}
use kotowari.Knowledge.{
  joint_metadata, strictest_classification, strictest_visibility, visibility_rank, tags_of,
}
use kotowari.Knowledge.ResolutionStore.{
  resolve_canonical_entity_id, list_merge_lineage, lineages, reversals_from, proposal_event,
  decision_event, get_proposal, list_decisions, find_proposal, decisions_of, put_decision,
}
use kotowari.Knowledge.Entities.{
  assert_resolution_roots, require_entity, assert_same_scope, resolution_metadata,
  assert_entity_write, writable_pair,
}
use kotowari.Knowledge.Entities.Steps.{MayWriteFrom}
use kotowari.Knowledge.Entities.Proposals.{
  reverts_merge, open_proposal, store_decision, decide_entity_resolution_proposal,
}
use kotowari.Knowledge.Entities.Proposals.Laws.{
  decide_entity_resolution_proposal-Appends, decide_entity_resolution_proposal-once,
}
use kotowari.Knowledge.Entities.Merging.{
  read_lineage, approved_proposal, store_merge, merge_approved_entity_resolution, merge_to_revert,
  require_entities, store_reversal, revert_entity_merge,
}
use kotowari.Knowledge.Entities.Merging.Laws.{IsMerged, merge_approved_entity_resolution-IsMerged}
use kotowari.Knowledge.Entities.Merging.Reversal.{revert_entity_merge-Restores}
use kotowari.Tests.Data.{day_1, day_2, world, metadata, provenance, ada}
use kotowari.Tests.Merges.{merge}
use kotowari.Tests.Store.{collate}

abbrev town : String → Entity
town id = record {
  metadata = metadata;
  id = id;
  labels = "Berlin" ∷ [];
  aliases = [];
  external_ids = none;
  recorded_at = day_1;
  provenance = provenance;
}

abbrev proposal : EntityResolutionProposal
proposal = record {
  metadata = metadata;
  id = "q1";
  source_entity_id = "berlin-2";
  candidate_entity_id = "berlin";
  score = integer 1;
  signals = [];
  resolver_version = "entity-resolution-v1";
  proposed_by = "ada";
  proposed_at = day_1;
  provenance = provenance;
}

abbrev with_events : List DomainEvent → System
with_events events = record {
  store = record empty_store {
    entities = ("berlin", town "berlin") ∷ ("berlin-2", town "berlin-2") ∷ [];
    events = events;
  };
  world = world;
}

abbrev in_review : System
in_review = with_events (proposal_event proposal ∷ [])

abbrev written_by : String → Provenance
written_by process = record provenance {
  source = "entity-resolution";
  process = process;
  timestamp = day_2;
}

abbrev decision : EntityResolutionDecision
decision = record {
  metadata = metadata;
  id = "fresh";
  proposal_id = "q1";
  outcome = approved;
  reason = "same town";
  decided_by = "ada";
  decided_at = day_2;
  provenance = written_by "entity.decide_resolution";
}

abbrev after_review : System
after_review =
    (decide_entity_resolution_proposal collate ada "q1" approved " same town " in_review).1

decided :
    decide_entity_resolution_proposal collate ada "q1" approved " same town " in_review
    ≡ (ok decision, after_review)
unfolding decide_entity_resolution_proposal open_proposal as_event_id as_entity_id is_blank trim
    get_proposal find_proposal list_decisions decisions_of filter sort length writable_pair
    require_entity get_entity lookup assert_same_scope any assert_entity_write for_each
    assert_allowed allow_now now_iso new_id allow deny_if_cross_tenant
    deny_if_classification_insufficient deny_if_not_admin deny_if_agent_delegation_invalid
    deny_if_private_visibility deny_if_outside_namespace deny_if_viewer_cannot_write includes
    Visibility-discrete Action-discrete decide store_decision put_decision compact_provenance
    resolution_metadata set_of joint_metadata strictest_classification strictest_visibility add_all
    visibility_rank tags_of
decided = refl

decide_entity_resolution_proposal-Appends_example :
    ((q : EntityResolutionProposal) × (source : Entity) × (candidate : Entity) × (get_proposal "q1"
          in_review.store
        ≡ some q)
      × (get_entity q.source_entity_id in_review.store ≡ some source)
      × (get_entity q.candidate_entity_id in_review.store ≡ some candidate)
      × All (MayWriteFrom ada entity_resolve world.clock world.readings) (source ∷ candidate ∷ []))
    × ((is_blank " same town " ≡ false) × (list_decisions collate (some "q1") in_review.store ≡ []))
    × ((decision.proposal_id ≡ "q1")
        × (decision.outcome ≡ approved)
        × (decision.reason ≡ trim " same town ")
        × (decision.decided_by ≡ "ada"))
    × (after_review.store
        ≡ append_outbox
            (decision_event decision)
            (append_event (decision_event decision) in_review.store))
decide_entity_resolution_proposal-Appends_example =
    decide_entity_resolution_proposal-Appends collate ada "q1" approved " same town " in_review
      after_review decision decided

decide_entity_resolution_proposal-once_example :
    decide_entity_resolution_proposal collate ada "q1" approved "again" (record after_review {
      store = record (after_review.store) { events = after_review.store.events ++ merge ∷ [] };
    })
    ≢ (ok decision, after_review)
decide_entity_resolution_proposal-once_example =
    decide_entity_resolution_proposal-once collate ada ada "q1" approved approved " same town "
      "again" in_review after_review
      (record after_review {
        store = record (after_review.store) { events = after_review.store.events ++ merge ∷ [] };
      })
      after_review decision decision (merge ∷ []) decided refl

-- The log once the proposal is approved, and once it is merged.
abbrev approved_log : System
approved_log =
    with_events (proposal_event proposal ∷ decision_event (record decision { id = "d1" }) ∷ [])

abbrev merged_log : System
merged_log =
    with_events
      (proposal_event proposal ∷ decision_event (record decision { id = "d1" }) ∷ merge ∷ [])

none_reverted : includes (reverted_merges approved_log.store.events) "fresh" ≡ false
unfolding includes reverted_merges
none_reverted = refl

leads_to_itself :
    canonical_entity_id_from_events collate approved_log.store.events "berlin-2" ≡ ok "berlin-2"
unfolding canonical_entity_id_from_events follow_redirects follow redirects_of
    active_entity_merge_events redirects_from reverted_merges filter sort lookup
leads_to_itself = refl

abbrev lineage : EntityMergeLineage
lineage = record {
  metadata = metadata;
  merge_event_id = "fresh";
  resolution_proposal_id = some "q1";
  surviving_entity_id = "berlin";
  absorbed_entity_ids = "berlin-2" ∷ [];
  reason = some "same town";
  recorded_at = day_2;
  provenance = written_by "entity.merge_resolution";
  reverted_by_event_id = none;
  reverted_at = none;
  revert_reason = none;
}

abbrev after_merge : System
after_merge = (merge_approved_entity_resolution collate ada "q1" "berlin" none approved_log).1

merged :
    merge_approved_entity_resolution collate ada "q1" "berlin" none approved_log
    ≡ (ok lineage, after_merge)
unfolding merge_approved_entity_resolution approved_proposal as_event_id as_entity_id is_blank trim
    get_proposal find_proposal list_decisions decisions_of filter sort length writable_pair
    require_entity get_entity lookup assert_same_scope any assert_entity_write for_each
    assert_allowed allow_now now_iso new_id allow deny_if_cross_tenant
    deny_if_classification_insufficient deny_if_not_admin deny_if_agent_delegation_invalid
    deny_if_private_visibility deny_if_outside_namespace deny_if_viewer_cannot_write includes
    Visibility-discrete Action-discrete decide store_merge compact_provenance resolution_metadata
    set_of joint_metadata strictest_classification strictest_visibility add_all visibility_rank
    tags_of assert_resolution_roots resolve_canonical_entity_id canonical_entity_id_from_events
    follow_redirects redirects_of active_entity_merge_events find build_entity_merged
    assert_provenance read_lineage list_merge_lineage lineages append_outbox append_event
    reversals_from
merged = refl

merge_approved_entity_resolution-IsMerged_example :
    IsMerged collate ada "q1" "berlin" none approved_log after_merge lineage
merge_approved_entity_resolution-IsMerged_example =
    merge_approved_entity_resolution-IsMerged collate ada "q1" "berlin" none approved_log
      after_merge lineage merged

abbrev undone_lineage : EntityMergeLineage
undone_lineage = record lineage {
  merge_event_id = "m1";
  resolution_proposal_id = none;
  reason = none;
  recorded_at = day_1;
  provenance = provenance;
  reverted_by_event_id = some "fresh";
  reverted_at = some day_2;
  revert_reason = some "not the same";
}

abbrev after_reversal : System
after_reversal = (revert_entity_merge collate ada "m1" "not the same" merged_log).1

undone :
    revert_entity_merge collate ada "m1" "not the same" merged_log
    ≡ (ok undone_lineage, after_reversal)
unfolding revert_entity_merge merge_to_revert as_event_id as_entity_id is_blank trim
    require_entities filter sort length require_entity get_entity lookup assert_same_scope any
    assert_entity_write for_each assert_allowed allow_now now_iso new_id allow deny_if_cross_tenant
    deny_if_classification_insufficient deny_if_not_admin deny_if_agent_delegation_invalid
    deny_if_private_visibility deny_if_outside_namespace deny_if_viewer_cannot_write includes
    Visibility-discrete Action-discrete decide store_reversal compact_provenance find read_lineage
    list_merge_lineage lineages append_outbox append_event reversals_from insert
undone = refl

unique_merge :
    (e : DomainEvent)
    → In e ((proposal_event proposal ∷ decision_event (record decision { id = "d1" }) ∷ []) ++ [])
    → e.event_id ≢ merge.event_id
unique_merge e (inl first) h =
    false≢true ((==_iff "q1" "m1").1 (ap (λ (d : DomainEvent). d.event_id) (sym first) ∙ h))
unique_merge e (inr (inl second)) h =
    false≢true ((==_iff "d1" "m1").1 (ap (λ (d : DomainEvent). d.event_id) (sym second) ∙ h))
unique_merge e (inr (inr i)) h = absurd i

revert_entity_merge-Restores_example :
    ((is_blank "not the same" ≡ false) × (any (reverts_merge "m1") merged_log.store.events ≡ false))
    × ((r : DomainEvent) × (away : String) × (restored : List String) × (r.body
          ≡ entity_merge_reverted "m1" away restored (trim "not the same"))
        × (undone_lineage.merge_event_id ≡ "m1")
        × (after_reversal.store ≡ append_outbox r (append_event r merged_log.store)))
    × (canonical_entity_id_from_events collate after_reversal.store.events "berlin-2"
        ≡ canonical_entity_id_from_events collate
            ((proposal_event proposal ∷ decision_event (record decision { id = "d1" }) ∷ []) ++ [])
            "berlin-2")
revert_entity_merge-Restores_example =
    revert_entity_merge-Restores collate ada "not the same" "berlin-2" merged_log after_reversal
      undone_lineage (proposal_event proposal ∷ decision_event (record decision { id = "d1" }) ∷ [])
      [] merge "berlin" ("berlin-2" ∷ []) none none refl refl unique_merge undone
