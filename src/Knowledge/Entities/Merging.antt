-- ===== src/Knowledge/Entities/Merging.antt =====
-- `mergeApprovedEntityResolution`, `revertEntityMerge`, `resolveCanonicalEntity` and
-- `listEntityMergeLineage` of packages/capability-knowledge/src/entity-resolution.ts.
pub mod Laws
pub mod Reversal
use Prim.Native.String
use kotowari.Base.{
  String, List, [], ◌∷◌, ◌++◌, map, Option, none, some, Bool, true, false, not, ◌&&◌, ◌||◌, any,
  find, get_last?, length, nat_eq, is_some, string_eq, ◌==◌, Result, ok, err, throw_if,
  if◌then◌else◌,
}
use kotowari.Base.Exec.{Exec, ◌>>=◌, ◌>>◌, pure, lift, for_each}
use kotowari.Base.Sorting.{sort, then_by}
use kotowari.Base.Text.{is_blank, trim}
use kotowari.Kernel.Errors.{Failure, knowledge_error}
use kotowari.Kernel.Ids.{as_event_id, as_entity_id}
use kotowari.Kernel.World.{World, new_id, now_iso}
use kotowari.Kernel.Provenance.{compact_provenance}
use kotowari.Kernel.Access.{
  entity_merge, knowledge_read, Principal, Effect, allowed, denied, AuthorizationReceipt,
  AuthDecision,
}
use kotowari.Kernel.Authorization.{assert_allowed, allow_with_receipt}
use kotowari.Kernel.Entity.{
  Entity, EntityResolutionProposal, EntityResolutionDecision, EntityMergeLineage, ResolutionOutcome,
  approved, rejected,
}
use kotowari.Kernel.Events.{DomainEvent, entity_merged, entity_merge_reverted}
use kotowari.Kernel.Invariants.Entities.{build_entity_merged}
use kotowari.PluginSdk.Store.{Store, append_event, append_outbox, get_entity}
use kotowari.PluginSdk.System.{Run, on_world, read, write}
use kotowari.Knowledge.{call_context, entity_resource, try_read}
use kotowari.Knowledge.Merges.{is_merge}
use kotowari.Knowledge.ResolutionStore.{
  get_proposal, list_decisions, list_merge_lineage, resolve_canonical_entity_id,
}
use kotowari.Knowledge.Entities.{
  read_receipt, writable_pair, require_entity, assert_same_scope, resolution_metadata,
  resolution_purpose, assert_entity_write, assert_resolution_roots, found_proposal,
}
use kotowari.Knowledge.Entities.Proposals.{merges_proposal, reverts_merge}

abbrev pub not_approved : String → Failure
not_approved id = knowledge_error (String.◌++◌ "Entity resolution proposal is not approved: " id)

-- `decision?.outcome !== 'approved'`
abbrev pub require_approved :
    String → Option EntityResolutionDecision → Result Failure EntityResolutionDecision
require_approved id none = err (not_approved id)
require_approved id (some decision) = elim decision.outcome [
  | approved ↦ ok decision
  | rejected ↦ err (not_approved id)
]

abbrev pub require_unmerged : Option DomainEvent → Result Failure (Unit {0})
require_unmerged none = ok tt
require_unmerged (some previous) = err (
    knowledge_error
      (String.◌++◌ "Entity resolution proposal was already merged: " previous.event_id))

-- `input.reason?.trim() || decision.reason`
abbrev pub reason_or : Option String → String → String
reason_or none given = given
reason_or (some reason) given = if trim reason == "" then given else trim reason

abbrev pub found_lineage : String → Option EntityMergeLineage → Result Failure EntityMergeLineage
found_lineage id none =
    err (knowledge_error (String.◌++◌ "Merge lineage was not reconstructed: " id))
found_lineage id (some lineage) = ok lineage

-- The parts of a merge's event.
pub record MergeParts : Type 0 where
  pub surviving_entity_id : String
  pub absorbed_entity_ids : List String

abbrev pub found_merge : String → Option DomainEvent → Result Failure MergeParts
found_merge id none = err (knowledge_error (String.◌++◌ "Entity merge event not found: " id))
found_merge id (some e) = elim e.body [
  | entity_merged surviving absorbed _ _ ↦
      ok (record { surviving_entity_id = surviving; absorbed_entity_ids = absorbed })
  | _ ↦ err (knowledge_error (String.◌++◌ "Entity merge event not found: " id))
]

-- `Promise.all(ids.map((id) => requireEntity(store, id)))`
unfoldable pub require_entities : List String → Run (List Entity)
require_entities [] = pure []
require_entities (id ∷ ids) = do
  entity ← require_entity id
  entities ← require_entities ids
  pure (entity ∷ entities)

-- `entities.every((entity) => readReceipt(principal, entity) !== undefined)`
unfoldable pub may_read_all : Principal → List Entity → Exec World Failure Bool
may_read_all principal [] = pure true
may_read_all principal (entity ∷ rest) = do
  receipt ← read_receipt principal entity
  if is_some receipt then may_read_all principal rest else pure false

-- Those of the identifiers that are stored.
unfoldable pub stored_entities : List String → Store → List Entity
stored_entities [] s = []
stored_entities (id ∷ ids) s = elim (get_entity id s) [
  | none ↦ stored_entities ids s
  | some entity ↦ entity ∷ stored_entities ids s
]

-- The lineages whose entities are all stored and may all be read.
unfoldable pub readable_lineages :
    Principal → List EntityMergeLineage → Run (List EntityMergeLineage)
readable_lineages principal [] = pure []
readable_lineages principal (item ∷ rest) = do
  let ids = item.surviving_entity_id ∷ item.absorbed_entity_ids
  entities ← read (stored_entities ids)
  let complete = nat_eq (length entities) (length ids)
  may ← on_world (if complete then may_read_all principal entities else pure false)
  items ← readable_lineages principal rest
  pure (if may then item ∷ items else items)

-- `input.entityId === undefined ? undefined : asEntityId(input.entityId)`
abbrev pub optional_entity_id : Option String → Result Failure (Option String)
optional_entity_id none = ok none
optional_entity_id (some id) = elim (as_entity_id id) [ ok e ↦ ok (some e) | err e ↦ err e ]

-- The one of the pair that does not survive.
abbrev pub other_entity : String → EntityResolutionProposal → String
other_entity surviving_id proposal =
    if surviving_id == proposal.source_entity_id
    then proposal.candidate_entity_id
    else proposal.source_entity_id

-- The merge under an identifier, where there is a reason and no reversal yet.
unfoldable pub merge_to_revert : String → String → Run (String × MergeParts)
merge_to_revert merge_text reason = do
  lift (throw_if (is_blank reason) (knowledge_error "A merge reversal requires a reason"))
  merge_event_id ← lift (as_event_id merge_text)
  events ← read (λ s. s.events)
  merge ← lift (
      found_merge merge_event_id
        (find (λ (e : DomainEvent). is_merge e && (e.event_id == merge_event_id)) events))
  lift (
      throw_if (any (reverts_merge merge_event_id) events)
        (knowledge_error (String.◌++◌ "Entity merge is already reverted: " merge_event_id)))
  pure (merge_event_id, merge)

-- `collate a b` is `a.localeCompare(b) < 0`.
module _ (collate : String → String → Bool) where
  -- The lineage of a merge, as the log has it now.
  unfoldable pub read_lineage : Entity → String → Run EntityMergeLineage
  read_lineage surviving merge_event_id = do
    lineages ← read (
        list_merge_lineage collate (record {
          tenant_id = surviving.tenant_id;
          namespace_id = some surviving.namespace_id;
          entity_id = some surviving.id;
        }))
    lift (
        found_lineage merge_event_id
          (find (λ (item : EntityMergeLineage). item.merge_event_id == merge_event_id) lineages))

  -- The merge's event and the outbox entry, in one transaction.
  unfoldable pub store_merge :
      Principal → String → String → Entity → Entity → Run EntityMergeLineage
  store_merge principal proposal_id reason surviving absorbed = do
    provenance ←
        on_world (compact_provenance resolution_purpose principal.id "entity.merge_resolution" none)
    metadata ← resolution_metadata collate principal (surviving ∷ absorbed ∷ [])
    built ← on_world (
        build_entity_merged
          (record {
            metadata = metadata;
            surviving_entity_id = surviving.id;
            absorbed_entity_ids = absorbed.id ∷ [];
            resolution_proposal_id = some proposal_id;
            reason = some reason;
            provenance = some provenance;
          })
          surviving)
    let event = built.1
    write (append_event event)
    write (append_outbox event)
    read_lineage surviving event.event_id

  -- The approved proposal, its last decision, and the survivor, which is one of its entities.
  unfoldable pub approved_proposal :
      String → String → Run (String × EntityResolutionProposal × EntityResolutionDecision × String)
  approved_proposal proposal_text surviving_text = do
    proposal_id ← lift (as_event_id proposal_text)
    found ← read (get_proposal proposal_id)
    proposal ← lift (found_proposal proposal_text found)
    decisions ← read (list_decisions collate (some proposal_id))
    decision ← lift (require_approved proposal_id (get_last? decisions))
    surviving_id ← lift (as_entity_id surviving_text)
    lift (
        throw_if
          (not (surviving_id == proposal.source_entity_id)
            && not (surviving_id == proposal.candidate_entity_id))
          (knowledge_error "Surviving entity must be one of the proposed entity pair"))
    pure (proposal_id, proposal, decision, surviving_id)

  unfoldable pub merge_approved_entity_resolution :
      Principal → String → String → Option String → Run EntityMergeLineage
  merge_approved_entity_resolution principal proposal_text surviving_text reason = do
    (proposal_id, proposal, decision, surviving_id) ← approved_proposal proposal_text surviving_text
    (surviving, absorbed) ←
        writable_pair principal entity_merge surviving_id (other_entity surviving_id proposal)
    assert_resolution_roots collate (surviving ∷ absorbed ∷ [])
    events ← read (λ s. s.events)
    lift (require_unmerged (find (merges_proposal proposal_id) events))
    store_merge principal proposal_id (reason_or reason decision.reason) surviving absorbed

  -- The reversal's event and the outbox entry, in one transaction.
  unfoldable pub store_reversal :
      Principal → String → String → Entity → List Entity → Run EntityMergeLineage
  store_reversal principal merge_event_id reason surviving restored = do
    provenance ←
        on_world (compact_provenance resolution_purpose principal.id "entity.revert_merge" none)
    event_id ← on_world new_id
    occurred_at ← on_world now_iso
    let event : DomainEvent = record {
      event_id = event_id;
      tenant_id = surviving.tenant_id;
      provenance = provenance;
      occurred_at = occurred_at;
      body =
          entity_merge_reverted merge_event_id surviving.id (map (λ (e : Entity). e.id) restored)
            (trim reason);
    }
    write (append_event event)
    write (append_outbox event)
    read_lineage surviving merge_event_id

  unfoldable pub revert_entity_merge : Principal → String → String → Run EntityMergeLineage
  revert_entity_merge principal merge_text reason = do
    (merge_event_id, merge) ← merge_to_revert merge_text reason
    surviving ← require_entity merge.surviving_entity_id
    restored ← require_entities merge.absorbed_entity_ids
    lift (assert_same_scope (surviving ∷ restored))
    assert_entity_write principal entity_merge (surviving ∷ restored)
    store_reversal principal merge_event_id reason surviving restored

  unfoldable pub resolve_canonical_entity : Principal → String → Run Entity
  resolve_canonical_entity principal entity_id = do
    entity ← require_entity entity_id
    on_world (
        assert_allowed principal knowledge_read (entity_resource entity)
          (call_context principal (some resolution_purpose)))
    canonical_id ← try_read (resolve_canonical_entity_id collate entity.id)
    canonical ← require_entity canonical_id
    on_world (
        assert_allowed principal knowledge_read (entity_resource canonical)
          (call_context principal (some resolution_purpose)))
    pure canonical

  -- The loop over the namespaces.
  unfoldable pub lineages_in :
      Principal → Option String → List String → Run (List EntityMergeLineage)
  lineages_in principal requested [] = pure []
  lineages_in principal requested (namespace_id ∷ rest) = do
    scoped ← read (
        list_merge_lineage collate (record {
          tenant_id = principal.tenant_id;
          namespace_id = some namespace_id;
          entity_id = requested;
        }))
    items ← readable_lineages principal scoped
    others ← lineages_in principal requested rest
    pure (items ++ others)

  unfoldable pub list_entity_merge_lineage :
      Principal → Option String → Run (List EntityMergeLineage)
  list_entity_merge_lineage principal entity_id = do
    requested ← lift (optional_entity_id entity_id)
    lineage ← lineages_in principal requested principal.namespace_ids
    pure (
        sort
          (λ left right.
            then_by (collate left.recorded_at right.recorded_at)
              (collate right.recorded_at left.recorded_at)
              (collate left.merge_event_id right.merge_event_id))
          lineage)
