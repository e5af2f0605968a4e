-- ===== src/Knowledge/Entities/Proposals.antt =====
-- `recordEntityResolutionProposal` and `decideEntityResolutionProposal` of
-- packages/capability-knowledge/src/entity-resolution.ts.
pub mod Laws
use Prim.Native.String
use kotowari.Base.{
  String, List, [], ◌∷◌, Option, none, some, Bool, true, false, not, ◌&&◌, ◌||◌, any, find,
  get_last?, length, ltb, nat_eq, is_some, string_eq, ◌==◌, Result, ok, err, throw_if,
  if◌then◌else◌, option_eq,
}
use kotowari.Base.Exec.{◌>>=◌, ◌>>◌, pure, lift, for_each}
use kotowari.Base.Text.{is_blank, trim}
use kotowari.Kernel.Errors.{Failure, knowledge_error}
use kotowari.Kernel.Ids.{as_event_id}
use kotowari.Kernel.World.{new_id, now_iso}
use kotowari.Kernel.Provenance.{compact_provenance}
use kotowari.Kernel.Access.{entity_resolve, Principal}
use kotowari.Kernel.Entity.{
  Entity, EntityResolutionSignal, EntityResolutionProposal, EntityResolutionDecision,
  ResolutionOutcome, approved, rejected,
}
use kotowari.Kernel.Events.{DomainEvent, entity_merged, entity_merge_reverted}
use kotowari.PluginSdk.Store.{Store, append_outbox}
use kotowari.PluginSdk.System.{Run, on_world, read, write}
use kotowari.Knowledge.{try_read}
use kotowari.Knowledge.ResolutionStore.{
  put_proposal, get_proposal, list_proposals, put_decision, list_decisions,
}
use kotowari.Knowledge.Signals.{Platform, pair_signals, score_signals}
use kotowari.Knowledge.Entities.{
  writable_pair, resolution_metadata, resolution_purpose, assert_resolution_roots, found_proposal,
}

abbrev pub same_pair : Entity → Entity → EntityResolutionProposal → Bool
same_pair source candidate proposal =
    (proposal.source_entity_id == source.id) && (proposal.candidate_entity_id == candidate.id)
    || (proposal.source_entity_id == candidate.id) && (proposal.candidate_entity_id == source.id)

-- The merge that a proposal led to.
abbrev pub merges_proposal : String → DomainEvent → Bool
merges_proposal id e = elim e.body [
  | entity_merged _ _ proposal _ ↦ option_eq proposal (some id)
  | _ ↦ false
]

abbrev pub reverts_merge : String → DomainEvent → Bool
reverts_merge id e = elim e.body [
  | entity_merge_reverted merge_event_id _ _ _ ↦ merge_event_id == id
  | _ ↦ false
]

-- An approved proposal is open again once its merge is reverted.
abbrev pub check_merge :
    EntityResolutionProposal → List DomainEvent → Option DomainEvent → Result Failure (Unit {0})
check_merge proposal events none =
    err (knowledge_error (String.◌++◌ "Equivalent proposal is already approved: " proposal.id))
check_merge proposal events (some merge) =
    throw_if (not (any (reverts_merge merge.event_id) events))
      (knowledge_error (String.◌++◌ "Equivalent entity merge is already active: " merge.event_id))

abbrev pub check_outcome :
    EntityResolutionProposal → List DomainEvent → ResolutionOutcome → Result Failure (Unit {0})
check_outcome proposal events rejected = ok tt
check_outcome proposal events approved =
    check_merge proposal events (find (merges_proposal proposal.id) events)

abbrev pub check_decision :
    EntityResolutionProposal
    → List DomainEvent
    → Option EntityResolutionDecision
    → Result Failure (Unit {0})
check_decision proposal events none =
    err (knowledge_error (String.◌++◌ "Equivalent proposal is still pending: " proposal.id))
check_decision proposal events (some decision) = check_outcome proposal events decision.outcome

-- `collate a b` is `a.localeCompare(b) < 0`.
module _ (collate : String → String → Bool) where
  -- The body of the loop over the proposals.
  unfoldable pub check_equivalent :
      Entity
      → Entity
      → List DomainEvent
      → Store
      → EntityResolutionProposal
      → Result Failure (Unit {0})
  check_equivalent source candidate events s proposal =
      if not (same_pair source candidate proposal)
      then ok tt
      else check_decision proposal events (get_last? (list_decisions collate (some proposal.id) s))

  unfoldable pub assert_no_open_equivalent_proposal : Entity → Entity → Run (Unit {0})
  assert_no_open_equivalent_proposal source candidate = do
    events ← read (λ s. s.events)
    proposals ← read (
        list_proposals collate (record {
          tenant_id = source.tenant_id;
          namespace_id = some source.namespace_id;
          entity_id = some source.id;
        }))
    for_each proposals
        λ proposal. try_read (λ s. check_equivalent source candidate events s proposal)

  -- The proposal, its event and the outbox entry, in one transaction.
  unfoldable pub store_proposal :
      Principal → Entity → Entity → List EntityResolutionSignal → Run EntityResolutionProposal
  store_proposal principal source candidate signals = do
    proposed_at ← on_world now_iso
    provenance ←
        on_world
          (compact_provenance resolution_purpose principal.id "entity.propose_resolution" none)
    metadata ← resolution_metadata collate principal (source ∷ candidate ∷ [])
    id ← on_world new_id
    let proposal : EntityResolutionProposal = record {
      metadata = metadata;
      id = id;
      source_entity_id = source.id;
      candidate_entity_id = candidate.id;
      score = score_signals signals;
      signals = signals;
      resolver_version = "entity-resolution-v1";
      proposed_by = principal.id;
      proposed_at = proposed_at;
      provenance = provenance;
    }
    event ← put_proposal proposal
    write (append_outbox event)
    pure proposal

  unfoldable pub record_entity_resolution_proposal :
      Platform → Principal → String → String → Run EntityResolutionProposal
  record_entity_resolution_proposal platform principal source_entity_id candidate_entity_id = do
    lift (
        throw_if (source_entity_id == candidate_entity_id)
          (knowledge_error "An entity cannot be proposed as a resolution of itself"))
    (source, candidate) ←
        writable_pair principal entity_resolve source_entity_id candidate_entity_id
    assert_resolution_roots collate (source ∷ candidate ∷ [])
    assert_no_open_equivalent_proposal source candidate
    let signals = pair_signals platform collate source candidate
    lift (
        throw_if (nat_eq (length signals) 0)
          (knowledge_error "No deterministic identity signal supports this proposal"))
    store_proposal principal source candidate signals

  -- The proposal of a review that has a reason, where it is not decided yet.
  unfoldable pub open_proposal : String → String → Run (String × EntityResolutionProposal)
  open_proposal proposal_text reason = do
    proposal_id ← lift (as_event_id proposal_text)
    found ← read (get_proposal proposal_id)
    proposal ← lift (found_proposal proposal_text found)
    lift (
        throw_if (is_blank reason)
          (knowledge_error "A resolution review decision requires a reason"))
    decisions ← read (list_decisions collate (some proposal_id))
    lift (
        throw_if (ltb 0 (length decisions)) (
          knowledge_error
            (String.◌++◌ "Entity resolution proposal is already decided: " proposal_id)))
    pure (proposal_id, proposal)

  -- The decision, its event and the outbox entry, in one transaction.
  unfoldable pub store_decision :
      Principal
      → String
      → ResolutionOutcome
      → String
      → Entity
      → Entity
      → Run EntityResolutionDecision
  store_decision principal proposal_id outcome reason source candidate = do
    decided_at ← on_world now_iso
    provenance ←
        on_world
          (compact_provenance resolution_purpose principal.id "entity.decide_resolution" none)
    metadata ← resolution_metadata collate principal (source ∷ candidate ∷ [])
    id ← on_world new_id
    let decision : EntityResolutionDecision = record {
      metadata = metadata;
      id = id;
      proposal_id = proposal_id;
      outcome = outcome;
      reason = trim reason;
      decided_by = principal.id;
      decided_at = decided_at;
      provenance = provenance;
    }
    event ← put_decision decision
    write (append_outbox event)
    pure decision

  unfoldable pub decide_entity_resolution_proposal :
      Principal → String → ResolutionOutcome → String → Run EntityResolutionDecision
  decide_entity_resolution_proposal principal proposal_text outcome reason = do
    (proposal_id, proposal) ← open_proposal proposal_text reason
    (source, candidate) ←
        writable_pair principal entity_resolve proposal.source_entity_id
          proposal.candidate_entity_id
    store_decision principal proposal_id outcome reason source candidate
