-- ===== src/Kernel/Events.antt =====
-- packages/kernel/src/events.ts: the immutable domain events. The fields that every event has stand
-- in the record, and the others in its `body`, whose constructors are the kinds.
use kotowari.Base.{String, List, Option}
use kotowari.Kernel.Provenance.{Provenance}
use kotowari.Kernel.Entity.{EntityResolutionProposal, EntityResolutionDecision}
use kotowari.Kernel.Decision.{DecisionRelation, OutcomeObservation, PolicyException, ApprovalRecord}

pub data EventBody : Type 0 where
  claim_asserted claim_retracted : (claim_id : String) → EventBody
  evidence_inserted : (evidence_id : String) → EventBody
  entity_resolution_proposed : EntityResolutionProposal → EventBody
  entity_resolution_decided : EntityResolutionDecision → EventBody
  entity_merged :
      (surviving_entity_id : String) (absorbed_entity_ids : List String)
      (resolution_proposal_id reason : Option String)
      → EventBody
  entity_merge_reverted :
      (merge_event_id surviving_entity_id : String) (restored_entity_ids : List String)
      (reason : String)
      → EventBody
  decision_recorded : (decision_id : String) → EventBody
  decision_related :
      (decision_id related_decision_id relation_id : String) → DecisionRelation → EventBody
  decision_outcome_observed :
      (decision_id outcome_observation_id : String) → OutcomeObservation → EventBody
  decision_approval_recorded :
      (decision_id approval_record_id : String) → ApprovalRecord → EventBody
  policy_exception_recorded :
      (decision_id policy_exception_id policy_version_id : String) → PolicyException → EventBody
  policy_evaluated : (policy_id : String) → EventBody
  conflict_detected conflict_resolved : (conflict_id : String) → EventBody
  context_accessed : (context_id : String) → EventBody

pub record DomainEvent : Type 0 where
  pub event_id : String
  pub tenant_id : String
  pub provenance : Provenance
  pub occurred_at : String
  pub body : EventBody
