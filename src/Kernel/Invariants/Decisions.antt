-- ===== src/Kernel/Invariants/Decisions.antt =====
-- `buildDecisionRecorded` and `buildContextSnapshot` of packages/kernel/src/invariants.ts.
pub mod Laws
use Prim.Native.String
use kotowari.Base.{
  ℕ, String, List, [], ◌∷◌, map, Option, none, some, Bool, Result, ok, err, get_or, nat_eq, length,
  if◌then◌else◌,
}
use kotowari.Base.Exec.{Exec, ◌>>=◌, ◌>>◌, pure, lift}
use kotowari.Base.Number.{Number}
use kotowari.Kernel.Errors.{Failure}
use kotowari.Kernel.World.{World, new_id, now_iso}
use kotowari.Kernel.Metadata.{ScopedMetadata, TemporalPerspective}
use kotowari.Kernel.Provenance.{assert_provenance, assert_no_chain_of_thought}
use kotowari.Kernel.Context.{ContextSnapshot, ContextSliceItem, PolicyVersionRef}
use kotowari.Kernel.Decision.{Decision}
use kotowari.Kernel.Events.{DomainEvent, decision_recorded}
use kotowari.Kernel.Contracts.{RecordDecisionInput}
use kotowari.Kernel.Invariants.{assert_confidence, require_context_snapshot}

unfoldable pub build_decision_recorded :
    RecordDecisionInput → Exec World Failure (Decision × DomainEvent)
unfolding new_id now_iso
build_decision_recorded input = do
  provenance ← lift (assert_provenance input.provenance)
  lift (assert_no_chain_of_thought input.extra)
  snapshot ← lift (require_context_snapshot input.input_context_snapshot)
  lift (assert_confidence input.confidence)
  recorded_at ← now_iso
  id ← new_id
  event_id ← new_id
  pure (
    record {
      metadata = input.metadata;
      id = id;
      input_context_snapshot_id = snapshot.id;
      input_context_snapshot = snapshot;
      considered_evidence_ids = input.considered_evidence_ids;
      applicable_policy_ids = input.applicable_policy_ids;
      selected_outcome = input.selected_outcome;
      alternatives = input.alternatives;
      confidence = input.confidence;
      actor = input.actor;
      model = input.model;
      runtime_id = input.runtime_id;
      rationale = input.rationale;
      resulting_action_ids = input.resulting_action_ids;
      observed_outcome = input.observed_outcome;
      policy_evaluations = input.policy_evaluations;
      recorded_at = recorded_at;
      provenance = provenance;
    },
    record {
      event_id = event_id;
      tenant_id = input.metadata.tenant_id;
      provenance = provenance;
      occurred_at = recorded_at;
      body = decision_recorded id;
    },
  )

pub record SnapshotInput : Type 0 where
  pub metadata : ScopedMetadata
  pub purpose : String
  pub temporal : Option TemporalPerspective
  pub retrieval_receipt_id : Option String
  pub claim_ids : List String
  pub evidence_ids : List String
  pub policy_versions : Option (List PolicyVersionRef)
  pub policy_version_ids : Option (List String)
  pub items : List ContextSliceItem
  pub budget : Number

abbrev pub no_perspective : TemporalPerspective
no_perspective = record { valid_at = none; known_at = none }

module _ (number_text : Number → String) where
  -- `${ref.policyVersionId}@${String(ref.version)}`
  abbrev pub version_key : PolicyVersionRef → String
  version_key ref = String.◌++◌ ref.policy_version_id (String.◌++◌ "@" (number_text ref.version))

  unfoldable pub build_context_snapshot : SnapshotInput → Exec World Failure ContextSnapshot
  unfolding new_id now_iso
  build_context_snapshot input =
      let versions = get_or input.policy_versions [] in
      let keys = get_or input.policy_version_ids (map version_key versions) in
      do
        id ← new_id
        captured_at ← now_iso
        pure (record {
          metadata = input.metadata;
          id = id;
          captured_at = captured_at;
          purpose = input.purpose;
          temporal = get_or input.temporal no_perspective;
          retrieval_receipt_id = input.retrieval_receipt_id;
          namespace_ids = input.metadata.namespace_id ∷ [];
          claim_ids = input.claim_ids;
          evidence_ids = input.evidence_ids;
          policy_versions = versions;
          policy_version_ids = if nat_eq (length keys) 0 then none else some keys;
          items = input.items;
          budget = input.budget;
        })
