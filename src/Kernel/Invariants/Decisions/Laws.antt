-- ===== src/Kernel/Invariants/Decisions/Laws.antt =====
-- Which decisions are recorded, and what their records hold.
use kotowari.Base.{Option, none, some, ◌≢◌, ◌↔◌, refl, iff_trans}
use kotowari.Kernel.World.{World}
use kotowari.Kernel.Context.{ContextSnapshot}
use kotowari.Kernel.Contracts.{RecordDecisionInput}
use kotowari.Kernel.Invariants.{require_context_snapshot}
use kotowari.Kernel.Invariants.Checks.{
  Succeeds, sourced_iff, guarded_iff, passed_iff, IsComplete, IsFreeOfThought, IsConfidence,
  assert_no_chain_of_thought_iff, assert_confidence_iff,
}
use kotowari.Kernel.Invariants.Decisions.{build_decision_recorded}

snapshot_iff : (o : Option ContextSnapshot) → Succeeds (require_context_snapshot o) ↔ (o ≢ none)
unfolding require_context_snapshot
snapshot_iff none = (λ h. cc (h.1), λ h. absurd (h refl))
snapshot_iff (some s) = (λ _ e. cc, λ _. (s, refl))

-- A decision is built exactly if its provenance is complete, it has no hidden chain of thought, a
-- context snapshot, and a confidence between 0 and 1. Nothing is asked of its evidence: a decision that
-- considered none is built as well.
pub build_decision_recorded_iff :
    (i : RecordDecisionInput) (w : World)
    → Succeeds (build_decision_recorded i w).0 ↔ (
        IsComplete i.provenance
        × IsFreeOfThought i.extra
        × (i.input_context_snapshot ≢ none)
        × IsConfidence i.confidence)
unfolding build_decision_recorded
build_decision_recorded_iff i w =
    iff_trans
      (sourced_iff i.provenance _ w (λ p.
        guarded_iff _ _ w (assert_no_chain_of_thought_iff i.extra) (
          passed_iff _ _ w (snapshot_iff i.input_context_snapshot) (λ snapshot.
            guarded_iff _ _ w (assert_confidence_iff i.confidence) (λ _. tt, λ _. (_, refl))))))
      (λ h. (h.0, h.1.0, h.1.1.0, h.1.1.1.0), λ k. (k.0, (k.1, (k.2, (k.3, tt)))))
