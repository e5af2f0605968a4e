-- ===== src/Kernel/Invariants/Conflicts/Laws.antt =====
-- Which resolutions of conflicts are recorded, and what they record.
use kotowari.Base.{
  ◌≤◌, String, List, not, ◌≡◌, ◌↔◌, refl, arith, ok, throw_if, ltb, length, iff_trans, string_eq,
  In, includes, includes_iff,
}
use kotowari.Kernel.Errors.{Failure}
use kotowari.Kernel.World.{World}
use kotowari.Kernel.Contracts.{ResolveConflictInput}
use kotowari.Kernel.Invariants.Checks.{Succeeds, sourced_iff, guarded_iff, IsComplete}
use kotowari.Kernel.Invariants.Conflicts.{build_conflict_resolved}

two_claims_iff :
    (ids : List String) (e : Failure) → (throw_if (ltb (length ids) 2) e ≡ ok tt) ↔ (2 ≤ length ids)
two_claims_iff ids e = ground arith

preferred_iff :
    (ids : List String) (id : String) (e : Failure)
    → (throw_if (not (includes ids id)) e ≡ ok tt) ↔ In id ids
preferred_iff ids id e = ground (arith, includes_iff ids id)

-- A resolution is built exactly if its provenance is complete, the conflict has at least two
-- claims, and the preferred claim is one of them.
build_conflict_resolved_iff :
    (i : ResolveConflictInput) (w : World)
    → Succeeds (build_conflict_resolved i w).0
      ↔ (IsComplete i.provenance × (2 ≤ length i.claim_ids) × In i.preferred_claim_id i.claim_ids)
unfolding build_conflict_resolved
build_conflict_resolved_iff i w =
    iff_trans
      (sourced_iff i.provenance _ w (λ p. guarded_iff _ _ w (two_claims_iff i.claim_ids _) (
        guarded_iff _ _ w (preferred_iff i.claim_ids i.preferred_claim_id _)
          (λ _. tt, λ _. (_, refl)))))
      (λ h. (h.0, h.1.0, h.1.1.0), λ k. (k.0, (k.1, (k.2, tt))))
