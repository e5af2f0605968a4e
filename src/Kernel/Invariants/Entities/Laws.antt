-- ===== src/Kernel/Invariants/Entities/Laws.antt =====
-- Which merges of entities are accepted.
use kotowari.Base.{
  ◌<◌, String, List, ◌≡◌, ◌↔◌, refl, arith, ok, throw_if, nat_eq, length, iff_trans, string_eq, In,
  includes, includes_iff,
}
use kotowari.Kernel.Errors.{Failure}
use kotowari.Kernel.World.{World}
use kotowari.Kernel.Entity.{Entity}
use kotowari.Kernel.Contracts.{MergeEntityInput}
use kotowari.Kernel.Invariants.Checks.{Succeeds, sourced_iff, guarded_iff, IsComplete}
use kotowari.Kernel.Invariants.Entities.{build_entity_merged}

some_absorbed_iff :
    (ids : List String) (e : Failure)
    → (throw_if (nat_eq (length ids) 0) e ≡ ok tt) ↔ (0 < length ids)
some_absorbed_iff ids e = ground arith

survives_iff :
    (ids : List String) (id : String) (e : Failure)
    → (throw_if (includes ids id) e ≡ ok tt) ↔ ¬ (In id ids)
survives_iff ids id e = ground (arith, includes_iff ids id)

-- A merge of entities is built exactly if its provenance is complete, it absorbs some entity, and
-- it does not absorb the survivor.
pub build_entity_merged_iff :
    (i : MergeEntityInput) (surviving : Entity) (w : World)
    → Succeeds (build_entity_merged i surviving w).0 ↔ (
        IsComplete i.provenance
        × (0 < length i.absorbed_entity_ids)
        × ¬ (In i.surviving_entity_id i.absorbed_entity_ids))
unfolding build_entity_merged
build_entity_merged_iff i surviving w =
    iff_trans
      (sourced_iff i.provenance _ w (λ p.
        guarded_iff _ _ w (some_absorbed_iff i.absorbed_entity_ids _) (
          guarded_iff _ _ w (survives_iff i.absorbed_entity_ids i.surviving_entity_id _)
            (λ _. tt, λ _. (_, refl)))))
      (λ h. (h.0, h.1.0, h.1.1.0), λ k. (k.0, (k.1, (k.2, tt))))
