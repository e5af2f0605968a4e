-- ===== src/Kernel/Invariants/Entities.antt =====
-- The builders for entities and their merges of packages/kernel/src/invariants.ts.
pub mod Laws
use kotowari.Base.{
  ℕ, String, List, [], Option, none, some, Bool, Result, ok, err, throw_if, get_or, nat_eq, length,
  string_eq, ◌==◌, includes,
}
use kotowari.Base.Exec.{Exec, ◌>>=◌, ◌>>◌, pure, lift}
use kotowari.Kernel.Errors.{Failure, kernel_error, invalid_id}
use kotowari.Kernel.World.{World, new_id, now_iso}
use kotowari.Kernel.Provenance.{assert_provenance}
use kotowari.Kernel.Entity.{Entity}
use kotowari.Kernel.Events.{DomainEvent, entity_merged}
use kotowari.Kernel.Contracts.{PutEntityInput, MergeEntityInput}

unfoldable pub build_entity : PutEntityInput → Exec World Failure Entity
unfolding new_id now_iso
build_entity input = do
  provenance ← lift (assert_provenance input.provenance)
  id ← new_id
  recorded_at ← now_iso
  pure (record {
    metadata = input.metadata;
    id = id;
    labels = input.labels;
    aliases = get_or input.aliases [];
    external_ids = input.external_ids;
    recorded_at = recorded_at;
    provenance = provenance;
  })

unfoldable pub build_entity_merged :
    MergeEntityInput → Entity → Exec World Failure (Entity × DomainEvent)
unfolding new_id now_iso
build_entity_merged input surviving = do
  provenance ← lift (assert_provenance input.provenance)
  lift (
      throw_if (nat_eq (length input.absorbed_entity_ids) 0)
        (kernel_error invalid_id "entity.merged requires absorbed entity ids"))
  lift (
      throw_if (includes input.absorbed_entity_ids input.surviving_entity_id)
        (kernel_error invalid_id "surviving entity cannot also be absorbed"))
  occurred_at ← now_iso
  event_id ← new_id
  pure (
    surviving,
    record {
      event_id = event_id;
      tenant_id = input.metadata.tenant_id;
      provenance = provenance;
      occurred_at = occurred_at;
      body =
          entity_merged input.surviving_entity_id input.absorbed_entity_ids
            input.resolution_proposal_id input.reason;
    },
  )
