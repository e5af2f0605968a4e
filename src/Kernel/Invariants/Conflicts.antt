-- ===== src/Kernel/Invariants/Conflicts.antt =====
-- `buildConflictResolved` of packages/kernel/src/invariants.ts.
pub mod Laws
use kotowari.Base.{
  ℕ, String, List, Option, none, some, Bool, not, Result, ok, err, throw_if, ltb, length, string_eq,
  includes,
}
use kotowari.Base.Exec.{Exec, ◌>>=◌, ◌>>◌, pure, lift}
use kotowari.Kernel.Errors.{Failure, kernel_error, invalid_id}
use kotowari.Kernel.World.{World, new_id, now_iso}
use kotowari.Kernel.Provenance.{assert_provenance}
use kotowari.Kernel.Entity.{Conflict, ConflictResolution}
use kotowari.Kernel.Events.{DomainEvent, conflict_resolved}
use kotowari.Kernel.Contracts.{ResolveConflictInput}

unfoldable pub build_conflict_resolved :
    ResolveConflictInput → Exec World Failure (Conflict × ConflictResolution × DomainEvent)
unfolding new_id now_iso
build_conflict_resolved input = do
  provenance ← lift (assert_provenance input.provenance)
  lift (
      throw_if (ltb (length input.claim_ids) 2)
        (kernel_error invalid_id "A conflict requires at least two claims"))
  lift (
      throw_if (not (includes input.claim_ids input.preferred_claim_id))
        (kernel_error invalid_id "preferredClaimId must be one of the conflicting claims"))
  recorded_at ← now_iso
  id ← new_id
  event_id ← new_id
  pure (
    record {
      metadata = input.metadata;
      id = id;
      kind = input.kind;
      claim_ids = input.claim_ids;
      cause = none;
      provenance = none;
      recorded_at = recorded_at;
    },
    record {
      metadata = input.metadata;
      id = id;
      claim_ids = input.claim_ids;
      strategy = input.strategy;
      preferred_claim_id = input.preferred_claim_id;
      reason = input.reason;
      provenance = provenance;
      recorded_at = recorded_at;
    },
    record {
      event_id = event_id;
      tenant_id = input.metadata.tenant_id;
      provenance = provenance;
      occurred_at = recorded_at;
      body = conflict_resolved id;
    },
  )
