-- ===== src/Knowledge/Conflicts/Resolution.antt =====
-- `resolveClaimConflict` of packages/capability-knowledge/src/conflicts.ts: a conflict that was detected
-- is resolved once, and claims that no stored conflict holds are made a conflict and resolved together.
pub mod Steps
pub mod Laws
use Prim.Native.String
use kotowari.Base.{
  String, List, [], ◌∷◌, map, Option, none, some, Bool, not, any, find, includes, string_eq, ◌==◌,
  if◌then◌else◌, Result, ok, err, throw_if,
}
use kotowari.Base.Exec.{◌>>=◌, ◌>>◌, pure, lift, for_each}
use kotowari.Base.Text.{is_blank, trim}
use kotowari.Base.Throw
use kotowari.Kernel.Errors.{Failure, knowledge_error}
use kotowari.Kernel.Ids.{as_claim_id, as_conflict_id}
use kotowari.Kernel.World.{new_id, now_iso}
use kotowari.Kernel.Metadata.{ScopedMetadata}
use kotowari.Kernel.Provenance.{Provenance, compact_provenance}
use kotowari.Kernel.Access.{ResourceKind, Resource, Principal, knowledge_read, conflict_resolve}
use kotowari.Kernel.Authorization.{assert_allowed}
use kotowari.Kernel.Claim.{Claim}
use kotowari.Kernel.Entity.{Conflict, ConflictResolution, human_review, value}
use kotowari.Kernel.Events.{DomainEvent, conflict_resolved}
use kotowari.Kernel.Invariants.Conflicts.{build_conflict_resolved}
use kotowari.PluginSdk.Store.{
  Store, get_claim, list_conflicts, list_resolutions, put_conflict, put_resolution, append_event,
  append_outbox,
}
use kotowari.PluginSdk.System.{Run, on_world, read, write}
use kotowari.Knowledge.{call_context}
use kotowari.Knowledge.Conflicts.{claim_resource, claim_set_key, metadata_for_claims}

unfoldable pub same_claim_set : (String → String → Bool) → List String → List String → Bool
same_claim_set collate left right = claim_set_key collate left == claim_set_key collate right

-- `claimIds.map((id) => asClaimId(id))`
unfoldable pub as_claim_ids : List String → Result Failure (List String)
as_claim_ids [] = ok []
as_claim_ids (x ∷ xs) =
    Throw.◌>>=◌ (as_claim_id x) (λ id. Throw.◌>>=◌ (as_claim_ids xs) (λ ids. ok (id ∷ ids)))

abbrev pub add_found : Claim → Option (List Claim) → Option (List Claim)
add_found claim none = none
add_found claim (some rest) = some (claim ∷ rest)

-- The claims, where the store has them all.
unfoldable pub stored_claims : Store → List String → Option (List Claim)
stored_claims s [] = some []
stored_claims s (id ∷ ids) = elim (get_claim id s) [
  | none ↦ none
  | some claim ↦ add_found claim (stored_claims s ids)
]

abbrev pub found_claims : Option (List Claim) → Result Failure (List Claim)
found_claims none = err (knowledge_error "One or more conflicting claims were not found")
found_claims (some claims) = ok claims

unfoldable pub require_claims : Principal → List String → Run (List Claim)
require_claims principal claim_ids = do
  found ← read (λ s. stored_claims s claim_ids)
  claims ← lift (found_claims found)
  for_each claims λ claim.
      on_world (
        assert_allowed principal knowledge_read (claim_resource claim)
          (call_context principal none))
  pure claims

abbrev pub conflict_resource : String → ScopedMetadata → Resource
conflict_resource id metadata = record {
  kind = ResourceKind.conflict;
  id = id;
  metadata = metadata;
}

abbrev pub as_optional_conflict_id : Option String → Result Failure (Option String)
as_optional_conflict_id none = ok none
as_optional_conflict_id (some id) = Throw.◌>>=◌ (as_conflict_id id) (λ known. ok (some known))

-- The conflict under the identifier that the caller gives, and an error where there is none.
abbrev pub asked_conflict : String → Option Conflict → Result Failure (Option Conflict)
asked_conflict id none = err (knowledge_error (String.◌++◌ "Conflict not found: " id))
asked_conflict id (some conflict) = ok (some conflict)

abbrev pub curator_provenance : Principal → Run Provenance
curator_provenance principal =
    on_world (compact_provenance "curator" principal.id "conflict.resolve" none)

-- `collate a b` is `a.localeCompare(b) < 0`.
module _ (collate : String → String → Bool) where
  -- The stored conflict that is resolved: the one that is named, or one of the same claims.
  unfoldable pub choose_conflict :
      Option String → List String → List Conflict → Result Failure (Option Conflict)
  choose_conflict none claim_ids conflicts =
      ok (find (λ (c : Conflict). same_claim_set collate c.claim_ids claim_ids) conflicts)
  choose_conflict (some id) claim_ids conflicts =
      asked_conflict id (find (λ (c : Conflict). c.id == id) conflicts)

  -- The checks of the claims that are given against a conflict that was detected.
  unfoldable pub check_preferred : Conflict → List String → String → Result Failure String
  check_preferred existing claim_ids preferred_text =
      Throw.◌>>◌
        (throw_if (not (same_claim_set collate existing.claim_ids claim_ids))
          (knowledge_error "Resolution claim ids do not match the detected conflict"))
        (Throw.◌>>=◌ (as_claim_id preferred_text) (λ preferred.
          Throw.◌>>◌
            (throw_if (not (includes existing.claim_ids preferred))
              (knowledge_error "preferredClaimId must be one of the conflicting claims"))
            (ok preferred)))

  -- The resolution, its event and the outbox entry, in one transaction.
  unfoldable pub store_resolution : Principal → Conflict → String → String → Run ConflictResolution
  store_resolution principal existing preferred reason = do
    provenance ← curator_provenance principal
    recorded_at ← on_world now_iso
    let resolution : ConflictResolution = record {
      metadata = record (existing.metadata) { principal_id = some principal.id };
      id = existing.id;
      claim_ids = existing.claim_ids;
      strategy = human_review;
      preferred_claim_id = preferred;
      reason = trim reason;
      provenance = provenance;
      recorded_at = recorded_at;
    }
    event_id ← on_world new_id
    let event : DomainEvent = record {
      event_id = event_id;
      tenant_id = existing.tenant_id;
      provenance = provenance;
      occurred_at = recorded_at;
      body = conflict_resolved existing.id;
    }
    write (put_resolution resolution)
    write (append_event event)
    write (append_outbox event)
    pure resolution

  -- A stored conflict is resolved.
  unfoldable pub resolve_existing :
      Principal → List String → String → String → Conflict → Run ConflictResolution
  resolve_existing principal claim_ids preferred_text reason existing = do
    preferred ← lift (check_preferred existing claim_ids preferred_text)
    on_world (
        assert_allowed principal conflict_resolve (conflict_resource existing.id existing.metadata)
          (call_context principal none))
    prior ← read (list_resolutions principal.tenant_id)
    lift (
        throw_if (any (λ (r : ConflictResolution). r.id == existing.id) prior)
          (knowledge_error (String.◌++◌ "Conflict is already resolved: " existing.id)))
    require_claims principal existing.claim_ids
    store_resolution principal existing preferred reason

  -- Claims that no stored conflict holds are made one, and it is resolved.
  unfoldable pub resolve_new : Principal → List String → String → String → Run ConflictResolution
  resolve_new principal claim_ids preferred_text reason = do
    claims ← require_claims principal claim_ids
    metadata ← lift (metadata_for_claims collate principal claims)
    on_world (
        assert_allowed principal conflict_resolve
          (conflict_resource (claim_set_key collate claim_ids) metadata)
          (call_context principal none))
    preferred ← lift (as_claim_id preferred_text)
    provenance ← curator_provenance principal
    (conflict, resolution, event) ← on_world (
        build_conflict_resolved (record {
          metadata = metadata;
          kind = value;
          claim_ids = claim_ids;
          strategy = human_review;
          preferred_claim_id = preferred;
          reason = trim reason;
          provenance = some provenance;
        }))
    write (put_conflict conflict)
    write (put_resolution resolution)
    write (append_event event)
    write (append_outbox event)
    pure resolution

  -- `existing === undefined` or not.
  abbrev pub resolve_chosen :
      Principal → List String → String → String → Option Conflict → Run ConflictResolution
  resolve_chosen principal claim_ids preferred_text reason none =
      resolve_new principal claim_ids preferred_text reason
  resolve_chosen principal claim_ids preferred_text reason (some existing) =
      resolve_existing principal claim_ids preferred_text reason existing

  unfoldable pub resolve_claim_conflict :
      Principal → Option String → List String → String → String → Run ConflictResolution
  resolve_claim_conflict principal conflict_text claim_texts preferred_text reason = do
    lift (throw_if (is_blank reason) (knowledge_error "A conflict resolution requires a reason"))
    claim_ids ← lift (as_claim_ids claim_texts)
    conflicts ← read (list_conflicts principal.tenant_id)
    conflict_id ← lift (as_optional_conflict_id conflict_text)
    existing ← lift (choose_conflict conflict_id claim_ids conflicts)
    resolve_chosen principal claim_ids preferred_text reason existing
