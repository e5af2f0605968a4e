-- ===== src/Knowledge/Conflicts/Detection.antt =====
-- `detectClaimConflicts` of packages/capability-knowledge/src/conflicts.ts. The set of the identities
-- that are known, which the code changes in place, is handed from call to call.
use Prim.Native.String
use kotowari.Base.{
  String, List, [], ◌∷◌, ◌++◌, map, Option, none, some, Bool, true, includes, set_of, length, ltb,
  string_eq, if◌then◌else◌, Result, ok,
}
use kotowari.Base.Exec.{Exec, ◌>>=◌, ◌>>◌, pure, lift}
use kotowari.Base.Number.{Number}
use kotowari.Kernel.Errors.{Failure}
use kotowari.Kernel.World.{World, new_id, now_iso}
use kotowari.Kernel.Provenance.{compact_provenance}
use kotowari.Kernel.Metadata.{ScopedMetadata}
use kotowari.Kernel.Access.{
  ResourceKind, Resource, Principal, knowledge_read, conflict_detect, allowed, denied,
}
use kotowari.Kernel.Authorization.{allow_now, assert_allowed}
use kotowari.Kernel.Claim.{Claim}
use kotowari.Kernel.Entity.{CardinalityConflictRule, ConflictCause, Conflict, value}
use kotowari.Kernel.Events.{DomainEvent, conflict_detected}
use kotowari.PluginSdk.Store.{
  list_claims, list_conflicts, put_conflict, append_event, append_outbox,
}
use kotowari.PluginSdk.System.{Run, on_world, read, write}
use kotowari.Knowledge.{call_context}
use kotowari.Knowledge.Conflicts.{claim_resource, conflict_identity, metadata_for_claims}
use kotowari.Knowledge.Conflicts.Sets.{
  ClaimGroup, ids_of, maximal_violating_sets, groups_for_claims, all_semantically_equal,
}

abbrev pub detection_purpose : String
detection_purpose = "semantic-conflict-detection"

-- The claims that the principal may read, each asked at its own reading of the clock.
unfoldable pub readable_claims : Principal → List Claim → Exec World Failure (List Claim)
readable_claims principal [] = pure []
readable_claims principal (claim ∷ claims) = do
  decision ←
      allow_now principal knowledge_read (claim_resource claim)
        (call_context principal (some detection_purpose))
  rest ← readable_claims principal claims
  pure (elim decision.effect [ allowed ↦ claim ∷ rest | denied ↦ rest ])

unfoldable pub conflict_cause : ClaimGroup → ConflictCause
conflict_cause group = record {
  subject = group.subject;
  predicate = group.rule.predicate;
  max = group.rule.max;
  rule_source = group.rule.source;
}

abbrev pub group_resource : ClaimGroup → ScopedMetadata → Resource
group_resource group metadata = record {
  kind = ResourceKind.conflict;
  id = String.◌++◌ group.subject (String.◌++◌ ":" group.rule.predicate);
  metadata = metadata;
}

-- `claims.length < 2 || allSemanticallyEqual(claims, events)`
abbrev pub is_no_conflict :
    (String → String → Bool) → List DomainEvent → List Claim → Result Failure Bool
is_no_conflict collate events claims =
    if ltb (length claims) 2 then ok true else all_semantically_equal collate events claims

-- What persisting gives: the conflict, where there is a new one, and the identities known then.
abbrev pub Persisted : Type 0
Persisted = Option Conflict × List String

abbrev pub add_detected : Option Conflict → List Conflict → List Conflict
add_detected none rest = rest
add_detected (some conflict) rest = conflict ∷ rest

-- `number_text` is `String` on numbers, `collate a b` is `a.localeCompare(b) < 0`.
module _ (number_text : Number → String) (collate : String → String → Bool) where
  -- The conflict, its event and the outbox entry, in one transaction.
  unfoldable pub store_conflict :
      Principal → ClaimGroup → ScopedMetadata → List String → Run Conflict
  store_conflict principal group metadata claim_ids = do
    provenance ←
        on_world
          (compact_provenance "semantic-conflict-detector" principal.id "conflict.detect" none)
    recorded_at ← on_world now_iso
    id ← on_world new_id
    event_id ← on_world new_id
    let conflict : Conflict = record {
      metadata = metadata;
      id = id;
      kind = value;
      claim_ids = claim_ids;
      cause = some (conflict_cause group);
      provenance = some provenance;
      recorded_at = recorded_at;
    }
    let event : DomainEvent = record {
      event_id = event_id;
      tenant_id = metadata.tenant_id;
      provenance = provenance;
      occurred_at = recorded_at;
      body = conflict_detected id;
    }
    write (put_conflict conflict)
    write (append_event event)
    write (append_outbox event)
    pure conflict

  -- A conflict that is not known yet is stored.
  unfoldable pub persist_new : Principal → ClaimGroup → List Claim → List String → Run Persisted
  persist_new principal group claims identities = do
    metadata ← lift (metadata_for_claims collate principal claims)
    on_world (
        assert_allowed principal conflict_detect (group_resource group metadata)
          (call_context principal (some detection_purpose)))
    let identity =
        conflict_identity number_text collate (ids_of claims) (some (conflict_cause group))
    if includes identities identity then pure (none, identities) else do
      conflict ← store_conflict principal group metadata (ids_of claims)
      pure (some conflict, identities ++ identity ∷ [])

  unfoldable pub persist_conflict_candidate :
      Principal → ClaimGroup → List Claim → List DomainEvent → List String → Run Persisted
  persist_conflict_candidate principal group claims events identities = do
    harmless ← lift (is_no_conflict collate events claims)
    if harmless then pure (none, identities) else persist_new principal group claims identities

  -- The loop over the sets of a group.
  unfoldable pub persist_sets :
      Principal
      → ClaimGroup
      → List DomainEvent
      → List (List Claim)
      → List String
      → Run (List Conflict × List String)
  persist_sets principal group events [] identities = pure ([], identities)
  persist_sets principal group events (claims ∷ sets) identities = do
    (conflict, known) ← persist_conflict_candidate principal group claims events identities
    (rest, all_known) ← persist_sets principal group events sets known
    pure (add_detected conflict rest, all_known)

  -- The loop over the groups of a namespace.
  unfoldable pub persist_groups :
      Principal
      → List DomainEvent
      → List ClaimGroup
      → List String
      → Run (List Conflict × List String)
  persist_groups principal events [] identities = pure ([], identities)
  persist_groups principal events (group ∷ groups) identities = do
    sets ← lift (maximal_violating_sets collate events group)
    (found, known) ← persist_sets principal group events sets identities
    (rest, all_known) ← persist_groups principal events groups known
    pure (found ++ rest, all_known)

  unfoldable pub detect_namespace_conflicts :
      Principal
      → String
      → List CardinalityConflictRule
      → List DomainEvent
      → List String
      → Run (List Conflict × List String)
  detect_namespace_conflicts principal namespace_id rules events identities = do
    listed ← read (
        list_claims collate (record {
          tenant_id = principal.tenant_id;
          namespace_id = some namespace_id;
          temporal = none;
          as_of = none;
        }))
    claims ← on_world (readable_claims principal listed)
    groups ← lift (groups_for_claims collate events claims rules)
    persist_groups principal events groups identities

  -- The loop over the namespaces.
  unfoldable pub detect_namespaces :
      Principal
      → List String
      → List CardinalityConflictRule
      → List DomainEvent
      → List String
      → Run (List Conflict × List String)
  detect_namespaces principal [] rules events identities = pure ([], identities)
  detect_namespaces principal (namespace_id ∷ rest) rules events identities = do
    (found, known) ← detect_namespace_conflicts principal namespace_id rules events identities
    (others, all_known) ← detect_namespaces principal rest rules events known
    pure (found ++ others, all_known)

  -- The identities of the conflicts that are stored.
  abbrev pub known_identities : List Conflict → List String
  known_identities existing =
      set_of
        (map (λ (c : Conflict). conflict_identity number_text collate c.claim_ids c.cause) existing)

  unfoldable pub detect_claim_conflicts :
      Principal → List CardinalityConflictRule → Run (List Conflict)
  detect_claim_conflicts principal [] = pure []
  detect_claim_conflicts principal (rule ∷ rules) = do
    events ← read (λ s. s.events)
    existing ← read (list_conflicts principal.tenant_id)
    (detected, known) ←
        detect_namespaces principal principal.namespace_ids (rule ∷ rules) events
          (known_identities existing)
    pure detected
