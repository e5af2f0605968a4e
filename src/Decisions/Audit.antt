-- ===== src/Decisions/Audit.antt =====
-- `buildDecisionAuditBundleCapability` of packages/capability-decision/src/decision.ts, and the one of
-- lifecycle.ts that adds the records of the decision's later life. `hash` is the digest of a value's
-- JSON text, and `collate` what `localeCompare` says.
pub mod Touches
pub mod Laws
use kotowari.Base.{
  String, List, [], ◌∷◌, ◌++◌, map, Option, none, some, Bool, true, false, not, ◌&&◌, ◌||◌,
  string_eq, ◌==◌, get_or, filter, includes, insert, Dict, if◌then◌else◌,
}
use kotowari.Base.Exec.{◌>>=◌, ◌>>◌, pure}
use kotowari.Base.Number.{Number}
use kotowari.Kernel.World.{new_id, now_iso}
use kotowari.Kernel.Metadata.{TemporalPerspective}
use kotowari.Kernel.Access.{Principal, audit_read, AuthorizationReceipt}
use kotowari.Kernel.Authorization.{assert_allowed}
use kotowari.Kernel.Claim.{Claim}
use kotowari.Kernel.Entity.{Evidence}
use kotowari.Kernel.Context.{ContextSnapshot, PolicyRecord, RetrievalReceipt}
use kotowari.Kernel.Decision.{
  Decision, DecisionRelation, OutcomeObservation, PolicyException, ApprovalRecord,
}
use kotowari.Kernel.Events.{
  DomainEvent, EventBody, claim_asserted, claim_retracted, evidence_inserted, decision_recorded,
  decision_related, decision_outcome_observed, decision_approval_recorded,
  policy_exception_recorded,
}
use kotowari.PluginSdk.Store.{Store, ClaimReadFilter, list_claims, get_evidence}
use kotowari.PluginSdk.System.{Run, on_world, read}
use kotowari.PluginSdk.Lifecycle.{
  DecisionLifecycleFilter, list_decision_relations, list_outcome_observations,
  list_policy_exceptions, list_approval_records,
}
use kotowari.Decisions.{call_context, decision_resource}
use kotowari.Decisions.Lifecycle.{when_found}
use kotowari.Decisions.Replay.{DecisionReplay, replay_decision_capability}

pub record DecisionAuditManifest : Type 0 where
  pub schema_version : String
  pub generated_at : String
  pub content_hashes : Dict String String

pub record DecisionAuditBundle : Type 0 where
  pub id : String
  pub decision : Decision
  pub context_snapshot : ContextSnapshot
  pub retrieval_receipt : Option RetrievalReceipt
  pub claims : List Claim
  pub evidence : List Evidence
  pub policy_versions : List PolicyRecord
  pub authorization_receipts : List AuthorizationReceipt
  pub relations : List DecisionRelation
  pub outcomes : List OutcomeObservation
  pub exceptions : List PolicyException
  pub approvals : List ApprovalRecord
  pub events : List DomainEvent
  pub manifest : DecisionAuditManifest

-- The values that are hashed.
pub data Hashed : Type 0 where
  of_decision : Decision → Hashed
  of_context : ContextSnapshot → Hashed
  of_retrieval : Option RetrievalReceipt → Hashed
  of_claims : List Claim → Hashed
  of_evidence : List Evidence → Hashed
  of_policies : List PolicyRecord → Hashed
  of_receipts : List AuthorizationReceipt → Hashed
  of_events : List DomainEvent → Hashed
  of_relations : List DecisionRelation → Hashed
  of_outcomes : List OutcomeObservation → Hashed
  of_exceptions : List PolicyException → Hashed
  of_approvals : List ApprovalRecord → Hashed

-- The `decisionId` of an event that has one.
abbrev pub decision_id_of : EventBody → Option String
decision_id_of (decision_recorded id) = some id
decision_id_of (decision_related id _ _ _) = some id
decision_id_of (decision_outcome_observed id _ _) = some id
decision_id_of (decision_approval_recorded id _ _) = some id
decision_id_of (policy_exception_recorded id _ _ _) = some id
decision_id_of _ = none

abbrev pub claim_id_of : EventBody → Option String
claim_id_of (claim_asserted id) = some id
claim_id_of (claim_retracted id) = some id
claim_id_of _ = none

abbrev pub evidence_id_of : EventBody → Option String
evidence_id_of (evidence_inserted id) = some id
evidence_id_of _ = none

-- `key in event && test(event[key])`
abbrev pub has_and : Option String → (String → Bool) → Bool
has_and none test = false
has_and (some id) test = test id

unfoldable pub event_touches_decision_context : DomainEvent → Decision → Bool
event_touches_decision_context event decision =
    if not (event.tenant_id == decision.tenant_id)
    then false
    else has_and (decision_id_of event.body) (λ id. id == decision.id)
      || has_and (claim_id_of event.body)
          (λ id. includes decision.input_context_snapshot.claim_ids id)
      || has_and (evidence_id_of event.body)
          (λ id. includes decision.input_context_snapshot.evidence_ids id)

unfoldable pub lifecycle_event_touches_decision : DomainEvent → String → Bool
lifecycle_event_touches_decision event decision_id = elim event.body [
  | decision_related from to _ _ ↦ (from == decision_id) || (to == decision_id)
  | decision_outcome_observed id _ _ ↦ id == decision_id
  | decision_approval_recorded id _ _ ↦ id == decision_id
  | policy_exception_recorded id _ _ _ ↦ id == decision_id
  | _ ↦ false
]

-- The perspective of the context; what it does not say of knowledge, the capture says.
abbrev pub audit_perspective : ContextSnapshot → TemporalPerspective
audit_perspective snapshot = record (snapshot.temporal) {
  known_at = some (get_or snapshot.temporal.known_at snapshot.captured_at);
}

-- `evidenceIds.map(getEvidence)` without what is not there.
pub evidence_of : List String → Store → List Evidence
evidence_of [] s = []
evidence_of (id ∷ ids) s = elim (get_evidence id s) [
  | none ↦ evidence_of ids s
  | some item ↦ item ∷ evidence_of ids s
]

-- `retrievalReceipt?.authorizationReceipts ?? []`
abbrev pub receipts_in : Option RetrievalReceipt → List AuthorizationReceipt
receipts_in none = []
receipts_in (some receipt) = receipt.authorization_receipts

-- The events of the base bundle, and with those of the lifecycle.
abbrev pub context_events : Decision → Store → List DomainEvent
context_events decision s = filter (λ e. event_touches_decision_context e decision) s.events

abbrev pub with_lifecycle_events : String → List DomainEvent → Store → List DomainEvent
with_lifecycle_events id base s =
    base
    ++ filter
        (λ e.
          lifecycle_event_touches_decision e id
          && not (includes (map (λ (b : DomainEvent). b.event_id) base) e.event_id))
        s.events

module _ (collate : String → String → Bool) where
  unfoldable pub audit_claims : Decision → Store → List Claim
  audit_claims decision s =
      let snapshot = decision.input_context_snapshot in
      filter (λ claim. includes snapshot.claim_ids claim.id)
        (list_claims collate
          (record {
            tenant_id = decision.tenant_id;
            namespace_id = some decision.namespace_id;
            temporal = some (audit_perspective snapshot);
            as_of = none;
          })
          s)

module _ (hash : Hashed → String) (collate : String → String → Bool) (number_text : Number → String)
    (to_number : String → Number) where
  -- The bundle of decision.ts, from what the store holds.
  unfoldable pub base_bundle : String → String → DecisionReplay → Store → DecisionAuditBundle
  unfolding evidence_of
  base_bundle generated_at id replay s =
      let decision = replay.decision in
      let claims = audit_claims collate decision s in
      let evidence = evidence_of replay.context_snapshot.evidence_ids s in
      let receipts = receipts_in replay.retrieval_receipt in
      let events = context_events decision s in
      record {
        id = id;
        decision = decision;
        context_snapshot = replay.context_snapshot;
        retrieval_receipt = replay.retrieval_receipt;
        claims = claims;
        evidence = evidence;
        policy_versions = replay.policy_versions;
        authorization_receipts = receipts;
        relations = [];
        outcomes = [];
        exceptions = [];
        approvals = [];
        events = events;
        manifest = record {
          schema_version = "decision-audit-v1";
          generated_at = generated_at;
          content_hashes =
              ("decision", hash (of_decision decision))
              ∷ ("context", hash (of_context replay.context_snapshot))
              ∷ ("retrieval", hash (of_retrieval replay.retrieval_receipt))
              ∷ ("claims", hash (of_claims claims))
              ∷ ("evidence", hash (of_evidence evidence))
              ∷ ("policyVersions", hash (of_policies replay.policy_versions))
              ∷ ("authorizationReceipts", hash (of_receipts receipts))
              ∷ ("events", hash (of_events events))
              ∷ [];
        };
      }

  unfoldable pub build_base_bundle : Principal → String → Run (Option DecisionAuditBundle)
  build_base_bundle principal decision_id = do
    replay ← replay_decision_capability number_text to_number principal decision_id
    when_found replay λ found. do
      on_world (
          assert_allowed principal audit_read (decision_resource found.decision)
            (call_context principal (some "decision-audit")))
      generated_at ← on_world now_iso
      id ← on_world new_id
      bundle ← read (base_bundle generated_at id found)
      pure (some bundle)

  -- The bundle of lifecycle.ts, from the base bundle and the same store.
  unfoldable pub with_lifecycle : DecisionAuditBundle → Store → DecisionAuditBundle
  with_lifecycle base s =
      let wanted : DecisionLifecycleFilter = record {
        tenant_id = base.decision.tenant_id;
        namespace_id = some base.decision.namespace_id;
        decision_id = some base.decision.id;
      } in
      let relations = list_decision_relations wanted s in
      let outcomes = list_outcome_observations wanted s in
      let exceptions = list_policy_exceptions wanted s in
      let approvals = list_approval_records wanted s in
      let events = with_lifecycle_events base.decision.id base.events s in
      record base {
        relations = relations;
        outcomes = outcomes;
        exceptions = exceptions;
        approvals = approvals;
        events = events;
        manifest = record base.manifest {
          content_hashes = insert "events" (hash (of_events events)) (
              insert "approvals" (hash (of_approvals approvals)) (
                insert "exceptions" (hash (of_exceptions exceptions)) (
                  insert "outcomes" (hash (of_outcomes outcomes)) (
                    insert "relations" (hash (of_relations relations))
                      base.manifest.content_hashes))));
        };
      }

  unfoldable pub build_decision_audit_bundle_capability :
      Principal → String → Run (Option DecisionAuditBundle)
  build_decision_audit_bundle_capability principal decision_id = do
    base ← build_base_bundle principal decision_id
    when_found base λ found. do bundle ← read (with_lifecycle found); pure (some bundle)
