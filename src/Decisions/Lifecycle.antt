-- ===== src/Decisions/Lifecycle.antt =====
-- packages/capability-decision/src/lifecycle.ts, and the records that decision.ts creates for it.
pub mod Lookup
pub mod Laws
pub mod Observations
pub mod Unchanged
use Prim.Native.String
use kotowari.Base.{
  String, List, [], ◌∷◌, Option, none, some, Bool, string_eq, ◌==◌, get_or, find, Dict, Result, ok,
  err,
}
use kotowari.Base.Exec.{Exec, ◌>>=◌, ◌>>◌, pure, raise, lift, for_each}
use kotowari.Base.Throw
use kotowari.Kernel.Errors.{Failure, plain_error}
use kotowari.Kernel.World.{World, new_id, now_iso}
use kotowari.Kernel.Ids.{as_decision_id, as_evidence_id, as_policy_version_id}
use kotowari.Kernel.Provenance.{Provenance, compact_provenance}
use kotowari.Kernel.Access.{
  Action, knowledge_read, decision_read, decision_relate, decision_observe, decision_approve,
  policy_exception, ResourceKind, Resource, Principal,
}
use kotowari.Kernel.Authorization.{assert_allowed}
use kotowari.Kernel.Entity.{Evidence}
use kotowari.Kernel.Context.{PolicyRecord}
use kotowari.Kernel.Decision.{
  Decision, DecisionRelation, DecisionRelationKind, OutcomeMetricValue, OutcomeObservation,
  PolicyException, ApprovalRecord, ApprovalStatus,
}
use kotowari.Kernel.Events.{DomainEvent}
use kotowari.PluginSdk.Store.{append_outbox, get_decision, get_evidence, list_policies}
use kotowari.PluginSdk.System.{Run, on_world, read, write}
use kotowari.PluginSdk.Lifecycle.{
  put_decision_relation, put_outcome_observation, put_policy_exception, put_approval_record,
}
use kotowari.Policy.{policy_version_ref}
use kotowari.Decisions.{call_context, decision_resource}

-- `if (x === undefined) return undefined;`
abbrev pub when_found : {A B : Type 0} → Option A → (A → Run (Option B)) → Run (Option B)
when_found none f = pure none
when_found (some a) f = f a

unfoldable pub decision_for_lifecycle : Principal → String → Action → String → Run (Option Decision)
decision_for_lifecycle principal decision_id action purpose = do
  id ← lift (as_decision_id decision_id)
  found ← read (get_decision id)
  when_found found λ decision. do
    on_world (
        assert_allowed principal action (decision_resource decision)
          (call_context principal (some purpose)))
    pure (some decision)

-- The event and its outbox entry, in one transaction.
unfoldable pub persist_lifecycle_event : Run DomainEvent → Run (Unit {0})
persist_lifecycle_event put = do event ← put; write (append_outbox event)

unfoldable pub create_decision_relation :
    Decision → Decision → DecisionRelationKind → Provenance → Exec World Failure DecisionRelation
unfolding new_id now_iso
create_decision_relation from to kind provenance = do
  id ← new_id
  recorded_at ← now_iso
  pure (record {
    metadata = from.metadata;
    id = id;
    from_decision_id = from.id;
    to_decision_id = to.id;
    kind = kind;
    recorded_at = recorded_at;
    provenance = provenance;
  })

-- `observedAt ?? nowIso()`
abbrev pub time_or_now : Option String → Exec World Failure String
time_or_now none = now_iso
time_or_now (some at) = pure at

unfoldable pub create_outcome_observation :
    Decision
    → String
    → Option String
    → Option (Dict String OutcomeMetricValue)
    → Option (List String)
    → Provenance
    → Exec World Failure OutcomeObservation
unfolding new_id now_iso
create_outcome_observation decision outcome observed metrics evidence_ids provenance = do
  id ← new_id
  observed_at ← time_or_now observed
  pure (record {
    metadata = decision.metadata;
    id = id;
    decision_id = decision.id;
    observed_at = observed_at;
    outcome = outcome;
    metrics = get_or metrics [];
    evidence_ids = get_or evidence_ids [];
    provenance = provenance;
  })

unfoldable pub create_policy_exception :
    Decision → String → String → Option String → Provenance → Exec World Failure PolicyException
unfolding new_id now_iso
create_policy_exception decision policy_version_id reason approved_by provenance = do
  id ← new_id
  recorded_at ← now_iso
  pure (record {
    metadata = decision.metadata;
    id = id;
    decision_id = decision.id;
    policy_version_id = policy_version_id;
    reason = reason;
    approved_by = approved_by;
    recorded_at = recorded_at;
    provenance = provenance;
  })

unfoldable pub create_approval_record :
    Decision
    → String
    → ApprovalStatus
    → Option String
    → Option String
    → Provenance
    → Exec World Failure ApprovalRecord
unfolding new_id now_iso
create_approval_record decision approver status method context provenance = do
  id ← new_id
  recorded_at ← now_iso
  pure (record {
    metadata = decision.metadata;
    id = id;
    decision_id = decision.id;
    approver = approver;
    status = status;
    method = method;
    context = context;
    recorded_at = recorded_at;
    provenance = provenance;
  })

unfoldable pub relate_decision_capability :
    Principal → String → String → DecisionRelationKind → Run (Option DecisionRelation)
relate_decision_capability principal from_decision_id to_decision_id kind = do
  source ← decision_for_lifecycle principal from_decision_id decision_relate "decision-relate"
  when_found source λ from. do
    to_id ← lift (as_decision_id to_decision_id)
    target ← read (get_decision to_id)
    when_found target λ to. do
      on_world (
          assert_allowed principal decision_read (decision_resource to)
            (call_context principal (some "decision-relate")))
      provenance ← on_world (compact_provenance "decision" principal.id "decision.relate" none)
      relation ← on_world (create_decision_relation from to kind provenance)
      persist_lifecycle_event (put_decision_relation relation)
      pure (some relation)

abbrev pub evidence_resource : Evidence → Resource
evidence_resource evidence = record {
  kind = ResourceKind.evidence;
  id = evidence.id;
  metadata = evidence.metadata;
}

-- `evidenceIds.map(asEvidenceId)`
pub as_evidence_ids : List String → Result Failure (List String)
as_evidence_ids [] = ok []
as_evidence_ids (x ∷ xs) =
    Throw.◌>>=◌ (as_evidence_id x) (λ id. Throw.◌>>=◌ (as_evidence_ids xs) (λ ids. ok (id ∷ ids)))

abbrev pub require_evidence : String → Option Evidence → Result Failure Evidence
require_evidence id none = err (plain_error (String.◌++◌ "Evidence not found: " id))
require_evidence id (some evidence) = ok evidence

-- The body of the loop over the evidence.
unfoldable pub check_evidence : Principal → String → Run (Unit {0})
check_evidence principal id = do
  found ← read (get_evidence id)
  evidence ← lift (require_evidence id found)
  on_world (
      assert_allowed principal knowledge_read (evidence_resource evidence)
        (call_context principal (some "decision-observe")))

unfoldable pub observe_decision_outcome_capability :
    Principal
    → String
    → String
    → Option (Dict String OutcomeMetricValue)
    → Option (List String)
    → Run (Option OutcomeObservation)
unfolding as_evidence_ids
observe_decision_outcome_capability principal decision_id outcome metrics evidence = do
  found ← decision_for_lifecycle principal decision_id decision_observe "decision-observe"
  when_found found λ decision. do
    evidence_ids ← lift (as_evidence_ids (get_or evidence []))
    for_each evidence_ids (check_evidence principal)
    provenance ← on_world (compact_provenance "decision" principal.id "decision.observe" none)
    observation ←
        on_world
          (create_outcome_observation decision outcome none metrics (some evidence_ids) provenance)
    persist_lifecycle_event (put_outcome_observation observation)
    pure (some observation)

abbrev pub policy_resource : PolicyRecord → Resource
policy_resource policy = record {
  kind = ResourceKind.policy;
  id = policy.id;
  metadata = policy.metadata;
}

abbrev pub require_policy : String → Option PolicyRecord → Result Failure PolicyRecord
require_policy id none = err (plain_error (String.◌++◌ "Policy version not found: " id))
require_policy id (some policy) = ok policy

abbrev pub is_version : String → PolicyRecord → Bool
is_version id policy = (policy_version_ref policy).policy_version_id == id

unfoldable pub record_policy_exception_capability :
    Principal → String → String → String → Run (Option PolicyException)
record_policy_exception_capability principal decision_id version_id reason = do
  found ← decision_for_lifecycle principal decision_id policy_exception "policy-exception"
  when_found found λ decision. do
    policy_version_id ← lift (as_policy_version_id version_id)
    policies ← read (list_policies principal.tenant_id)
    policy ← lift (require_policy policy_version_id (find (is_version policy_version_id) policies))
    on_world (
        assert_allowed principal policy_exception (policy_resource policy)
          (call_context principal (some "policy-exception")))
    provenance ← on_world (compact_provenance "decision" principal.id "policy.exception" none)
    exception ← on_world (create_policy_exception decision policy_version_id reason none provenance)
    persist_lifecycle_event (put_policy_exception exception)
    pure (some exception)

unfoldable pub record_decision_approval_capability :
    Principal
    → String
    → ApprovalStatus
    → Option String
    → Option String
    → Run (Option ApprovalRecord)
record_decision_approval_capability principal decision_id status method context = do
  found ← decision_for_lifecycle principal decision_id decision_approve "decision-approve"
  when_found found λ decision. do
    provenance ← on_world (compact_provenance "decision" principal.id "decision.approve" none)
    approval ←
        on_world (create_approval_record decision principal.id status method context provenance)
    persist_lifecycle_event (put_approval_record approval)
    pure (some approval)
