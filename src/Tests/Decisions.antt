-- ===== src/Tests/Decisions.antt =====
-- The properties of the decision capabilities at concrete calls.
use mathlib.Core.Bool.{decide}
use kotowari.Base.{
  String, [], ◌∷◌, none, some, true, false, ◌≡◌, ◌⊎◌, refl, ok, err, head?, In, lookup, includes,
  filter, values, any, find,
}
use kotowari.Base.Exec.{for_each}
use kotowari.Base.Number.{Number, integer, num_lt}
use kotowari.Base.Text.{is_blank, text_lt}
use kotowari.Kernel.Errors.{Failure, kernel_error, chain_of_thought_rejected}
use kotowari.Kernel.World.{now_iso}
use kotowari.Kernel.Metadata.{Visibility-discrete}
use kotowari.Kernel.Ids.{as_decision_id, as_policy_version_id}
use kotowari.Kernel.Provenance.{
  Provenance, compact_provenance, assert_provenance, assert_no_chain_of_thought,
}
use kotowari.Kernel.Access.{
  Action-discrete, decision_record, decision_relate, decision_read, decision_observe,
  decision_approve, policy_exception,
}
use kotowari.Kernel.Authorization.{
  allow, allow_now, assert_allowed, deny_if_cross_tenant, deny_if_classification_insufficient,
  deny_if_not_admin, deny_if_agent_delegation_invalid, deny_if_private_visibility,
  deny_if_outside_namespace, deny_if_viewer_cannot_write,
}
use kotowari.Kernel.Authorization.Permission.{IsPermitted}
use kotowari.Kernel.Context.{PolicyRecord}
use kotowari.Kernel.Decision.{
  Decision, DecisionRelation, supersedes, OutcomeObservation, PolicyException, ApprovalRecord,
  ApprovalStatus,
}
use kotowari.Kernel.Events.{
  DomainEvent, decision_related, decision_outcome_observed, policy_exception_recorded,
  decision_approval_recorded,
}
use kotowari.Kernel.Invariants.{assert_confidence, require_context_snapshot}
use kotowari.Kernel.Invariants.Checks.{IsFreeOfThought}
use kotowari.Kernel.Invariants.Policies.{
  build_policy_evaluated, violations, confidence_violations, outcome_violations,
  classification_violations,
}
use kotowari.Kernel.Invariants.Decisions.{build_decision_recorded}
use kotowari.PluginSdk.Store.{get_decision, list_policies}
use kotowari.PluginSdk.System.{System}
use kotowari.PluginSdk.Lifecycle.{
  put_decision_relation, put_outcome_observation, put_policy_exception, put_approval_record,
}
use kotowari.Policy.{
  policy_version_ref, select_applicable_policies, is_policy_applicable,
  evaluate_decision_against_policy,
}
use kotowari.Decisions.{call_context, scope_of, decision_scope}
use kotowari.Decisions.Recording.{
  DecisionRecordRequest, evaluate_and_build, record_decision_capability,
}
use kotowari.Decisions.Recording.Laws.{
  Capture, IsRecorded, captured, record_decision_capability-IsRecorded,
  record_decision_capability-throws,
}
use kotowari.Decisions.Lifecycle.{
  decision_for_lifecycle, persist_lifecycle_event, create_decision_relation, create_approval_record,
  create_outcome_observation, create_policy_exception, policy_resource, relate_decision_capability,
  record_decision_approval_capability, record_policy_exception_capability,
  observe_decision_outcome_capability,
}
use kotowari.Decisions.Lifecycle.Lookup.{Appends, MayDo}
use kotowari.Decisions.Lifecycle.Laws.{
  relate_decision_capability-Appends, record_decision_approval_capability-Appends,
  record_policy_exception_capability-Appends,
}
use kotowari.Decisions.Lifecycle.Observations.{
  Readable, observe_decision_outcome_capability-Appends,
}
use kotowari.Decisions.Lifecycle.Unchanged.{Call, approve, seen, seen-unchanged}
use kotowari.Tests.Data.{day_2, metadata, ada, snapshot, decision_of, system}

abbrev made : String → Provenance
made process = record {
  source = "decision";
  source_version = none;
  actor = "ada";
  process = process;
  model = none;
  prompt_version = none;
  extractor_version = none;
  timestamp = day_2;
  parent_ids = [];
}

abbrev approval : ApprovalRecord
approval = record {
  metadata = metadata;
  id = "fresh";
  decision_id = "d1";
  approver = "ada";
  status = ApprovalStatus.approved;
  method = none;
  context = none;
  recorded_at = day_2;
  provenance = made "decision.approve";
}

abbrev after_approval : System
after_approval =
    (record_decision_approval_capability ada "d1" ApprovalStatus.approved none none system).1

approval_given :
    record_decision_approval_capability ada "d1" ApprovalStatus.approved none none system
    ≡ (ok (some approval), after_approval)
unfolding record_decision_approval_capability decision_for_lifecycle as_decision_id is_blank
    get_decision lookup assert_allowed allow_now now_iso allow deny_if_cross_tenant
    deny_if_classification_insufficient deny_if_not_admin deny_if_agent_delegation_invalid
    deny_if_private_visibility deny_if_outside_namespace deny_if_viewer_cannot_write includes
    Visibility-discrete Action-discrete decide persist_lifecycle_event put_approval_record
    create_approval_record compact_provenance
approval_given = refl

record_decision_approval_capability-Appends_example :
    (d : Decision) × ((get_decision "d1" system.store ≡ some d)
      × (approval.decision_id ≡ d.id)
      × (approval.approver ≡ ada.id))
    × MayDo day_2 ada decision_approve "decision-approve" d
    × Appends system.store after_approval.store
        (decision_approval_recorded d.id approval.id approval)
record_decision_approval_capability-Appends_example =
    record_decision_approval_capability-Appends ada "d1" ApprovalStatus.approved none none system
      after_approval approval approval_given

abbrev relation : DecisionRelation
relation = record {
  metadata = metadata;
  id = "fresh";
  from_decision_id = "d1";
  to_decision_id = "d2";
  kind = supersedes;
  recorded_at = day_2;
  provenance = made "decision.relate";
}

abbrev after_relation : System
after_relation = (relate_decision_capability ada "d1" "d2" supersedes system).1

related :
    relate_decision_capability ada "d1" "d2" supersedes system
    ≡ (ok (some relation), after_relation)
unfolding relate_decision_capability decision_for_lifecycle as_decision_id is_blank get_decision
    lookup assert_allowed allow_now now_iso allow deny_if_cross_tenant
    deny_if_classification_insufficient deny_if_not_admin deny_if_agent_delegation_invalid
    deny_if_private_visibility deny_if_outside_namespace deny_if_viewer_cannot_write includes
    Visibility-discrete Action-discrete decide persist_lifecycle_event put_decision_relation
    create_decision_relation compact_provenance
related = refl

relate_decision_capability-Appends_example :
    (c : Decision) × (d : Decision) × ((get_decision "d1" system.store ≡ some c)
      × (get_decision "d2" system.store ≡ some d)
      × (relation.from_decision_id ≡ c.id)
      × (relation.to_decision_id ≡ d.id)
      × (relation.kind ≡ supersedes))
    × MayDo day_2 ada decision_relate "decision-relate" c
    × MayDo day_2 ada decision_read "decision-relate" d
    × Appends system.store after_relation.store (decision_related c.id d.id relation.id relation)
relate_decision_capability-Appends_example =
    relate_decision_capability-Appends ada "d1" "d2" supersedes system after_relation relation
      related

abbrev exception : PolicyException
exception = record {
  metadata = metadata;
  id = "fresh";
  decision_id = "d1";
  policy_version_id = "v1";
  reason = "urgent";
  approved_by = none;
  recorded_at = day_2;
  provenance = made "policy.exception";
}

abbrev after_exception : System
after_exception = (record_policy_exception_capability ada "d1" "v1" "urgent" system).1

excepted :
    record_policy_exception_capability ada "d1" "v1" "urgent" system
    ≡ (ok (some exception), after_exception)
unfolding record_policy_exception_capability decision_for_lifecycle as_decision_id is_blank
    as_policy_version_id policy_version_ref list_policies values filter find get_decision lookup
    assert_allowed allow_now now_iso allow deny_if_cross_tenant deny_if_classification_insufficient
    deny_if_not_admin deny_if_agent_delegation_invalid deny_if_private_visibility
    deny_if_outside_namespace deny_if_viewer_cannot_write includes Visibility-discrete
    Action-discrete decide persist_lifecycle_event put_policy_exception create_policy_exception
    compact_provenance
excepted = refl

record_policy_exception_capability-Appends_example :
    (d : Decision) × (p : PolicyRecord) × ((get_decision "d1" system.store ≡ some d)
      × (exception.decision_id ≡ d.id)
      × (exception.reason ≡ "urgent"))
    × (In p (list_policies "acme" system.store)
        × ((policy_version_ref p).policy_version_id ≡ "v1")
        × (exception.policy_version_id ≡ "v1"))
    × MayDo day_2 ada policy_exception "policy-exception" d
    × IsPermitted day_2 ada policy_exception
        (policy_resource p)
        (call_context ada (some "policy-exception"))
    × Appends system.store after_exception.store
        (policy_exception_recorded d.id exception.id "v1" exception)
record_policy_exception_capability-Appends_example =
    record_policy_exception_capability-Appends ada "d1" "v1" "urgent" system after_exception
      exception excepted

abbrev observation : OutcomeObservation
observation = record {
  metadata = metadata;
  id = "fresh";
  decision_id = "d1";
  observed_at = day_2;
  outcome = "done";
  metrics = [];
  evidence_ids = [];
  provenance = made "decision.observe";
}

abbrev after_observation : System
after_observation = (observe_decision_outcome_capability ada "d1" "done" none none system).1

observed :
    observe_decision_outcome_capability ada "d1" "done" none none system
    ≡ (ok (some observation), after_observation)
unfolding observe_decision_outcome_capability decision_for_lifecycle as_decision_id is_blank
    get_decision lookup assert_allowed allow_now now_iso allow deny_if_cross_tenant
    deny_if_classification_insufficient deny_if_not_admin deny_if_agent_delegation_invalid
    deny_if_private_visibility deny_if_outside_namespace deny_if_viewer_cannot_write includes
    Visibility-discrete Action-discrete decide persist_lifecycle_event put_outcome_observation
    create_outcome_observation compact_provenance for_each
observed = refl

observe_decision_outcome_capability-Appends_example :
    (d : Decision) × ((get_decision "d1" system.store ≡ some d)
      × (observation.decision_id ≡ d.id)
      × (observation.outcome ≡ "done")
      × (observation.evidence_ids ≡ []))
    × MayDo day_2 ada decision_observe "decision-observe" d
    × Readable ada system.store (λ n. day_2) 1 observation.evidence_ids
    × Appends system.store after_observation.store
        (decision_outcome_observed d.id observation.id observation)
observe_decision_outcome_capability-Appends_example =
    observe_decision_outcome_capability-Appends ada "d1" "done" none none system after_observation
      observation observed

abbrev unknown : Call
unknown = approve "d9" ApprovalStatus.approved none none

nothing_returned : (seen ada unknown system).0 ≡ false
unfolding record_decision_approval_capability decision_for_lifecycle as_decision_id is_blank
    get_decision lookup
nothing_returned = refl

seen-unchanged_example : (seen ada unknown system).1 ≡ system.store
seen-unchanged_example = seen-unchanged ada unknown system nothing_returned

abbrev number_text : Number → String
number_text n = "number"

-- The callback returns the snapshot and writes nothing.
abbrev capture : Capture
capture p q policies s = (ok snapshot, s)

abbrev request : DecisionRecordRequest
request = record {
  purpose = "approval";
  query = none;
  temporal = none;
  selected_outcome = "approve";
  alternatives = none;
  confidence = integer 1;
  rationale = none;
  extra = [];
}

abbrev recorded : Decision
recorded = record (decision_of "fresh") {
  metadata = record metadata { policy_tags = "approval" ∷ [] };
  policy_evaluations =
      record {
        metadata = metadata;
        policy_id = "p1";
        policy_version = integer 1;
        compliant = true;
        violations = [];
        provenance = record (made "policy.evaluate") { source = "policy" };
      }
      ∷ [];
  recorded_at = day_2;
  provenance = made "decision.record";
}

abbrev after_recording : System
after_recording = (record_decision_capability number_text capture ada request system).1

recording :
    record_decision_capability number_text capture ada request system
    ≡ (ok recorded, after_recording)
unfolding record_decision_capability evaluate_and_build decision_scope is_blank
    assert_no_chain_of_thought select_applicable_policies is_policy_applicable list_policies values
    filter evaluate_decision_against_policy build_policy_evaluated violations confidence_violations
    outcome_violations classification_violations num_lt assert_provenance any policy_version_ref
    build_decision_recorded require_context_snapshot assert_confidence text_lt lookup assert_allowed
    allow_now now_iso allow deny_if_cross_tenant deny_if_classification_insufficient
    deny_if_not_admin deny_if_agent_delegation_invalid deny_if_private_visibility
    deny_if_outside_namespace deny_if_viewer_cannot_write includes Visibility-discrete
    Action-discrete decide compact_provenance
recording = refl

record_decision_capability-IsRecorded_example :
    (n : String) × (e : DomainEvent) × IsRecorded number_text capture ada request system
      after_recording n recorded e
record_decision_capability-IsRecorded_example =
    record_decision_capability-IsRecorded number_text capture ada request system after_recording
      recorded recording

abbrev thinking : DecisionRecordRequest
thinking = record request { extra = ("hiddenCoT", some "because") ∷ [] }

abbrev refusal : Failure
refusal =
    kernel_error chain_of_thought_rejected
      "ADR-0008 rejects hidden chain-of-thought field hiddenCoT"

refused : record_decision_capability number_text capture ada thinking system ≡ (err refusal, system)
unfolding record_decision_capability assert_no_chain_of_thought lookup
refused = refl

record_decision_capability-throws_example :
    (system.store ≡ system.store)
    ⊎ ((n : String) × (head? ada.namespace_ids ≡ some n)
        × IsPermitted day_2 ada decision_record (scope_of ada n) (call_context ada none)
        × IsFreeOfThought thinking.extra
        × (system.store ≡ (captured number_text capture ada thinking system n).1.store))
record_decision_capability-throws_example =
    record_decision_capability-throws number_text capture ada thinking system system refusal refused
