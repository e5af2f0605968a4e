-- ===== src/Decisions/Recording.antt =====
-- `recordDecisionCapability`. The callback `captureContext` is a parameter.
pub mod Laws
use kotowari.Base.{String, List, [], ◌∷◌, map, Option, none, some, get_or, head?, Result, ok, err}
use kotowari.Base.Exec.{Exec, ◌>>=◌, ◌>>◌, pure, lift}
use kotowari.Base.Number.{Number}
use kotowari.Kernel.Errors.{Failure}
use kotowari.Kernel.World.{World}
use kotowari.Kernel.Metadata.{TemporalPerspective, internal, workspace}
use kotowari.Kernel.Provenance.{Provenance, Payload, compact_provenance, assert_no_chain_of_thought}
use kotowari.Kernel.Access.{Principal, decision_record}
use kotowari.Kernel.Authorization.{assert_allowed}
use kotowari.Kernel.Context.{ContextSnapshot, PolicyRecord, PolicyEvaluation}
use kotowari.Kernel.Decision.{Decision}
use kotowari.Kernel.Events.{DomainEvent}
use kotowari.Kernel.Contracts.{RecordDecisionInput}
use kotowari.Kernel.Invariants.Decisions.{build_decision_recorded}
use kotowari.PluginSdk.Store.{Store, list_policies, put_decision, append_event, append_outbox}
use kotowari.PluginSdk.System.{Run, on_world, read, write}
use kotowari.Policy.{
  PolicyQuery, DecisionCandidate, policy_version_ref, select_applicable_policies,
  evaluate_decision_against_policy,
}
use kotowari.Decisions.{call_context, decision_scope}

-- The request; `extra` has the keys that an object may have beyond these.
pub record DecisionRecordRequest : Type 0 where
  pub purpose : String
  pub query : Option String
  pub temporal : Option TemporalPerspective
  pub selected_outcome : String
  pub alternatives : Option (List String)
  pub confidence : Number
  pub rationale : Option String
  pub extra : Payload

pub record CaptureRequest : Type 0 where
  pub purpose : String
  pub query : Option String
  pub temporal : Option TemporalPerspective

abbrev pub capture_request : DecisionRecordRequest → CaptureRequest
capture_request request = record {
  purpose = request.purpose;
  query = request.query;
  temporal = request.temporal;
}

-- `a ?? b`
abbrev pub or_other : Option String → Option String → Option String
or_other none b = b
or_other (some a) b = some a

-- `temporal?.knownAt ?? temporal?.validAt`
abbrev pub asked_at : Option TemporalPerspective → Option String
asked_at none = none
asked_at (some temporal) = or_other temporal.known_at temporal.valid_at

abbrev pub policy_query : Principal → DecisionRecordRequest → PolicyQuery
policy_query principal request = record {
  purpose = some request.purpose;
  namespace_id = head? principal.namespace_ids;
  classification = some internal;
  at = asked_at request.temporal;
}

abbrev pub candidate : DecisionRecordRequest → DecisionCandidate
candidate request = record {
  selected_outcome = request.selected_outcome;
  confidence = request.confidence;
  classification = internal;
}

-- What the capability hands to `buildDecisionRecorded`.
abbrev pub record_input :
    Principal
    → DecisionRecordRequest
    → List PolicyRecord
    → ContextSnapshot
    → List PolicyEvaluation
    → Provenance
    → RecordDecisionInput
record_input principal request policies snapshot evaluations provenance = record {
  metadata = record {
    tenant_id = principal.tenant_id;
    namespace_id = get_or (head? principal.namespace_ids) snapshot.namespace_id;
    principal_id = some principal.id;
    classification = internal;
    visibility = workspace;
    policy_tags = request.purpose ∷ [];
  };
  input_context_snapshot = some snapshot;
  considered_evidence_ids = snapshot.evidence_ids;
  applicable_policy_ids = map (λ policy. (policy_version_ref policy).policy_id) policies;
  selected_outcome = request.selected_outcome;
  alternatives = get_or request.alternatives [];
  confidence = request.confidence;
  actor = principal.id;
  model = none;
  runtime_id = none;
  rationale = request.rationale;
  resulting_action_ids = [];
  observed_outcome = none;
  policy_evaluations = evaluations;
  provenance = some provenance;
  extra = [];
}

-- The body of the transaction.
abbrev pub store_decision : Decision → DomainEvent → Store → Store
store_decision decision event s = append_outbox event (append_event event (put_decision decision s))

module _ (number_text : Number → String) where
  -- `policies.map`
  pub evaluate_all :
      Principal → List PolicyRecord → DecisionCandidate → Exec World Failure (List PolicyEvaluation)
  evaluate_all principal [] asked = pure []
  evaluate_all principal (policy ∷ policies) asked = do
    evaluation ← evaluate_decision_against_policy number_text principal policy asked
    rest ← evaluate_all principal policies asked
    pure (evaluation ∷ rest)

  -- The evaluations, and the decision that is built on them.
  unfoldable pub evaluate_and_build :
      Principal
      → DecisionRecordRequest
      → List PolicyRecord
      → ContextSnapshot
      → Exec World Failure (Decision × DomainEvent)
  unfolding evaluate_all
  evaluate_and_build principal request policies snapshot = do
    evaluations ← evaluate_all principal policies (candidate request)
    provenance ← compact_provenance "decision" principal.id "decision.record" none
    build_decision_recorded
        (record_input principal request policies snapshot evaluations provenance)

  unfoldable pub record_decision_capability :
      (Principal → CaptureRequest → List PolicyRecord → Run ContextSnapshot)
      → Principal
      → DecisionRecordRequest
      → Run Decision
  record_decision_capability capture_context principal request = do
    lift (assert_no_chain_of_thought request.extra)
    scope ← lift (decision_scope principal)
    on_world (assert_allowed principal decision_record scope (call_context principal none))
    all_policies ← read (list_policies principal.tenant_id)
    let policies = select_applicable_policies all_policies (policy_query principal request)
    snapshot ← capture_context principal (capture_request request) policies
    (decision, event) ← on_world (evaluate_and_build principal request policies snapshot)
    write (store_decision decision event)
    pure decision
