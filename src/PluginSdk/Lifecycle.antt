-- ===== src/PluginSdk/Lifecycle.antt =====
-- packages/plugin-sdk/src/decision-lifecycle-store.ts: relations, outcomes, exceptions and approvals
-- of decisions, kept as events.
pub mod Filters
pub mod Refinement
use kotowari.Base.{
  String, List, [], ◌∷◌, ◌++◌, Option, none, some, Bool, ◌&&◌, ◌||◌, string_eq, ◌==◌, absent_or,
  filter,
}
use kotowari.Base.Exec.{◌>>=◌, ◌>>◌, pure}
use kotowari.Kernel.World.{new_id}
use kotowari.Kernel.Metadata.{ScopedMetadata}
use kotowari.Kernel.Provenance.{Provenance}
use kotowari.Kernel.Decision.{DecisionRelation, OutcomeObservation, PolicyException, ApprovalRecord}
use kotowari.Kernel.Events.{
  EventBody, DomainEvent, decision_related, decision_outcome_observed, decision_approval_recorded,
  policy_exception_recorded,
}
use kotowari.PluginSdk.Store.{Store, append_event}
use kotowari.PluginSdk.System.{Run, on_world, write}

pub record DecisionLifecycleFilter : Type 0 where
  pub tenant_id : String
  pub namespace_id : Option String
  pub decision_id : Option String

unfoldable pub matches_scope : ScopedMetadata → DecisionLifecycleFilter → Bool
matches_scope metadata wanted =
    metadata.tenant_id == wanted.tenant_id
    && absent_or wanted.namespace_id (λ n. metadata.namespace_id == n)

unfoldable pub relation_matches : DecisionRelation → DecisionLifecycleFilter → Bool
unfolding matches_scope
relation_matches relation wanted =
    matches_scope relation.metadata wanted
    && absent_or wanted.decision_id
        (λ id. (relation.from_decision_id == id) || (relation.to_decision_id == id))

-- The test of outcomes, exceptions and approvals, by their scope and their decision.
unfoldable pub decision_record_matches : ScopedMetadata → String → DecisionLifecycleFilter → Bool
unfolding matches_scope
decision_record_matches metadata decision_id wanted =
    matches_scope metadata wanted && absent_or wanted.decision_id (λ id. decision_id == id)

-- `createEventId` and `appendEvent`, for the event of a record.
abbrev pub append_record : String → Provenance → String → EventBody → Run DomainEvent
append_record tenant_id provenance occurred_at body = do
  event_id ← on_world new_id
  let event : DomainEvent = record {
    event_id = event_id;
    tenant_id = tenant_id;
    provenance = provenance;
    occurred_at = occurred_at;
    body = body;
  }
  write (append_event event)
  pure event

unfoldable pub put_decision_relation : DecisionRelation → Run DomainEvent
unfolding new_id append_event
put_decision_relation relation =
    append_record relation.tenant_id relation.provenance relation.recorded_at
      (decision_related relation.from_decision_id relation.to_decision_id relation.id relation)

unfoldable pub put_outcome_observation : OutcomeObservation → Run DomainEvent
unfolding new_id append_event
put_outcome_observation observation =
    append_record observation.tenant_id observation.provenance observation.observed_at
      (decision_outcome_observed observation.decision_id observation.id observation)

unfoldable pub put_policy_exception : PolicyException → Run DomainEvent
unfolding new_id append_event
put_policy_exception exception =
    append_record exception.tenant_id exception.provenance exception.recorded_at (
      policy_exception_recorded exception.decision_id exception.id exception.policy_version_id
        exception)

unfoldable pub put_approval_record : ApprovalRecord → Run DomainEvent
unfolding new_id append_event
put_approval_record approval =
    append_record approval.tenant_id approval.provenance approval.recorded_at
      (decision_approval_recorded approval.decision_id approval.id approval)

-- `events.filter((e) => e.kind === …).map((e) => e.…)`
pub relations_of : List DomainEvent → List DecisionRelation
relations_of [] = []
relations_of (e ∷ es) = elim e.body [
  | decision_related _ _ _ relation ↦ relation ∷ relations_of es
  | _ ↦ relations_of es
]

pub outcomes_of : List DomainEvent → List OutcomeObservation
outcomes_of [] = []
outcomes_of (e ∷ es) = elim e.body [
  | decision_outcome_observed _ _ observation ↦ observation ∷ outcomes_of es
  | _ ↦ outcomes_of es
]

pub exceptions_of : List DomainEvent → List PolicyException
exceptions_of [] = []
exceptions_of (e ∷ es) = elim e.body [
  | policy_exception_recorded _ _ _ exception ↦ exception ∷ exceptions_of es
  | _ ↦ exceptions_of es
]

pub approvals_of : List DomainEvent → List ApprovalRecord
approvals_of [] = []
approvals_of (e ∷ es) = elim e.body [
  | decision_approval_recorded _ _ approval ↦ approval ∷ approvals_of es
  | _ ↦ approvals_of es
]

unfoldable pub list_decision_relations : DecisionLifecycleFilter → Store → List DecisionRelation
unfolding relations_of
list_decision_relations wanted s = filter (λ r. relation_matches r wanted) (relations_of s.events)

unfoldable pub list_outcome_observations : DecisionLifecycleFilter → Store → List OutcomeObservation
unfolding outcomes_of
list_outcome_observations wanted s =
    filter (λ o. decision_record_matches o.metadata o.decision_id wanted) (outcomes_of s.events)

unfoldable pub list_policy_exceptions : DecisionLifecycleFilter → Store → List PolicyException
unfolding exceptions_of
list_policy_exceptions wanted s =
    filter (λ x. decision_record_matches x.metadata x.decision_id wanted) (exceptions_of s.events)

unfoldable pub list_approval_records : DecisionLifecycleFilter → Store → List ApprovalRecord
unfolding approvals_of
list_approval_records wanted s =
    filter (λ a. decision_record_matches a.metadata a.decision_id wanted) (approvals_of s.events)
