-- ===== src/Decisions/Lifecycle/Unchanged.antt =====
-- A lifecycle call that returns no record stores nothing.
use kotowari.Base.{
  false, string_eq, String, List, [], ◌∷◌, Option, none, some, Bool, true, Result, ok, err, ◌≡◌,
  inl, inr, refl, arith, Option-cases,
}
use kotowari.Kernel.Errors.{Failure}
use kotowari.Kernel.Provenance.{compact_provenance}
use kotowari.Kernel.Access.{
  decision_relate, decision_observe, decision_approve, policy_exception, Principal,
}
use kotowari.Kernel.Decision.{DecisionRelationKind, ApprovalStatus}
use kotowari.PluginSdk.Store.{Store}
use kotowari.PluginSdk.System.{System}
use kotowari.PluginSdk.Lifecycle.{put_decision_relation, put_approval_record, put_policy_exception}
use kotowari.PluginSdk.Store.{get_evidence}
use kotowari.Base.Exec.{for_each}
use kotowari.Kernel.Decision.{OutcomeMetricValue}
use kotowari.PluginSdk.Lifecycle.{put_outcome_observation}
use kotowari.Base.{Dict, get_or}
use kotowari.Decisions.Lifecycle.{
  decision_for_lifecycle, persist_lifecycle_event, create_decision_relation, create_approval_record,
  relate_decision_capability, record_decision_approval_capability,
  record_policy_exception_capability, create_policy_exception, observe_decision_outcome_capability,
  create_outcome_observation, check_evidence, as_evidence_ids,
}
use kotowari.Decisions.Lifecycle.Lookup.{result_cases, found-store}

-- A call of one of the four capabilities.
pub data Call : Type 0 where
  relate : (from to : String) (kind : DecisionRelationKind) → Call
  observe :
      (id outcome : String) (metrics : Option (Dict String OutcomeMetricValue))
      (evidence : Option (List String))
      → Call
  except : (id version reason : String) → Call
  approve : (id : String) (status : ApprovalStatus) (method about : Option String) → Call

-- Whether a call has returned a record, and the store that it has left.
abbrev pub seen_of : {A : Type 0} → Result Failure (Option A) × System → Bool × Store
seen_of (ok (some x), t) = (true, t.store)
seen_of (ok none, t) = (false, t.store)
seen_of (err e, t) = (false, t.store)

abbrev pub seen : Principal → Call → System → Bool × Store
seen p (relate from to kind) s = seen_of (relate_decision_capability p from to kind s)
seen p (observe id outcome metrics evidence) s =
    seen_of (observe_decision_outcome_capability p id outcome metrics evidence s)
seen p (except id version reason) s =
    seen_of (record_policy_exception_capability p id version reason s)
seen p (approve id status method about) s =
    seen_of (record_decision_approval_capability p id status method about s)

check_evidence-store :
    (p : Principal) (id : String) (s : System) → (check_evidence p id s).1.store ≡ s.store
unfolding check_evidence
check_evidence-store p id s = elim (Option-cases (get_evidence id s.store)) [
  | inl e ↦ ground arith
  | inr (v, e) ↦ ground arith
]

all_checked-store :
    (p : Principal) (ids : List String) (s : System)
    → (for_each ids (check_evidence p) s).1.store ≡ s.store
unfolding for_each
all_checked-store p [] s = refl
all_checked-store p (id ∷ ids) s = elim (result_cases (check_evidence p id s).0) [
  | inr (f, e) ↦ ground (arith, check_evidence-store p id s)
  | inl (_, e) ↦
      ground (arith, check_evidence-store p id s, all_checked-store p ids (check_evidence p id s).1)
]

-- A lifecycle call that returns no record, because it found no decision or threw, has stored nothing.
pub seen-unchanged :
    (p : Principal) (c : Call) (s : System) → (seen p c s).0 ≡ false → (seen p c s).1 ≡ s.store
unfolding relate_decision_capability observe_decision_outcome_capability
    record_policy_exception_capability record_decision_approval_capability persist_lifecycle_event
    put_outcome_observation put_policy_exception put_approval_record put_decision_relation
    create_decision_relation create_outcome_observation create_policy_exception
    create_approval_record compact_provenance
seen-unchanged p (approve id status method about) s h =
    ground (arith, found-store p id decision_approve "decision-approve" s)
seen-unchanged p (except id version reason) s h =
    ground (arith, found-store p id policy_exception "policy-exception" s)
seen-unchanged p (relate from to kind) s h =
    ground (arith, found-store p from decision_relate "decision-relate" s)
seen-unchanged p (observe id outcome metrics evidence) s h =
    elim (result_cases (as_evidence_ids (get_or evidence []))) [
      | inl (ids, e) ↦ ground (
        arith,
        found-store p id decision_observe "decision-observe" s,
        all_checked-store p ids
            (decision_for_lifecycle p id decision_observe "decision-observe" s).1,
      )
      | inr (f, e) ↦ ground (arith, found-store p id decision_observe "decision-observe" s)
    ]
