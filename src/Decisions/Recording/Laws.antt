-- ===== src/Decisions/Recording/Laws.antt =====
-- What a call of `recordDecisionCapability` leaves behind.
use kotowari.Base.{
  true, Option-cases, String, List, [], ◌∷◌, none, some, head?, Result, ok, err, ◌≡◌, ◌↔◌, ◌⊎◌, inl,
  inr, refl, arith,
}
use kotowari.Base.Number.{Number}
use kotowari.Kernel.Errors.{Failure}
use kotowari.Kernel.World.{World}
use kotowari.Kernel.Provenance.{compact_provenance, assert_no_chain_of_thought}
use kotowari.Kernel.Access.{Principal, decision_record}
use kotowari.Kernel.Authorization.{assert_allowed}
use kotowari.Kernel.Authorization.Permission.{IsPermitted}
use kotowari.Kernel.Authorization.Receipts.{assert_allowed_iff}
use kotowari.Kernel.Context.{ContextSnapshot, PolicyRecord, PolicyEvaluation}
use kotowari.Kernel.Decision.{Decision}
use kotowari.Kernel.Events.{DomainEvent, decision_recorded}
use kotowari.Kernel.Invariants.{assert_confidence, require_context_snapshot}
use kotowari.Kernel.Invariants.Checks.{
  IsFreeOfThought, IsConfidence, assert_no_chain_of_thought_iff, assert_confidence_iff,
}
use kotowari.Kernel.Invariants.Decisions.{build_decision_recorded}
use kotowari.PluginSdk.Store.{list_policies, put_decision, append_event, append_outbox}
use kotowari.PluginSdk.System.{System, Run}
use kotowari.Policy.{
  DecisionCandidate, select_applicable_policies, evaluate_decision_against_policy,
}
use kotowari.Policy.Impact.{Keeps, evaluate-Keeps}
use kotowari.Decisions.{call_context, scope_of, decision_scope}
use kotowari.Decisions.Recording.{
  DecisionRecordRequest, CaptureRequest, capture_request, policy_query, candidate, evaluate_all,
  evaluate_and_build, record_decision_capability,
}

result_cases :
    {A : Type 0} (r : Result Failure A) → ((a : A) × (r ≡ ok a)) ⊎ ((e : Failure) × (r ≡ err e))
result_cases (ok a) = inl (a, refl)
result_cases (err e) = inr (e, refl)

pair_cases :
    {A B : Type 0} (r : Result Failure (A × B))
    → ((a : A) × (b : B) × (r ≡ ok (a, b))) ⊎ ((e : Failure) × (r ≡ err e))
pair_cases (ok (a, b)) = inl (a, b, refl)
pair_cases (err e) = inr (e, refl)

abbrev pub Capture : Type 0
Capture = Principal → CaptureRequest → List PolicyRecord → Run ContextSnapshot

-- The evaluations are those of the policies, in their order.
abbrev pub Follow : DecisionCandidate → List PolicyRecord → List PolicyEvaluation → Type 0
Follow c [] [] = Unit
Follow c (policy ∷ policies) (v ∷ vs) =
    ((v.compliant ≡ true) ↔ Keeps policy.rules c) × Follow c policies vs
Follow c _ _ = ⊥

module _ (text : Number → String) (capture : Capture) (p : Principal)
    (q : DecisionRecordRequest) where
  -- The policies that the call asks, in a store.
  abbrev pub asked_policies : System → List PolicyRecord
  asked_policies s =
      select_applicable_policies (list_policies p.tenant_id s.store) (policy_query p q)

  evaluate_all-Follow :
      (policies : List PolicyRecord) (w : World) (vs : List PolicyEvaluation)
      → (evaluate_all text p policies (candidate q) w).0 ≡ ok vs
      → Follow (candidate q) policies vs
  unfolding evaluate_all
  evaluate_all-Follow [] w [] h = tt
  evaluate_all-Follow [] w (v ∷ vs) h = cc
  evaluate_all-Follow (policy ∷ policies) w vs h =
      elim (result_cases (evaluate_decision_against_policy text p policy (candidate q) w).0) [
        | inr (f, failed) ↦ absurd (ground arith)
        | inl (v, done) ↦
            elim (result_cases
              (evaluate_all text p policies (candidate q)
                (evaluate_decision_against_policy text p policy (candidate q) w).1).0) [
                  | inr (f, failed) ↦ absurd (ground arith)
                  | inl (rest, all) ↦
                      let listed : vs ≡ v ∷ rest = ground arith in
                      rw listed (
                        evaluate-Keeps text p policy (candidate q) w v done,
                        evaluate_all-Follow policies _ rest all,
                      )
                ]
      ]

  -- The state in which the context is captured, the guards passed.
  abbrev pub checked : System → String → System
  checked s n = record s {
    world = (assert_allowed p decision_record (scope_of p n) (call_context p none) s.world).1;
  }

  module _ (policies : List PolicyRecord) (snapshot : ContextSnapshot) (w : World) (d : Decision)
      (e : DomainEvent) (h : (evaluate_and_build text p q policies snapshot w).0 ≡ ok (d, e)) where
    decided :
        (d.input_context_snapshot ≡ snapshot)
        × (d.input_context_snapshot_id ≡ snapshot.id)
        × (d.tenant_id ≡ p.tenant_id)
        × (e.body ≡ decision_recorded d.id)
        × (e.tenant_id ≡ p.tenant_id)
    unfolding evaluate_and_build compact_provenance build_decision_recorded require_context_snapshot
    decided = ground arith

    evaluated : (evaluate_all text p policies (candidate q) w).0 ≡ ok d.policy_evaluations
    unfolding evaluate_and_build compact_provenance build_decision_recorded require_context_snapshot
    evaluated = ground arith

    confident : assert_confidence q.confidence ≡ ok tt
    unfolding evaluate_and_build compact_provenance build_decision_recorded require_context_snapshot
    confident = ground arith

  -- What the callback gives in that state.
  abbrev pub captured : System → String → Result Failure ContextSnapshot × System
  captured s n = capture p (capture_request q) (asked_policies s) (checked s n)

  guarded :
      (s t : System) (d : Decision)
      → record_decision_capability text capture p q s ≡ (ok d, t)
      → (n : String) × (head? p.namespace_ids ≡ some n)
        × (assert_no_chain_of_thought q.extra ≡ ok tt)
        × ((assert_allowed p decision_record (scope_of p n) (call_context p none) s.world).0
            ≡ ok tt)
  unfolding record_decision_capability decision_scope
  guarded s t d h = elim (Option-cases (head? p.namespace_ids)) [
    | inl e ↦ absurd (ground arith)
    | inr (n, e) ↦ (n, e, ground arith, ground arith)
  ]

  stored :
      (s t : System) (d : Decision) (n : String)
      → record_decision_capability text capture p q s ≡ (ok d, t)
      → head? p.namespace_ids ≡ some n
      → (snapshot : ContextSnapshot) × (e : DomainEvent) × ((captured s n).0 ≡ ok snapshot)
        × ((evaluate_and_build text p q (asked_policies s) snapshot (captured s n).1.world).0
            ≡ ok (d, e))
        × (t.store ≡ append_outbox e (append_event e (put_decision d (captured s n).1.store)))
  unfolding record_decision_capability decision_scope
  stored s t d n h e = elim (result_cases (captured s n).0) [
    | inr (f, failed) ↦ absurd (ground arith)
    | inl (snapshot, taken) ↦
        elim (pair_cases
          (evaluate_and_build text p q (asked_policies s) snapshot (captured s n).1.world).0) [
            | inr (f, failed) ↦ absurd (ground arith)
            | inl (d', event, done) ↦ (snapshot, event, taken, ground arith, ground arith)
          ]
  ]

  -- A decision that a call has recorded.
  pub record IsRecorded (s t : System) (n : String) (d : Decision) (e : DomainEvent) : Type 0 where
    pub namespace : head? p.namespace_ids ≡ some n
    pub permitted :
        IsPermitted
          (s.world.clock s.world.readings)
          p
          decision_record
          (scope_of p n)
          (call_context p none)
    pub thought : IsFreeOfThought q.extra
    pub confidence : IsConfidence q.confidence
    pub snapshot : (captured s n).0 ≡ ok d.input_context_snapshot
    pub evaluations : Follow (candidate q) (asked_policies s) d.policy_evaluations
    pub event : e.body ≡ decision_recorded d.id
    pub tenant : (d.tenant_id ≡ p.tenant_id) × (e.tenant_id ≡ p.tenant_id)
    pub store : t.store ≡ append_outbox e (append_event e (put_decision d (captured s n).1.store))

-- A call that returns a decision was permitted and carried no hidden chain of thought; its confidence
-- lies between 0 and 1; the decision holds the snapshot that the callback gave and one evaluation
-- for each applicable policy, compliant exactly if the decision keeps the rules; and beyond
-- what the callback wrote the call has stored the decision, its event and the same event in the outbox.
pub record_decision_capability-IsRecorded :
    (text : Number → String) (capture : Capture) (p : Principal) (q : DecisionRecordRequest)
    (s t : System) (d : Decision)
    → record_decision_capability text capture p q s ≡ (ok d, t)
    → (n : String) × (e : DomainEvent) × IsRecorded text capture p q s t n d e
record_decision_capability-IsRecorded text capture p q s t d h =
    let (n, first, free, allowed) = guarded text capture p q s t d h in
    let (snapshot, e, taken, done, kept) = stored text capture p q s t d n h first in
    let facts = decided text capture p q (asked_policies text capture p q s) snapshot _ d e done in
    (
      n,
      e,
      record {
        namespace = first;
        permitted = (assert_allowed_iff p decision_record _ _ s.world).0 allowed;
        thought = (assert_no_chain_of_thought_iff q.extra).0 free;
        confidence =
            (assert_confidence_iff q.confidence).0
              (confident text capture p q _ snapshot _ d e done);
        snapshot = rw facts.0 taken;
        evaluations =
            evaluate_all-Follow text capture p q _ _ _
              (evaluated text capture p q _ snapshot _ d e done);
        event = facts.3;
        tenant = (facts.2, facts.4);
        store = kept;
      },
    )

-- A call that throws has stored nothing of its own: the store is as before, or the call was permitted
-- and the store is as the callback has left it.
pub record_decision_capability-throws :
    (text : Number → String) (capture : Capture) (p : Principal) (q : DecisionRecordRequest)
    (s t : System) (f : Failure)
    → record_decision_capability text capture p q s ≡ (err f, t)
    → (t.store ≡ s.store)
      ⊎ ((n : String) × (head? p.namespace_ids ≡ some n)
          × IsPermitted
              (s.world.clock s.world.readings)
              p
              decision_record
              (scope_of p n)
              (call_context p none)
          × IsFreeOfThought q.extra
          × (t.store ≡ (captured text capture p q s n).1.store))
unfolding record_decision_capability decision_scope
record_decision_capability-throws text capture p q s t f h =
    elim (Option-cases (head? p.namespace_ids)) [
      | inl e ↦ inl (ground arith)
      | inr (n, e) ↦ elim (result_cases (assert_no_chain_of_thought q.extra)) [
        | inr (g, thought) ↦ inl (ground arith)
        | inl (_, free) ↦
            elim (result_cases
              (assert_allowed p decision_record (scope_of p n) (call_context p none) s.world).0) [
                | inr (g, refused) ↦ inl (ground arith)
                | inl (_, allowed) ↦ inr (
                  n,
                  e,
                  (assert_allowed_iff p decision_record (scope_of p n) (call_context p none)
                        s.world).0
                      allowed,
                  (assert_no_chain_of_thought_iff q.extra).0 free,
                  ground arith,
                )
              ]
      ]
    ]
