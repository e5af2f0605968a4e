-- ===== src/Policy/Impact.antt =====
-- What `whatIfPolicy` foresees for the decisions that are stored.
use kotowari.Base.{
  ℕ, ◌≤◌, String, List, [], ◌∷◌, some, Bool, true, false, not, ◌≡◌, ◌≢◌, ◌↔◌, refl, arith, Result,
  ok, err, In, head?, iff_trans, any,
}
use kotowari.Base.Exec.{continue, pure}
use kotowari.Base.Number.{Number, num_lt}
use kotowari.Base.Text.{is_blank}
use kotowari.Kernel.Errors.{Failure}
use kotowari.Kernel.World.{World}
use kotowari.Kernel.Metadata.{Classification, classification_rank}
use kotowari.Kernel.Provenance.{Provenance, compact_provenance, assert_provenance}
use kotowari.Kernel.Access.{Principal}
use kotowari.Kernel.Context.{PolicyRecord, PolicyRules, PolicyEvaluation}
use kotowari.Kernel.Decision.{Decision}
use kotowari.Kernel.Invariants.Policies.{build_policy_evaluated}
use kotowari.Kernel.Invariants.Policies.Laws.{IsCompliant, build_policy_evaluated_iff}
use kotowari.PluginSdk.Store.{list_decisions}
use kotowari.PluginSdk.System.{System}
use kotowari.Policy.{
  DecisionCandidate, candidate_of, PolicyImpact, evaluation_input, evaluate_decision_against_policy,
  foresee, what_if_policy,
}

-- A candidate keeps a policy's rules.
pub record Keeps (rules : PolicyRules) (c : DecisionCandidate) : Type 0 where
  pub confident :
      (least : Number) → rules.min_confidence ≡ some least → num_lt c.confidence least ≡ false
  pub outcome :
      (outcomes : List String)
      → rules.allowed_outcomes ≡ some outcomes
      → In c.selected_outcome outcomes
  pub classified :
      (most : Classification)
      → rules.max_classification ≡ some most
      → classification_rank c.classification ≤ classification_rank most

Keeps-iff :
    (p : Principal) (policy : PolicyRecord) (c : DecisionCandidate) (o : Provenance)
    → IsCompliant (evaluation_input p policy c o) ↔ Keeps policy.rules c
Keeps-iff p policy c o = (
  λ h. record {
    confident = λ least e. h.confident least e;
    outcome = λ outcomes e. h.outcome outcomes c.selected_outcome e refl;
    classified = λ most e. h.classified most c.classification e refl;
  },
  λ h. record {
    confident = λ least e. h.confident least e;
    outcome = λ outcomes x e f.
        let same : c.selected_outcome ≡ x = cc in rw (← same) (h.outcome outcomes e);
    classified =
        λ most x e f. let same : c.classification ≡ x = cc in rw (← same) (h.classified most e);
  },
)

-- The impacts are those of the decisions, in their order.
abbrev pub Foretells : PolicyRules → List Decision → List PolicyImpact → Type 0
Foretells rules [] [] = Unit
Foretells rules (d ∷ ds) (i ∷ is) =
    ((i.decision_id ≡ d.id) × ((i.would_fail ≡ false) ↔ Keeps rules (candidate_of d)))
    × Foretells rules ds is
Foretells rules _ _ = ⊥

ok_of_no_err :
    {A : Type 0} (r : Result Failure A) → ((e : Failure) → r ≢ err e) → (a : A) × (r ≡ ok a)
ok_of_no_err (ok a) h = (a, refl)
ok_of_no_err (err e) h = absurd (h e refl)

not_iff : (b : Bool) → (not b ≡ false) ↔ (b ≡ true)
not_iff b = ground arith

second_of_ok :
    {A B S : Type 0} (r : Result Failure (A × B)) (s : S) (a : A)
    → (continue {B = A} r (λ (v, e). pure v) s).0 ≡ ok a
    → (b : B) × (r ≡ ok (a, b))
second_of_ok (ok (v, b)) s a h = (b, ground arith)
second_of_ok (err e) s a h = cc

source_named : is_blank "policy" ≡ false
unfolding is_blank
source_named = refl

process_named : is_blank "policy.evaluate" ≡ false
unfolding is_blank
process_named = refl

abbrev pub HasClock : World → Type 0
HasClock w = (n : ℕ) → is_blank (w.clock n) ≡ false

module _ (text : Number → String) (p : Principal) (policy : PolicyRecord) where
  evaluate_total :
      (c : DecisionCandidate) (w : World)
      → is_blank p.id ≡ false
      → HasClock w
      → (v : PolicyEvaluation) × ((evaluate_decision_against_policy text p policy c w).0 ≡ ok v)
  unfolding evaluate_decision_against_policy compact_provenance build_policy_evaluated
      assert_provenance any
  evaluate_total c w named clock =
      ok_of_no_err _ (λ e h. ground (arith, clock w.readings, source_named, process_named))

  pub evaluate-Keeps :
      (c : DecisionCandidate) (w : World) (v : PolicyEvaluation)
      → (evaluate_decision_against_policy text p policy c w).0 ≡ ok v
      → (v.compliant ≡ true) ↔ Keeps policy.rules c
  unfolding evaluate_decision_against_policy compact_provenance
  evaluate-Keeps c w v h =
      let (e, built) = second_of_ok _ _ v h in
      iff_trans (build_policy_evaluated_iff text _ _ v e built).0 (Keeps-iff p policy c _)

  evaluate_clock :
      (c : DecisionCandidate) (w : World)
      → (evaluate_decision_against_policy text p policy c w).1.clock ≡ w.clock
  unfolding evaluate_decision_against_policy compact_provenance build_policy_evaluated
  evaluate_clock c w = ground arith

  foresee-Foretells :
      (ds : List Decision) (w : World)
      → is_blank p.id ≡ false
      → HasClock w
      → (is : List PolicyImpact) × ((foresee text p policy ds w).0 ≡ ok is)
        × Foretells policy.rules ds is
  unfolding foresee
  foresee-Foretells [] w named clock = ([], refl, tt)
  foresee-Foretells (d ∷ ds) w named clock =
      let (v, done) = evaluate_total (candidate_of d) w named clock in
      let same = evaluate_clock (candidate_of d) w in
      let (is, rest, told) =
        foresee-Foretells ds ((evaluate_decision_against_policy text p policy (candidate_of d) w).1)
          named (λ n. rw same (clock n)) in
      (
        record { decision_id = d.id; would_fail = not v.compliant; violations = v.violations } ∷ is,
        ground arith,
        ((refl, iff_trans (not_iff v.compliant) (evaluate-Keeps (candidate_of d) w v done)), told),
      )

-- For a principal whose identifier is not blank and a clock that answers, `whatIfPolicy` returns: one
-- impact for each stored decision of the principal's tenant and first namespace, in their order, which
-- would not fail exactly if the decision keeps the rules of the policy. Nothing is stored.
pub what_if_policy-Foretells :
    (text : Number → String) (p : Principal) (policy : PolicyRecord) (s : System)
    → is_blank p.id ≡ false
    → HasClock s.world
    → (is : List PolicyImpact) × ((what_if_policy text p policy s).0 ≡ ok is)
      × Foretells policy.rules (list_decisions p.tenant_id (head? p.namespace_ids) s.store) is
      × ((what_if_policy text p policy s).1.store ≡ s.store)
unfolding what_if_policy
what_if_policy-Foretells text p policy s named clock =
    let (is, done, told) =
      foresee-Foretells text p policy (list_decisions p.tenant_id (head? p.namespace_ids) s.store)
        s.world named clock in
    (is, done, told, refl)
