-- ===== src/Kernel/Invariants/Policies/Laws.antt =====
-- When a decision complies with a policy.
use kotowari.Base.{
  ℕ, ◌≤◌, String, List, [], ◌∷◌, ◌++◌, Option, none, some, Bool, true, false, ◌≡◌, ◌↔◌, refl, arith,
  ok, get_or, nat_eq, length, ltb, string_eq, In, includes_iff, if◌then◌else◌,
}
use kotowari.Base.Number.{Number, num_lt, integer}
use kotowari.Kernel.World.{World}
use kotowari.Kernel.Metadata.{Classification, classification_rank}
use kotowari.Kernel.Context.{PolicyEvaluation}
use kotowari.Kernel.Events.{DomainEvent, policy_evaluated}
use kotowari.Kernel.Contracts.{EvaluatePolicyInput}
use kotowari.Kernel.Invariants.Policies.{
  confidence_violations, outcome_violations, classification_violations, violations,
  build_policy_evaluated,
}

-- What a policy's rules ask of a decision; a rule that is not there asks nothing.
pub record IsCompliant (i : EvaluatePolicyInput) : Type 0 where
  pub confident :
      (least : Number)
      → i.rules.min_confidence ≡ some least
      → num_lt (get_or i.confidence (integer 1)) least ≡ false
  pub outcome :
      (outcomes : List String) (outcome : String)
      → i.rules.allowed_outcomes ≡ some outcomes
      → i.candidate_outcome ≡ some outcome
      → In outcome outcomes
  pub classified :
      (most given : Classification)
      → i.rules.max_classification ≡ some most
      → i.classification ≡ some given
      → classification_rank given ≤ classification_rank most

if-eq-nil_iff : (b : Bool) (x : String) → ((if b then x ∷ [] else []) ≡ []) ↔ (b ≡ false)
if-eq-nil_iff b x = ground arith

append-eq-nil_iff : (xs ys : List String) → ((xs ++ ys) ≡ []) ↔ ((xs ≡ []) × (ys ≡ []))
append-eq-nil_iff [] ys = (λ h. (refl, h), λ h. h.1)
append-eq-nil_iff (x ∷ xs) ys = ground arith

confident_iff :
    (text : Number → String) (o c : Option Number)
    → (confidence_violations text o c ≡ [])
      ↔ ((least : Number) → o ≡ some least → num_lt (get_or c (integer 1)) least ≡ false)
unfolding confidence_violations
confident_iff text none c = (λ _ least e. cc, λ _. refl)
confident_iff text (some least) c = (λ h l e. ground arith, λ h. ground (arith, h least refl))

outcome_iff :
    (o : Option (List String)) (c : Option String)
    → (outcome_violations o c ≡ [])
      ↔ ((xs : List String) (x : String) → o ≡ some xs → c ≡ some x → In x xs)
unfolding outcome_violations
outcome_iff (some xs) (some x) = (
  λ h ys y e f.
      let same_list : xs ≡ ys = cc in
      let same : x ≡ y = cc in rw (← same_list, ← same) ((includes_iff xs x).0 (ground arith)),
  λ h. ground (arith, includes_iff xs x, h xs x refl refl),
)
outcome_iff none c = (λ _ xs x e f. cc, λ _. refl)
outcome_iff (some xs) none = (λ _ xs x e f. cc, λ _. refl)

rank_iff : (m n : ℕ) (x : String) → ((if ltb m n then x ∷ [] else []) ≡ []) ↔ (n ≤ m)
rank_iff m n x = ground arith

classified_iff :
    (o c : Option Classification)
    → (classification_violations o c ≡ []) ↔ (
        (most given : Classification)
        → o ≡ some most
        → c ≡ some given
        → classification_rank given ≤ classification_rank most)
unfolding classification_violations
classified_iff (some most) (some given) = (
  λ h m g e f.
      let same_most : most ≡ m = cc in
      let same : given ≡ g = cc in
      rw (← same_most, ← same) ((rank_iff (classification_rank most) _ _).0 h),
  λ h. (rank_iff (classification_rank most) _ _).1 (h most given refl refl),
)
classified_iff none c = (λ _ xs x e f. cc, λ _. refl)
classified_iff (some xs) none = (λ _ xs x e f. cc, λ _. refl)

violations_iff :
    (text : Number → String) (i : EvaluatePolicyInput) → (violations text i ≡ []) ↔ IsCompliant i
unfolding violations
violations_iff text i =
    let c = confident_iff text i.rules.min_confidence i.confidence in
    let o = outcome_iff i.rules.allowed_outcomes i.candidate_outcome in
    let k = classified_iff i.rules.max_classification i.classification in
    let both =
      append-eq-nil_iff (outcome_violations i.rules.allowed_outcomes i.candidate_outcome)
        (classification_violations i.rules.max_classification i.classification) in
    let all =
      append-eq-nil_iff (confidence_violations text i.rules.min_confidence i.confidence) _ in
    (
      λ h. record {
        confident = c.0 (all.0 h).0;
        outcome = o.0 (both.0 (all.0 h).1).0;
        classified = k.0 (both.0 (all.0 h).1).1;
      },
      λ m. all.1 (c.1 m.confident, both.1 (o.1 m.outcome, k.1 m.classified)),
    )

length-eq-zero_iff : (xs : List String) → (nat_eq (length xs) 0 ≡ true) ↔ (xs ≡ [])
length-eq-zero_iff [] = (λ _. refl, λ _. refl)
length-eq-zero_iff (x ∷ xs) = ground arith

-- An evaluation that is returned says `compliant` exactly if the candidate keeps the policy's
-- rules, and exactly if it lists no violation; a rule or a candidate's field that is not there asks
-- nothing, save that a confidence that is not there counts as 1; and its event names the policy and
-- its tenant.
pub build_policy_evaluated_iff :
    (text : Number → String) (i : EvaluatePolicyInput) (w : World) (v : PolicyEvaluation)
    (e : DomainEvent)
    → (build_policy_evaluated text i w).0 ≡ ok (v, e)
    → ((v.compliant ≡ true) ↔ IsCompliant i)
      × ((v.compliant ≡ true) ↔ (v.violations ≡ []))
      × (e.body ≡ policy_evaluated i.policy_id)
      × (e.tenant_id ≡ v.tenant_id)
unfolding build_policy_evaluated
build_policy_evaluated_iff text i w v e h =
    let listed : v.violations ≡ violations text i = ground arith in
    let compliant : v.compliant ≡ nat_eq (length v.violations) 0 = ground arith in
    let empty = length-eq-zero_iff v.violations in
    (
      (
        λ c. (violations_iff text i).0 (rw (← listed) (empty.0 (rw (← compliant) c))),
        λ k. rw compliant (empty.1 (rw listed ((violations_iff text i).1 k))),
      ),
      (λ c. empty.0 (rw (← compliant) c), λ k. rw compliant (empty.1 k)),
      ground arith,
      ground arith,
    )
