-- ===== src/Decisions/Replay/Laws.antt =====
-- When a replay is complete, and what it then holds.
use kotowari.Kernel.World.{now_iso}
use kotowari.Base.{
  ◌+◌, String, List, [], ◌∷◌, ◌++◌, Option, none, some, Bool, true, false, ok, ◌≡◌, ◌↔◌, inl, inr,
  refl, arith, ap, In, All, find, nat_eq, length, string_eq, ==_iff, Option-cases, ◌∙◌, sym,
}
use kotowari.Base.Number.{Number, num_eq}
use kotowari.Kernel.Ids.{as_decision_id}
use kotowari.Kernel.Access.{Principal, decision_read}
use kotowari.Kernel.Authorization.{assert_allowed, allow_now}
use kotowari.Kernel.Authorization.Receipts.{assert_allowed_iff}
use kotowari.Kernel.Context.{PolicyRecord, PolicyVersionRef, RetrievalReceipt}
use kotowari.Kernel.Decision.{Decision}
use kotowari.PluginSdk.Store.{Store, get_decision, get_retrieval_receipt, list_policies}
use kotowari.PluginSdk.System.{System}
use kotowari.Decisions.{call_context, decision_resource}
use kotowari.Decisions.Lifecycle.Lookup.{MayDo, find-eq-some}
use kotowari.Policy.{policy_version_ref}
use kotowari.Decisions.Replay.References.{NamesVersion, refs_from_snapshot-NamesVersion}
use kotowari.Decisions.Replay.{
  DecisionReplay, is_exactly, missing_receipt, receipt_of, refs_from_snapshot, match_refs,
  load_policy_versions, replay_of, replay_decision_capability,
}

-- The policy is the version that the reference names, by identifier and number.
abbrev pub IsVersion : PolicyVersionRef → PolicyRecord → Type 0
IsVersion ref q =
    ((policy_version_ref q).policy_version_id ≡ ref.policy_version_id)
    × (num_eq (policy_version_ref q).version ref.version ≡ true)

-- A reference names a stored policy, exactly.
abbrev pub IsStored : List PolicyRecord → PolicyVersionRef → Type 0
IsStored records ref = (q : PolicyRecord) × In q records × IsVersion ref q

-- The policies are those of the references, in their order.
abbrev pub Restores : List PolicyRecord → List PolicyVersionRef → List PolicyRecord → Type 0
Restores records [] [] = Unit
Restores records (ref ∷ refs) (q ∷ qs) = (In q records × IsVersion ref q) × Restores records refs qs
Restores records _ _ = ⊥

-- The receipt that a snapshot names is stored.
abbrev pub HasReceipt : Option String → Store → Type 0
HasReceipt named s =
    (id : String) → named ≡ some id → (x : RetrievalReceipt) × (get_retrieval_receipt id s ≡ some x)

find-eq-none :
    {A : Type 0} (f : A → Bool) (xs : List A) (x : A) → find f xs ≡ none → In x xs → f x ≡ false
unfolding find
find-eq-none f [] x h m = absurd m
find-eq-none f (y ∷ ys) x h (inl e) = rw e (ground arith)
find-eq-none f (y ∷ ys) x h (inr m) = find-eq-none f ys x (ground arith) m

length-eq-zero_iff : (xs : List String) → (nat_eq (length xs) 0 ≡ true) ↔ (xs ≡ [])
length-eq-zero_iff [] = (λ _. refl, λ _. refl)
length-eq-zero_iff (x ∷ xs) = ground arith

append-eq-nil_iff : (xs ys : List String) → ((xs ++ ys) ≡ []) ↔ ((xs ≡ []) × (ys ≡ []))
append-eq-nil_iff [] ys = (λ h. (refl, h), λ h. h.1)
append-eq-nil_iff (x ∷ xs) ys = ground arith

receipt_iff :
    (named : Option String) (s : Store)
    → (missing_receipt named (receipt_of named s) ≡ []) ↔ HasReceipt named s
receipt_iff none s = (λ _ id e. cc, λ _. refl)
receipt_iff (some id) s = elim (Option-cases (get_retrieval_receipt id s)) [
  | inl e ↦ (λ h k f. absurd (ground arith), λ h. let (x, g) = h id refl in cc)
  | inr (x, e) ↦ (λ h k f. (x, ground arith), λ h. ground arith)
]

is_exactly_iff :
    (ref : PolicyVersionRef) (q : PolicyRecord) → is_exactly ref q ≡ true ↔ IsVersion ref q
is_exactly_iff ref q =
    let same = ==_iff (policy_version_ref q).policy_version_id ref.policy_version_id in
    (λ h. (same.0 (ground arith), ground arith), λ (e, n). let k = same.1 e in ground arith)

module _ (text : Number → String) (num : String → Number) (records : List PolicyRecord) where
  matched_iff :
      (refs : List PolicyVersionRef)
      → ((match_refs text num records refs).missing ≡ []) ↔ All (IsStored records) refs
  unfolding match_refs
  matched_iff [] = (λ _. tt, λ _. refl)
  matched_iff (ref ∷ refs) = elim (Option-cases (find (is_exactly ref) records)) [
    | inl e ↦ (
      λ h. absurd (ground arith),
      λ ((q, m, x), rest).
          cc (find-eq-none (is_exactly ref) records q e m, (is_exactly_iff ref q).1 x),
    )
    | inr (q, e) ↦
        let ih = matched_iff refs in
        let (m, x) = find-eq-some (is_exactly ref) records q e in
        (
          λ h. ((q, m, (is_exactly_iff ref q).0 x), ih.0 (ground arith)),
          λ (here, rest). rw e (ih.1 rest),
        )
  ]

  matched-Restores :
      (refs : List PolicyVersionRef)
      → (match_refs text num records refs).missing ≡ []
      → Restores records refs (match_refs text num records refs).policies
  unfolding match_refs
  matched-Restores [] h = tt
  matched-Restores (ref ∷ refs) h = elim (Option-cases (find (is_exactly ref) records)) [
    | inl e ↦ absurd (ground arith)
    | inr (q, e) ↦
        let ih = matched-Restores refs (ground arith) in
        let (m, x) = find-eq-some (is_exactly ref) records q e in
        rw e ((m, (is_exactly_iff ref q).0 x), ih)
  ]

module _ (text : Number → String) (num : String → Number) (p : Principal) (id : String)
    (s t : System) (r : DecisionReplay) where
  pub replayed :
      replay_decision_capability text num p id s ≡ (ok (some r), t)
      → (get_decision id s.store ≡ some r.decision)
        × MayDo (s.world.clock s.world.readings) p decision_read "decision-replay" r.decision
        × (r ≡ replay_of text num r.decision s.store)
        × (t.store ≡ s.store)
  unfolding replay_decision_capability as_decision_id
  replayed h = elim (Option-cases (get_decision id s.store)) [
    | inl e ↦ absurd (ground arith)
    | inr (d, e) ↦
        let made : r ≡ replay_of text num d s.store = ground arith in
        let same : r.decision ≡ d =
          unfold replay_of in (ap (λ (x : DecisionReplay). x.decision) made) in
        (
          rw same e,
          rw same (
              (assert_allowed_iff p decision_read (decision_resource d)
                  (call_context p (some "decision-replay")) s.world).0
                (ground arith)),
          made ∙ ap (λ (x : Decision). replay_of text num x s.store) (sym same),
          ground arith,
        )
  ]

  pub replayed-world :
      replay_decision_capability text num p id s ≡ (ok (some r), t)
      → t.world ≡ record (s.world) { readings = s.world.readings + 1 }
  unfolding replay_decision_capability as_decision_id assert_allowed allow_now now_iso
  replayed-world h = elim (Option-cases (get_decision id s.store)) [
    | inl e ↦ absurd (ground arith)
    | inr (d, e) ↦ ground arith
  ]

-- What a replay finds: the stored decision under the identifier, which the principal may read, with
-- its own snapshot; it is complete exactly if the receipt that the snapshot names, if any, is
-- stored and each policy version that the snapshot names is stored among the tenant's policies,
-- with the same identifier and number; and the call stores nothing. The snapshot names the versions
-- of its references or, where it has none, those of its legacy keys that can be read.
pub replay_decision_capability-complete_iff :
    (text : Number → String) (num : String → Number) (p : Principal) (id : String) (s t : System)
    (r : DecisionReplay)
    → replay_decision_capability text num p id s ≡ (ok (some r), t)
    → ((get_decision id s.store ≡ some r.decision)
        × (r.context_snapshot ≡ r.decision.input_context_snapshot)
        × (t.store ≡ s.store))
      × MayDo (s.world.clock s.world.readings) p decision_read "decision-replay" r.decision
      × ((r.complete ≡ true) ↔ (
          HasReceipt r.context_snapshot.retrieval_receipt_id s.store
          × All
              (IsStored (list_policies r.context_snapshot.tenant_id s.store))
              (refs_from_snapshot text num r.context_snapshot)))
      × ((ref : PolicyVersionRef)
          → In ref (refs_from_snapshot text num r.context_snapshot)
            ↔ NamesVersion text num r.context_snapshot ref)
unfolding replay_of load_policy_versions
replay_decision_capability-complete_iff text num p id s t r h =
    let (found, may, made, same) = replayed text num p id s t r h in
    let context : r.context_snapshot ≡ r.decision.input_context_snapshot =
      ap (λ (x : DecisionReplay). x.context_snapshot) made in
    let done : r.complete ≡ nat_eq (length (replay_of text num r.decision s.store).missing) 0 =
      ap (λ (x : DecisionReplay). x.complete) made in
    let snapshot = r.decision.input_context_snapshot in
    let empty = length-eq-zero_iff (replay_of text num r.decision s.store).missing in
    let both =
      append-eq-nil_iff
        (missing_receipt snapshot.retrieval_receipt_id
          (receipt_of snapshot.retrieval_receipt_id s.store))
        (load_policy_versions text num snapshot s.store).missing in
    let receipt = receipt_iff snapshot.retrieval_receipt_id s.store in
    let policies =
      matched_iff text num (list_policies snapshot.tenant_id s.store)
        (refs_from_snapshot text num snapshot) in
    (
      (found, context, same),
      may,
      rw (context, done)
          (
            λ k. let parts = both.0 (empty.0 k) in (receipt.0 parts.0, policies.0 parts.1),
            λ k. empty.1 (both.1 (receipt.1 k.0, policies.1 k.1)),
          ),
      λ ref. refs_from_snapshot-NamesVersion text num r.context_snapshot ref,
    )

-- A complete replay holds the policies that were in force: one for each version that the snapshot
-- names, in the snapshot's order, with the same identifier and number.
pub replay_decision_capability-Restores :
    (text : Number → String) (num : String → Number) (p : Principal) (id : String) (s t : System)
    (r : DecisionReplay)
    → replay_decision_capability text num p id s ≡ (ok (some r), t)
    → r.complete ≡ true
    → Restores
        (list_policies r.context_snapshot.tenant_id s.store)
        (refs_from_snapshot text num r.context_snapshot)
        r.policy_versions
unfolding replay_of load_policy_versions
replay_decision_capability-Restores text num p id s t r h whole =
    let (found, may, made, same) = replayed text num p id s t r h in
    let context : r.context_snapshot ≡ r.decision.input_context_snapshot =
      ap (λ (x : DecisionReplay). x.context_snapshot) made in
    let done : r.complete ≡ nat_eq (length (replay_of text num r.decision s.store).missing) 0 =
      ap (λ (x : DecisionReplay). x.complete) made in
    let listed : r.policy_versions ≡ (replay_of text num r.decision s.store).policy_versions =
      ap (λ (x : DecisionReplay). x.policy_versions) made in
    let snapshot = r.decision.input_context_snapshot in
    let empty =
      (length-eq-zero_iff (replay_of text num r.decision s.store).missing).0 (rw (← done) whole) in
    let none_missing =
      ((append-eq-nil_iff
          (missing_receipt snapshot.retrieval_receipt_id
            (receipt_of snapshot.retrieval_receipt_id s.store))
          (load_policy_versions text num snapshot s.store).missing).0
        empty).1 in
    rw (context, listed)
      (matched-Restores text num (list_policies snapshot.tenant_id s.store)
        (refs_from_snapshot text num snapshot) none_missing)
