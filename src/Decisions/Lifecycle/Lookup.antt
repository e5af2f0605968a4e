-- ===== src/Decisions/Lifecycle/Lookup.antt =====
-- What `decisionForLifecycle` finds, and the shapes of what the capabilities leave behind.
use kotowari.Base.{
  In, sym, Bool-cases, ◌+◌, String, List, [], ◌∷◌, none, some, Bool, true, Result, ok, err, ◌≡◌,
  ◌⊎◌, inl, inr, refl, arith, Option-cases, find,
}
use kotowari.Kernel.Errors.{Failure}
use kotowari.Kernel.World.{now_iso}
use kotowari.Kernel.Ids.{as_decision_id}
use kotowari.Kernel.Provenance.{Provenance}
use kotowari.Kernel.Access.{Action, Principal}
use kotowari.Kernel.Authorization.{assert_allowed, allow_now}
use kotowari.Kernel.Authorization.Permission.{IsPermitted}
use kotowari.Kernel.Authorization.Receipts.{assert_allowed_iff}
use kotowari.Kernel.Decision.{Decision}
use kotowari.Kernel.Events.{DomainEvent, EventBody}
use kotowari.PluginSdk.Store.{Store, append_event, append_outbox, get_decision}
use kotowari.PluginSdk.System.{System}
use kotowari.Decisions.{call_context, decision_resource}
use kotowari.Decisions.Lifecycle.{decision_for_lifecycle}

-- One event more, and the same event in the outbox.
abbrev pub Appends : Store → Store → EventBody → Type 0
Appends before after body =
    (e : DomainEvent) × (e.body ≡ body) × (after ≡ append_outbox e (append_event e before))

-- The principal may do this to the decision at an instant, for a purpose.
abbrev pub MayDo : String → Principal → Action → String → Decision → Type 0
MayDo at p a why d = IsPermitted at p a (decision_resource d) (call_context p (some why))

pub result_cases :
    {A : Type 0} (r : Result Failure A) → ((a : A) × (r ≡ ok a)) ⊎ ((e : Failure) × (r ≡ err e))
result_cases (ok a) = inl (a, refl)
result_cases (err e) = inr (e, refl)

pub find-eq-some :
    {A : Type 0} (f : A → Bool) (xs : List A) (x : A) → find f xs ≡ some x → In x xs × (f x ≡ true)
unfolding find
find-eq-some f [] x h = cc
find-eq-some f (y ∷ ys) x h = elim (Bool-cases (f y)) [
  | inl hit ↦ let same : y ≡ x = ground arith in (inl (sym same), rw same at hit)
  | inr miss ↦ let (m, t) = find-eq-some f ys x (ground arith) in (inr m, t)
]

-- The event that is made after one other identifier.
unfoldable pub second_event : String → Provenance → String → EventBody → System → DomainEvent
second_event tenant_id provenance at body s = record {
  event_id = s.world.uuid (s.world.drawn + 1);
  tenant_id = tenant_id;
  provenance = provenance;
  occurred_at = at;
  body = body;
}

module _ (p : Principal) (id : String) (a : Action) (why : String) (s : System) where
  pub found_lem :
      (d : Decision)
      → (decision_for_lifecycle p id a why s).0 ≡ ok (some d)
      → (get_decision id s.store ≡ some d)
        × MayDo (s.world.clock s.world.readings) p a why d
        × ((decision_for_lifecycle p id a why s).1.store ≡ s.store)
  unfolding decision_for_lifecycle as_decision_id
  found_lem d h = elim (Option-cases (get_decision id s.store)) [
    | inl e ↦ absurd (ground arith)
    | inr (c, e) ↦ (
      ground arith,
      (assert_allowed_iff p a (decision_resource d) (call_context p (some why)) s.world).0
          (ground arith),
      ground arith,
    )
  ]

  pub found-world :
      (d : Decision)
      → (decision_for_lifecycle p id a why s).0 ≡ ok (some d)
      → (decision_for_lifecycle p id a why s).1.world
        ≡ record (s.world) { readings = s.world.readings + 1 }
  unfolding decision_for_lifecycle as_decision_id assert_allowed allow_now now_iso
  found-world d h = elim (Option-cases (get_decision id s.store)) [
    | inl e ↦ absurd (ground arith)
    | inr (c, e) ↦ ground arith
  ]

  pub found-store : (decision_for_lifecycle p id a why s).1.store ≡ s.store
  unfolding decision_for_lifecycle
  found-store = elim (Option-cases (get_decision id s.store)) [
    | inl e ↦ ground arith
    | inr (c, e) ↦ ground arith
  ]

  -- What the lookup has not found it does not hand on.
  pub found-cases :
      ((d : Decision) × ((decision_for_lifecycle p id a why s).0 ≡ ok (some d)))
      ⊎ (((decision_for_lifecycle p id a why s).0 ≡ ok none)
          ⊎ ((f : Failure) × ((decision_for_lifecycle p id a why s).0 ≡ err f)))
  found-cases = elim (result_cases (decision_for_lifecycle p id a why s).0) [
    | inr (f, e) ↦ inr (inr (f, e))
    | inl (o, e) ↦ elim (Option-cases o) [
      | inl n ↦ inr (inl (rw n at e))
      | inr (d, k) ↦ inl (d, rw k at e)
    ]
  ]
