-- ===== src/Decisions/Precedents/Search.antt =====
-- Whom a search for precedents asks about, and when.
use mathlib.Core.Path.{subst}
use kotowari.Base.{
  ℕ, ◌+◌, ◌≤◌, ◌<◌, String, List, [], ◌∷◌, some, Result, ok, ◌≡◌, ◌⊎◌, inl, inr, refl, arith, sym,
  In, length,
}
use kotowari.Kernel.Errors.{Failure}
use kotowari.Kernel.World.{World, now_iso}
use kotowari.Kernel.Access.{Principal, decision_read, Effect, allowed, denied}
use kotowari.Kernel.Authorization.{allow, allow_now}
use kotowari.Kernel.Authorization.Permission.{allow_iff}
use kotowari.Kernel.Decision.{Decision}
use kotowari.Decisions.{call_context, decision_resource}
use kotowari.Decisions.Lifecycle.Lookup.{MayDo, result_cases}
use kotowari.Decisions.Precedents.{readable}

-- The principal may read the decision at a reading of the clock from the n-th up to the m-th.
abbrev pub MayReadFrom : Principal → (ℕ → String) → ℕ → ℕ → Decision → Type 0
MayReadFrom p clock n m d =
    (k : ℕ) × (n ≤ k) × (k < m) × MayDo (clock k) p decision_read "precedent-search" d

effect_cases : (e : Effect) → (e ≡ allowed) ⊎ (e ≡ denied)
effect_cases allowed = inl refl
effect_cases denied = inr refl

ok_inj : {A : Type 0} {a b : A} (r : Result Failure A) → r ≡ ok a → r ≡ ok b → a ≡ b
ok_inj r g h = cc

-- The search reads the clock once for each decision that it asks about.
pub readable-readings :
    (p : Principal) (ds : List Decision) (w : World)
    → (readable p ds w).1.readings ≡ w.readings + length ds
unfolding readable allow_now now_iso length
readable-readings p [] w = omega arith
readable-readings p (c ∷ cs) w =
    let after : World = record w { readings = w.readings + 1 } in
    elim (result_cases (readable p cs after).0) [
      | inl (l, e) ↦ ground (arith, readable-readings p cs after)
      | inr (f, e) ↦ ground (arith, readable-readings p cs after)
    ]

pub readable-MayReadFrom :
    (p : Principal) (ds : List Decision) (w : World) (l : List Decision) (d : Decision)
    → (readable p ds w).0 ≡ ok l
    → In d l
    → In d ds × MayReadFrom p w.clock w.readings (w.readings + length ds) d
unfolding readable allow_now now_iso length
readable-MayReadFrom p [] w l d h m = absurd (subst (In d) (sym (ok_inj _ refl h)) m)
readable-MayReadFrom p (c ∷ cs) w l d h m =
    let after : World = record w { readings = w.readings + 1 } in
    let context = call_context p (some "precedent-search") in
    elim (result_cases (readable p cs after).0) [
      | inr (f, e) ↦ absurd (ground arith)
      | inl (rest, e) ↦
          let later = readable-MayReadFrom p cs after rest d e in
          elim (effect_cases
            (allow (w.clock w.readings) p decision_read (decision_resource c) context).effect) [
              | inl granted ↦
                  let shape : c ∷ rest ≡ l = ground arith in
                  elim (rw (← shape) at m) [
                    | inl here ↦ (
                      inl here,
                      (
                        w.readings,
                        omega arith,
                        omega arith,
                        rw here (
                            (allow_iff (w.clock w.readings) p decision_read (decision_resource c)
                                context).0
                              granted),
                      ),
                    )
                    | inr n ↦
                        let (held, (k, below, above, may)) = later n in
                        (inr held, (k, omega arith, omega arith, may))
                  ]
              | inr refused ↦
                  let shape : rest ≡ l = ground arith in
                  let (held, (k, below, above, may)) = later (rw (← shape) at m) in
                  (inr held, (k, omega arith, omega arith, may))
            ]
    ]

pub length-readable :
    (p : Principal) (ds : List Decision) (w : World) (l : List Decision)
    → (readable p ds w).0 ≡ ok l
    → length l ≤ length ds
unfolding readable allow_now now_iso length
length-readable p [] w l h = let same = ok_inj _ refl h in rw (← same) (omega arith)
length-readable p (c ∷ cs) w l h =
    let after : World = record w { readings = w.readings + 1 } in
    elim (result_cases (readable p cs after).0) [
      | inr (f, e) ↦ absurd (ground arith)
      | inl (rest, e) ↦ let later = length-readable p cs after rest e in ground arith
    ]
