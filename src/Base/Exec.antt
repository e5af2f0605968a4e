-- ===== src/Base/Exec.antt =====
-- Code that changes a state and may throw. What was written before a throw stays written, so the
-- state comes back beside the error too.
use mathlib.Core.Path.{◌≡◌, refl}
use mathlib.Core.List.{List, [], ◌∷◌}
use mathlib.Core.Logic.{◌⊎◌, inl, inr}
use kotowari.Base.Throw.{Result, ok, err}

abbrev pub Exec : Type 0 → Type 0 → Type 0 → Type 0
Exec S E A = S → Result E A × S

module _ {S E A : Type 0} where
  abbrev pub pure : A → Exec S E A
  pure a s = (ok a, s)

  abbrev pub raise : E → Exec S E A
  raise e s = (err e, s)

  -- A computation that reads and writes nothing.
  abbrev pub lift : Result E A → Exec S E A
  lift r s = (r, s)

  abbrev pub gets : (S → A) → Exec S E A
  gets f s = (ok (f s), s)

module _ {S E : Type 0} where
  abbrev pub modify : (S → S) → Exec S E (Unit {0})
  modify f s = (ok tt, f s)

module _ {S E A B : Type 0} where
  abbrev pub continue : Result E A → (A → Exec S E B) → Exec S E B
  continue (ok a) f s = f a s
  continue (err e) f s = (err e, s)

  infixl 5 ◌>>=◌ ◌>>◌
  abbrev pub ◌>>=◌ : Exec S E A → (A → Exec S E B) → Exec S E B
  ◌>>=◌ m f s = continue (m s).0 f (m s).1

  abbrev pub ◌>>◌ : Exec S E A → Exec S E B → Exec S E B
  ◌>>◌ m k s = continue (m s).0 (λ _. k) (m s).1

module _ {S T E A : Type 0} where
  -- Code over a part of the state, run on the whole.
  abbrev pub zoom : (S → T) → (T → S → S) → Exec T E A → Exec S E A
  zoom get put m s = ((m (get s)).0, put (m (get s)).1 s)

module _ {S E A : Type 0} where
  -- `for (const x of xs) { f(x) }`
  unfoldable pub for_each : List A → (A → Exec S E (Unit {0})) → Exec S E (Unit {0})
  for_each [] f s = (ok tt, s)
  for_each (x ∷ xs) f s = continue (f x s).0 (λ _. for_each xs f) (f x s).1

-- A call that returns has made its first step and then the rest.
module _ {S E A B : Type 0} (f : A → Exec S E B) where
  pub continue-ok :
      (r : Result E A) (s : S) {b : B} {t : S}
      → continue r f s ≡ (ok b, t)
      → (a : A) × (r ≡ ok a) × (f a s ≡ (ok b, t))
  continue-ok (ok a) s h = (a, refl, h)
  continue-ok (err e) s h = cc

  -- A call that throws has thrown in its first step, and stopped, or in the rest.
  pub continue-err :
      (r : Result E A) (s : S) {e : E} {t : S}
      → continue r f s ≡ (err e, t)
      → ((r ≡ err e) × (s ≡ t)) ⊎ ((a : A) × (r ≡ ok a) × (f a s ≡ (err e, t)))
  continue-err (ok a) s h = inr (a, refl, h)
  continue-err (err d) s h = inl (cc, cc)

  -- What holds after the first step, and is kept by the rest, holds at the end, thrown or not.
  pub continue-keeps :
      (P : S → Type 0) (r : Result E A) (s : S)
      → P s
      → ((a : A) → P (f a s).1)
      → P (continue r f s).1
  continue-keeps P (ok a) s h keep = keep a
  continue-keeps P (err e) s h keep = h

module _ {S E A : Type 0} where
  pub pure-eq-ok : (a b : A) (s t : S) → pure {E = E} a s ≡ (ok b, t) → (a ≡ b) × (s ≡ t)
  pure-eq-ok a b s t h = (cc, cc)
