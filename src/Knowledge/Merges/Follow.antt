-- ===== src/Knowledge/Merges/Follow.antt =====
-- Where redirects lead: the loop ends, at the root of the chain, or it reports a cycle.
use kotowari.Base.{
  ℕ, zero, suc, ◌<◌, String, List, [], ◌∷◌, none, some, includes, includes_iff, length, Dict,
  lookup, string_eq, Result, ok, err, ◌≡◌, ◌↔◌, inl, inr, refl, sym, ◌∙◌, ap, arith, In, Bool-cases,
  Option-cases,
}
use kotowari.Base.Unvisited.{unvisited, unvisited-lt, unvisited-nil}
use kotowari.Kernel.Errors.{Failure}
use kotowari.Knowledge.Merges.{follow, follow_redirects, cycle_error}

-- A chain of so many redirects.
abbrev pub Walk : Dict String String → ℕ → String → String → Type 0
Walk d zero x y = x ≡ y
Walk d (suc n) x y = (z : String) × (lookup x d ≡ some z) × Walk d n z y

-- A chain that ends in what is not redirected.
abbrev pub LeadsTo : Dict String String → String → String → Type 0
LeadsTo d x c = (n : ℕ) × Walk d n x c × (lookup c d ≡ none)

-- A chain that comes back.
abbrev pub LeadsBack : Dict String String → String → Type 0
LeadsBack d x = (n : ℕ) × Walk d (suc n) x x

module _ (d : Dict String String) where
  Walk-concat : (n : ℕ) (x y z : String) → Walk d n x y → lookup y d ≡ some z → Walk d (suc n) x z
  Walk-concat zero x y z w h = (z, rw w h, refl)
  Walk-concat (suc n) x y z (u, e, w) h = (u, e, Walk-concat n u y z w h)

  Walk-unique :
      (n m : ℕ) (x a b : String)
      → Walk d n x a
      → lookup a d ≡ none
      → Walk d m x b
      → lookup b d ≡ none
      → (n ≡ m) × (a ≡ b)
  Walk-unique zero zero x a b v h w k = (refl, sym v ∙ w)
  Walk-unique zero (suc m) x a b v h (z, e, w) k = cc
  Walk-unique (suc n) zero x a b (z, e, v) h w k = cc
  Walk-unique (suc n) (suc m) x a b (y, e, v) h (z, f, w) k =
      let same : z ≡ y = cc in
      let (i, j) = Walk-unique n m y a b v h (rw same at w) k in (ap suc i, j)

module _ (d : Dict String String) where
  follow_ends :
      (fuel : ℕ) (x : String) (seen : List String)
      → unvisited seen d < fuel
      → (r : Result Failure String) × (follow fuel d x seen ≡ some r)
  unfolding follow
  follow_ends zero x seen h = absurd (omega arith)
  follow_ends (suc fuel) x seen h = elim (Option-cases (lookup x d)) [
    | inl root ↦ (ok x, rw (root, follow))
    | inr (y, e) ↦ elim (Bool-cases (includes seen x)) [
      | inl old ↦ (err (cycle_error x), rw (e, follow, old))
      | inr new ↦
          let (r, k) =
            follow_ends fuel y (x ∷ seen) (omega (arith, unvisited-lt x y seen d e new)) in
          (r, rw (e, follow, new) k)
    ]
  ]

  follow-LeadsTo :
      (fuel : ℕ) (x c : String) (seen : List String)
      → follow fuel d x seen ≡ some (ok c)
      → LeadsTo d x c
  unfolding follow
  follow-LeadsTo zero x c seen h = cc
  follow-LeadsTo (suc fuel) x c seen h = elim (Option-cases (lookup x d)) [
    | inl root ↦ let same : x ≡ c = ground arith in (0, same, rw same at root)
    | inr (y, e) ↦ elim (Bool-cases (includes seen x)) [
      | inl old ↦ absurd (ground arith)
      | inr new ↦
          let (n, w, end) = follow-LeadsTo fuel y c (x ∷ seen) (ground arith) in
          (suc n, (y, e, w), end)
    ]
  ]

  -- What was passed stands further from the root.
  follow_root :
      (fuel n : ℕ) (x c : String) (seen : List String) (r : Result Failure String)
      → follow fuel d x seen ≡ some r
      → Walk d n x c
      → lookup c d ≡ none
      → ((s : String) → In s seen → (m : ℕ) × (n < m) × Walk d m s c)
      → r ≡ ok c
  unfolding follow
  follow_root zero n x c seen r h w end far = cc
  follow_root (suc fuel) zero x c seen r h w end far = ground arith
  follow_root (suc fuel) (suc n) x c seen r h (y, e, w) end far =
      elim (Bool-cases (includes seen x)) [
        | inl old ↦
            let (m, less, v) = far x ((includes_iff seen x).0 old) in
            let (same, _) = Walk-unique d m (suc n) x c c v end (y, e, w) end in
            absurd (omega arith)
        | inr new ↦ follow_root fuel n y c (x ∷ seen) r (ground arith) w end λ s i. elim i [
          | inl here ↦ (suc n, omega arith, rw here (y, e, w))
          | inr there ↦ let (m, less, v) = far s there in (m, omega arith, v)
        ]
      ]

  follow-LeadsBack :
      (fuel : ℕ) (x : String) (seen : List String) (e : Failure)
      → follow fuel d x seen ≡ some (err e)
      → ((s : String) → In s seen → (m : ℕ) × Walk d (suc m) s x)
      → (at : String) × (e ≡ cycle_error at) × LeadsBack d at
  unfolding follow
  follow-LeadsBack zero x seen e h behind = cc
  follow-LeadsBack (suc fuel) x seen e h behind = elim (Option-cases (lookup x d)) [
    | inl root ↦ absurd (ground arith)
    | inr (y, k) ↦ elim (Bool-cases (includes seen x)) [
      | inl old ↦ (x, ground arith, behind x ((includes_iff seen x).0 old))
      | inr new ↦ follow-LeadsBack fuel y (x ∷ seen) e (ground arith) λ s i. elim i [
        | inl here ↦ (0, rw here (y, k, refl))
        | inr there ↦ let (m, w) = behind s there in (suc m, Walk-concat d (suc m) s x y w k)
      ]
    ]
  ]

-- The loop that follows the redirects of merges ends within one round more than there are redirects.
pub follow-terminates :
    (d : Dict String String) (x : String)
    → (r : Result Failure String) × (follow (suc (length d)) d x [] ≡ some r)
follow-terminates d x = follow_ends d (suc (length d)) x [] (omega (arith, unvisited-nil d))

module _ (d : Dict String String) (x : String) where
  -- Redirects are followed to an entity exactly if a chain of them leads there and the entity is
  -- not redirected.
  pub follow_redirects-LeadsTo_iff : (c : String) → (follow_redirects d x ≡ ok c) ↔ LeadsTo d x c
  unfolding follow_redirects
  follow_redirects-LeadsTo_iff c =
      let (r, ends) = follow-terminates d x in
      (
        λ h. follow-LeadsTo d (suc (length d)) x c [] (ground arith),
        λ (n, w, end).
            let same = follow_root d (suc (length d)) n x c [] r ends w end (λ s i. absurd i) in
            ground arith,
      )

  -- An error names an entity that a chain of redirects leads back to itself.
  pub follow_redirects-LeadsBack :
      (e : Failure)
      → follow_redirects d x ≡ err e
      → (at : String) × (e ≡ cycle_error at) × LeadsBack d at
  unfolding follow_redirects
  follow_redirects-LeadsBack e h =
      let (r, ends) = follow-terminates d x in
      follow-LeadsBack d (suc (length d)) x [] e (ground arith) (λ s i. absurd i)
