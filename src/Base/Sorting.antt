-- ===== src/Base/Sorting.antt =====
-- `Array.prototype.sort` with a comparison: a stable sort. `before a b` is `compare(a, b) < 0`.
use kotowari.Base.Tests.{if◌then◌else◌, Bool-cases}
use kotowari.Base.Lists.{length, In, get_last?, filter, In-filter, List-cases}
use Prim.Native.Nat.{suc}
use mathlib.Core.Path.{◌≡◌, refl, ◌∙◌, ap}
use mathlib.Core.Logic.{◌⊎◌, inl, inr}
use mathlib.Core.Bool.{Bool, true, false}
use mathlib.Core.Option.{some}
use mathlib.Core.List.{List, [], ◌∷◌}
use native.Mathlib.Omega.{arith}

-- `a.localeCompare(b) || c.localeCompare(d)`, as a test for less than 0.
abbrev pub then_by : Bool → Bool → Bool → Bool
then_by first_before first_after second_before =
    if first_before then true else if first_after then false else second_before

module _ {A : Type 0} (before : A → A → Bool) where
  -- Goes in front of what is not strictly before it, so that equals keep their order.
  pub insert_sorted : A → List A → List A
  insert_sorted x [] = x ∷ []
  insert_sorted x (y ∷ ys) =
      let later = y ∷ insert_sorted x ys in if before y x then later else x ∷ y ∷ ys

  unfoldable pub sort : List A → List A
  unfolding insert_sorted
  sort [] = []
  sort (x ∷ xs) = insert_sorted x (sort xs)

-- What is known of a comparison: a strict weak order.
pub record IsWeakOrder {A : Type 0} (before : A → A → Bool) : Type 0 where
  pub asym : (a b : A) → before a b ≡ true → before b a ≡ false
  pub negatively_transitive :
      (a b c : A) → before a b ≡ false → before b c ≡ false → before a c ≡ false

module _ {A : Type 0} (before : A → A → Bool) where
  -- Nothing that stands later is strictly before what stands earlier.
  abbrev pub IsSorted : List A → Type 0
  IsSorted [] = Unit
  IsSorted (x ∷ xs) = ((z : A) → In z xs → before z x ≡ false) × IsSorted xs

  In-insert_sorted : (a x : A) (l : List A) → In a (insert_sorted before x l) → (a ≡ x) ⊎ In a l
  unfolding insert_sorted
  In-insert_sorted a x [] m = m
  In-insert_sorted a x (y ∷ ys) m = ground (arith, In-insert_sorted a x ys)

  module _ (w : IsWeakOrder before) where
    insert_sorted-IsSorted : (x : A) (l : List A) → IsSorted l → IsSorted (insert_sorted before x l)
    unfolding insert_sorted
    insert_sorted-IsSorted x [] h = ((λ z m. absurd m), tt)
    insert_sorted-IsSorted x (y ∷ ys) (low, h) = elim (Bool-cases (before y x)) [
      | inl after ↦ rw after (
        λ z m. elim (In-insert_sorted z x ys m) [
          | inl e ↦ rw e (w.asym y x after)
          | inr n ↦ low z n
        ],
        insert_sorted-IsSorted x ys h,
      )
      | inr here ↦ rw here (
        λ z m. elim m [ inl e ↦ rw e here | inr n ↦ w.negatively_transitive z y x (low z n) here ],
        (low, h),
      )
    ]

    sort-IsSorted : (l : List A) → IsSorted (sort before l)
    unfolding sort
    sort-IsSorted [] = tt
    sort-IsSorted (x ∷ xs) = insert_sorted-IsSorted x (sort before xs) (sort-IsSorted xs)

  pub sort-eq-nil : (l : List A) → sort before l ≡ [] → l ≡ []
  unfolding sort insert_sorted
  sort-eq-nil [] h = refl
  sort-eq-nil (x ∷ xs) h = elim (List-cases (sort before xs)) [
    | inl none_left ↦ absurd (ground arith)
    | inr (y, ys, e) ↦ absurd (ground arith)
  ]

  pub In-sort : (a : A) (l : List A) → In a (sort before l) → In a l
  unfolding sort
  In-sort a [] m = m
  In-sort a (x ∷ xs) m = elim (In-insert_sorted a x (sort before xs) m) [
    | inl e ↦ inl e
    | inr n ↦ inr (In-sort a xs n)
  ]

  In_insert_sorted_of : (a x : A) (l : List A) → (a ≡ x) ⊎ In a l → In a (insert_sorted before x l)
  unfolding insert_sorted
  In_insert_sorted_of a x [] m = m
  In_insert_sorted_of a x (y ∷ ys) m = ground (arith, In_insert_sorted_of a x ys)

  pub In_sort_of : (a : A) (l : List A) → In a l → In a (sort before l)
  unfolding sort
  In_sort_of a [] m = m
  In_sort_of a (x ∷ xs) (inl e) = In_insert_sorted_of a x (sort before xs) (inl e)
  In_sort_of a (x ∷ xs) (inr n) = In_insert_sorted_of a x (sort before xs) (inr (In_sort_of a xs n))

pub get_last?-In : {A : Type 0} (l : List A) (m : A) → get_last? l ≡ some m → In m l
get_last?-In [] m e = cc
get_last?-In (x ∷ []) m e = inl (cc)
get_last?-In (x ∷ y ∷ ys) m e = inr (get_last?-In (y ∷ ys) m e)

module _ {A : Type 0} (before : A → A → Bool) (w : IsWeakOrder before) where
  irrefl : (a : A) → before a a ≡ false
  irrefl a = ground (arith, w.asym a a)

  last_of_sorted :
      (l : List A) (m x : A)
      → IsSorted before l
      → get_last? l ≡ some m
      → In x l
      → before m x ≡ false
  last_of_sorted [] m x h e n = absurd n
  last_of_sorted (y ∷ []) m x h e (inl here) = let same : y ≡ m = cc in rw (here, same) (irrefl m)
  last_of_sorted (y ∷ []) m x h e (inr n) = absurd n
  last_of_sorted (y ∷ z ∷ zs) m x (low, h) e (inl here) =
      rw here (low m (get_last?-In (z ∷ zs) m e))
  last_of_sorted (y ∷ z ∷ zs) m x (low, h) e (inr n) = last_of_sorted (z ∷ zs) m x h e n

  -- The last element after a sort is one of the list's, and none of them comes after it.
  pub get_last?-sort :
      (l : List A) (m : A)
      → get_last? (sort before l) ≡ some m
      → In m l × ((x : A) → In x l → before m x ≡ false)
  get_last?-sort l m e = (
    In-sort before m l (get_last?-In (sort before l) m e),
    λ x n.
        last_of_sorted (sort before l) m x (sort-IsSorted before w l) e (In_sort_of before x l n),
  )

-- A filter of what is sorted is the sort of what is filtered: the sort keeps the order of equals.
module _ {A : Type 0} (before : A → A → Bool) (w : IsWeakOrder before) (p : A → Bool) where
  insert_sorted-front :
      (x : A) (l : List A)
      → ((z : A) → In z l → before z x ≡ false)
      → insert_sorted before x l ≡ x ∷ l
  unfolding insert_sorted
  insert_sorted-front x [] h = refl
  insert_sorted-front x (y ∷ ys) h = rw (h y (inl refl))

  filter-insert_sorted :
      (x : A) (l : List A)
      → IsSorted before l
      → filter p (insert_sorted before x l)
        ≡ (if p x then insert_sorted before x (filter p l) else filter p l)
  unfolding insert_sorted filter
  filter-insert_sorted x [] h = ground arith
  filter-insert_sorted x (y ∷ ys) (low, h) = elim (Bool-cases (before y x)) [
    | inl after ↦ ground (arith, filter-insert_sorted x ys h)
    | inr here ↦ elim (Bool-cases (p x)) [
      | inr out ↦ ground arith
      | inl kept ↦
          let front = insert_sorted-front x (filter p (y ∷ ys)) λ z m.
            elim ((In-filter p z (y ∷ ys)).0 m).0 [
              | inl e ↦ rw e here
              | inr n ↦ w.negatively_transitive z y x (low z n) here
            ] in
          ground (arith, front)
    ]
  ]

  pub filter-sort : (l : List A) → filter p (sort before l) ≡ sort before (filter p l)
  unfolding sort filter
  filter-sort [] = refl
  filter-sort (x ∷ xs) =
      ground
        (arith, filter-insert_sorted x (sort before xs) (sort-IsSorted before w xs), filter-sort xs)

-- The second comparison decides where the first sees no difference.
module _ {A B : Type 0} (before : B → B → Bool) (w : IsWeakOrder before) (f g : A → B) where
  abbrev pub lexicographic : A → A → Bool
  lexicographic a b = then_by (before (f a) (f b)) (before (f b) (f a)) (before (g a) (g b))

  pub lexicographic-IsWeakOrder : IsWeakOrder lexicographic
  lexicographic-IsWeakOrder = record {
    asym = λ a b h. ground (arith, w.asym (f a) (f b), w.asym (g a) (g b));
    negatively_transitive = λ a b c h k. ground (
      arith,
      w.negatively_transitive (f a) (f b) (f c),
      w.negatively_transitive (f b) (f c) (f a),
      w.negatively_transitive (f c) (f a) (f b),
      w.negatively_transitive (g a) (g b) (g c),
      w.asym (f a) (f b),
      w.asym (f b) (f c),
    );
  }

module _ {A : Type 0} (before : A → A → Bool) where
  length-insert_sorted : (x : A) (l : List A) → length (insert_sorted before x l) ≡ suc (length l)
  unfolding insert_sorted
  length-insert_sorted x [] = refl
  length-insert_sorted x (y ∷ ys) = ground (arith, length-insert_sorted x ys)

  pub length-sort : (l : List A) → length (sort before l) ≡ length l
  unfolding sort
  length-sort [] = refl
  length-sort (x ∷ xs) = length-insert_sorted x (sort before xs) ∙ ap suc (length-sort xs)
