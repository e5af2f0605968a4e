-- ===== src/Base/Slices.antt =====
-- `xs.slice(0, end)` for any number `end`.
use Prim.Native.Nat.{ℕ, zero, suc, ◌-◌, ◌/◌, ◌≤◌}
use mathlib.Core.Path.{◌≡◌, refl}
use mathlib.Core.Logic.{inl, inr}
use mathlib.Core.List.{List, [], ◌∷◌}
use native.Mathlib.Omega.{arith}
use kotowari.Base.Lists.{length, take, In}
use kotowari.Base.Number.{Number, nan, neg_infinity, pos_infinity, pos, neg}

-- Where the slice of a list of that length ends: `end` without its fraction, counted from the end of
-- the list where it is negative; NaN is 0.
abbrev pub slice_end : ℕ → Number → ℕ
slice_end size nan = 0
slice_end size neg_infinity = 0
slice_end size pos_infinity = size
slice_end size (pos num den) = num / suc den
slice_end size (neg num den) = size - num / suc den

unfoldable pub slice_to {ℓ} : {A : Type ℓ} → Number → List A → List A
slice_to end l = take (slice_end (length l) end) l

take-In : {A : Type 0} (n : ℕ) (x : A) (l : List A) → In x (take n l) → In x l
take-In zero x l m = absurd m
take-In (suc n) x [] m = m
take-In (suc n) x (y ∷ l) (inl e) = inl e
take-In (suc n) x (y ∷ l) (inr m) = inr (take-In n x l m)

length-take :
    {A : Type 0} (n : ℕ) (l : List A) → (length (take n l) ≤ n) × (length (take n l) ≤ length l)
unfolding length
length-take zero l = (omega arith, omega arith)
length-take (suc n) [] = (omega arith, omega arith)
length-take (suc n) (y ∷ l) = let h = length-take n l in (omega arith, omega arith)

pub slice_to-In : {A : Type 0} (end : Number) (x : A) (l : List A) → In x (slice_to end l) → In x l
unfolding slice_to
slice_to-In end x l m = take-In (slice_end (length l) end) x l m

-- How long a slice of a list of at most `most` elements may be.
abbrev pub IsWithin : Number → ℕ → ℕ → Type 0
IsWithin nan most n = n ≡ 0
IsWithin neg_infinity most n = n ≡ 0
IsWithin pos_infinity most n = n ≤ most
IsWithin (pos num den) most n = (n ≤ num / suc den) × (n ≤ most)
IsWithin (neg num den) most n = n ≤ most - num / suc den

pub slice_to-IsWithin :
    {A : Type 0} (end : Number) (most : ℕ) (l : List A)
    → length l ≤ most
    → IsWithin end most (length (slice_to end l))
unfolding slice_to length
slice_to-IsWithin nan most l h = let k = length-take 0 l in omega arith
slice_to-IsWithin neg_infinity most l h = let k = length-take 0 l in omega arith
slice_to-IsWithin pos_infinity most l h = let k = length-take (length l) l in omega arith
slice_to-IsWithin (pos num den) most l h =
    let (short, held) = length-take (num / suc den) l in (short, omega arith)
slice_to-IsWithin (neg num den) most l h =
    let (short, held) = length-take (length l - num / suc den) l in omega arith

pub nil-IsWithin : (end : Number) (most : ℕ) → IsWithin end most 0
nil-IsWithin nan most = refl
nil-IsWithin neg_infinity most = refl
nil-IsWithin pos_infinity most = omega arith
nil-IsWithin (pos num den) most = (omega arith, omega arith)
nil-IsWithin (neg num den) most = omega arith
