-- ===== src/Base/Number.antt =====
-- JavaScript numbers as far as the program compares them. A finite double is the exact fraction
-- num / (den + 1) with its sign; -0 and 0 are one value, which `<` and `===` do not tell apart.
use Prim.Native.Nat.{◌%◌, ℕ, suc, ◌+◌, ◌*◌}
use mathlib.Core.Bool.{Bool, true, false, not, ◌||◌}
use kotowari.Base.Tests.{nat_eq, ltb}

pub data Number : Type 0 where
  nan : Number
  neg_infinity : Number
  pos_infinity : Number
  pos : (num den : ℕ) → Number
  neg : (num den : ℕ) → Number

abbrev pub integer : ℕ → Number
integer n = pos n 0

-- `Number.isNaN(x)`
abbrev pub is_nan : Number → Bool
is_nan nan = true
is_nan _ = false

-- `x < y`, false where either is NaN.
unfoldable pub num_lt : Number → Number → Bool
num_lt nan y = false
num_lt neg_infinity nan = false
num_lt neg_infinity neg_infinity = false
num_lt neg_infinity _ = true
num_lt pos_infinity y = false
num_lt (pos a b) nan = false
num_lt (pos a b) neg_infinity = false
num_lt (pos a b) pos_infinity = true
num_lt (pos a b) (pos c d) = ltb (a * suc d) (c * suc b)
num_lt (pos a b) (neg c d) = false
num_lt (neg a b) nan = false
num_lt (neg a b) neg_infinity = false
num_lt (neg a b) pos_infinity = true
num_lt (neg a b) (pos c d) = ltb 0 (a * suc d + c * suc b)
num_lt (neg a b) (neg c d) = ltb (c * suc b) (a * suc d)

-- `x === y`, false where either is NaN.
abbrev pub num_eq : Number → Number → Bool
num_eq x y = not (is_nan x || is_nan y || num_lt x y || num_lt y x)

-- `x <= y`, false where either is NaN.
abbrev pub num_le : Number → Number → Bool
num_le x y = not (is_nan x || is_nan y || num_lt y x)

-- `Number.isInteger(x)`
abbrev pub is_integer : Number → Bool
is_integer (pos num den) = nat_eq (num % suc den) 0
is_integer (neg num den) = nat_eq (num % suc den) 0
is_integer _ = false
