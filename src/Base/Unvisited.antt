-- ===== src/Base/Unvisited.antt =====
-- The measure of a walk along a dictionary that marks what it has seen: each new mark makes it less.
use Prim.Native.Nat.{ℕ, ◌+◌, ◌≤◌, ◌<◌}
use Prim.Native.String.{String}
use mathlib.Core.Path.{◌≡◌, refl}
use mathlib.Core.Bool.{false}
use mathlib.Core.Option.{some}
use mathlib.Core.List.{List, [], ◌∷◌}
use native.Mathlib.Omega.{arith}
use kotowari.Base.Tests.{if◌then◌else◌}
use kotowari.Base.Equality.{string_eq, ==_iff}
use kotowari.Base.Lists.{includes, length}
use kotowari.Base.Maps.{Dict, lookup}

-- How many entries have a key that is not seen yet.
abbrev pub unvisited : {V : Type 0} → List String → Dict String V → ℕ
unvisited seen [] = 0
unvisited seen ((k, v) ∷ d) = (if includes seen k then 0 else 1) + unvisited seen d

unvisited-le :
    {V : Type 0} (x : String) (seen : List String) (d : Dict String V)
    → unvisited (x ∷ seen) d ≤ unvisited seen d
unfolding includes
unvisited-le x seen [] = omega arith
unvisited-le x seen ((k, v) ∷ d) = ground (arith, unvisited-le x seen d)

pub unvisited-lt :
    {V : Type 0} (x : String) (y : V) (seen : List String) (d : Dict String V)
    → lookup x d ≡ some y
    → includes seen x ≡ false
    → unvisited (x ∷ seen) d < unvisited seen d
unfolding includes lookup
unvisited-lt x y seen [] h new = cc
unvisited-lt x y seen ((k, v) ∷ d) h new =
    ground (arith, ==_iff k x, ==_iff x k, unvisited-le x seen d, unvisited-lt x y seen d)

pub unvisited-nil : {V : Type 0} (d : Dict String V) → unvisited [] d ≡ length d
unfolding includes
unvisited-nil [] = refl
unvisited-nil ((k, v) ∷ d) = omega (arith, unvisited-nil d)
