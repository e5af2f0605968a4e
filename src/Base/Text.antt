-- ===== src/Base/Text.antt =====
-- JavaScript's order on strings, which compares UTF-16 code units, and `trim`.
-- A native text has no lone surrogates; otherwise it is a JavaScript string.
use Prim.Native.Nat.{ℕ, ◌+◌, ◌-◌, ◌/◌, ◌%◌, compare, Ordering}
use Prim.Native.Char.{Char, code}
use Prim.Native.String
use Prim.Native.String.{String}
use mathlib.Core.Path.{◌≡◌, refl}
use mathlib.Core.Bool.{Bool, true, false, not, ◌&&◌, ◌||◌}
use mathlib.Core.List.{List, [], ◌∷◌}
use native.Mathlib.Omega.{arith}
use kotowari.Base.Tests.{ltb, leb, nat_eq, if◌then◌else◌}

-- The UTF-16 code units of a text.
abbrev pub units : String → List ℕ
units String.[] = []
units (String.◌∷◌ c s) =
    let n = code c in
    if ltb n 0x10000
    then n ∷ units s
    else (0xd800 + (n - 0x10000) / 0x400) ∷ (0xdc00 + (n - 0x10000) % 0x400) ∷ units s

pub lex_lt : List ℕ → List ℕ → Bool
lex_lt xs [] = false
lex_lt [] (y ∷ ys) = true
lex_lt (x ∷ xs) (y ∷ ys) = elim (compare x y) [
  | Ordering.lt ↦ true
  | Ordering.eq ↦ lex_lt xs ys
  | Ordering.gt ↦ false
]

-- `a < b`
unfoldable pub text_lt : String → String → Bool
unfolding lex_lt
text_lt a b = lex_lt (units a) (units b)

-- `a <= b`
abbrev pub text_le : String → String → Bool
text_le a b = not (text_lt b a)

lex_lt_irrefl : (xs : List ℕ) → lex_lt xs xs ≡ false
unfolding lex_lt
lex_lt_irrefl [] = refl
lex_lt_irrefl (x ∷ xs) = ground (arith, lex_lt_irrefl xs)

lex_lt_trans : (xs ys zs : List ℕ) → lex_lt xs ys ≡ true → lex_lt ys zs ≡ true → lex_lt xs zs ≡ true
unfolding lex_lt
lex_lt_trans xs ys [] h k = cc
lex_lt_trans [] ys (z ∷ zs) h k = refl
lex_lt_trans (x ∷ xs) [] (z ∷ zs) h k = cc
lex_lt_trans (x ∷ xs) (y ∷ ys) (z ∷ zs) h k = ground (arith, lex_lt_trans xs ys zs)

-- What is not below is at least: `y < z` and `y` not below `x` put `x` below `z`.
lex_le_lt_trans :
    (xs ys zs : List ℕ) → lex_lt ys xs ≡ false → lex_lt ys zs ≡ true → lex_lt xs zs ≡ true
unfolding lex_lt
lex_le_lt_trans xs ys [] h k = cc
lex_le_lt_trans [] ys (z ∷ zs) h k = refl
lex_le_lt_trans (x ∷ xs) [] (z ∷ zs) h k = cc
lex_le_lt_trans (x ∷ xs) (y ∷ ys) (z ∷ zs) h k = ground (arith, lex_le_lt_trans xs ys zs)

lex_lt_le_trans :
    (xs ys zs : List ℕ) → lex_lt xs ys ≡ true → lex_lt zs ys ≡ false → lex_lt xs zs ≡ true
unfolding lex_lt
lex_lt_le_trans xs [] zs h k = cc
lex_lt_le_trans xs (y ∷ ys) [] h k = cc
lex_lt_le_trans [] (y ∷ ys) (z ∷ zs) h k = refl
lex_lt_le_trans (x ∷ xs) (y ∷ ys) (z ∷ zs) h k = ground (arith, lex_lt_le_trans xs ys zs)

pub text_lt_irrefl : (a : String) → text_lt a a ≡ false
unfolding text_lt
text_lt_irrefl a = lex_lt_irrefl (units a)

pub text_lt_trans : (a b c : String) → text_lt a b ≡ true → text_lt b c ≡ true → text_lt a c ≡ true
unfolding text_lt
text_lt_trans a b c = lex_lt_trans (units a) (units b) (units c)

pub text_le_lt_trans :
    (a b c : String) → text_lt b a ≡ false → text_lt b c ≡ true → text_lt a c ≡ true
unfolding text_lt
text_le_lt_trans a b c = lex_le_lt_trans (units a) (units b) (units c)

pub text_lt_le_trans :
    (a b c : String) → text_lt a b ≡ true → text_lt c b ≡ false → text_lt a c ≡ true
unfolding text_lt
text_lt_le_trans a b c = lex_lt_le_trans (units a) (units b) (units c)

pub text_lt_asym : (a b : String) → text_lt a b ≡ true → text_lt b a ≡ false
text_lt_asym a b h = ground (arith, text_lt_trans a b a, text_lt_irrefl a)

-- White space and line terminators, which `trim` removes.
pub is_space : ℕ → Bool
is_space c =
    nat_eq c 32
    || leb 9 c && leb c 13
    || nat_eq c 0xa0
    || nat_eq c 0x1680
    || leb 0x2000 c && leb c 0x200a
    || nat_eq c 0x2028
    || nat_eq c 0x2029
    || nat_eq c 0x202f
    || nat_eq c 0x205f
    || nat_eq c 0x3000
    || nat_eq c 0xfeff

-- `s.trim().length === 0`
unfoldable pub is_blank : String → Bool
unfolding is_space
is_blank String.[] = true
is_blank (String.◌∷◌ c s) = is_space (code c) && is_blank s

pub trim_start : String → String
trim_start String.[] = ""
trim_start (String.◌∷◌ c s) =
    let rest = trim_start s in if is_space (code c) then rest else String.◌∷◌ c s

pub trim_end : String → String
trim_end String.[] = ""
trim_end (String.◌∷◌ c s) =
    let rest = trim_end s in if is_space (code c) && is_blank s then "" else String.◌∷◌ c rest

unfoldable pub trim : String → String
unfolding trim_start trim_end is_space is_blank
trim s = trim_start (trim_end s)

-- `s.replaceAll(run, ' ')`, for the runs of the characters that `p` holds of.
unfoldable pub replace_runs : (ℕ → Bool) → Bool → String → String
replace_runs p inside String.[] = ""
replace_runs p inside (String.◌∷◌ c s) =
    let rest = replace_runs p (p (code c)) s in
    if p (code c) then (if inside then rest else String.◌++◌ " " rest) else String.◌∷◌ c rest

-- `s.split(' ')`
abbrev pub prepend : Char → List String → List String
prepend c [] = String.◌∷◌ c "" ∷ []
prepend c (word ∷ words) = String.◌∷◌ c word ∷ words

unfoldable pub split_spaces : String → List String
split_spaces String.[] = "" ∷ []
split_spaces (String.◌∷◌ c s) =
    let rest = split_spaces s in if nat_eq (code c) 32 then "" ∷ rest else prepend c rest

-- `s.startsWith(t)`
unfoldable pub starts_with : String → String → Bool
starts_with s String.[] = true
starts_with String.[] (String.◌∷◌ c t) = false
starts_with (String.◌∷◌ b s) (String.◌∷◌ c t) = nat_eq (code b) (code c) && starts_with s t

-- `s.includes(t)`
unfoldable pub includes_text : String → String → Bool
unfolding starts_with
includes_text String.[] t = starts_with "" t
includes_text (String.◌∷◌ c s) t = starts_with (String.◌∷◌ c s) t || includes_text s t

-- `xs.join(separator)`
unfoldable pub join : String → List String → String
join separator [] = ""
join separator (x ∷ []) = x
join separator (x ∷ y ∷ xs) = String.◌++◌ x (String.◌++◌ separator (join separator (y ∷ xs)))

order_test : text_lt "2026-01-01T00:00:00.000Z" "2026-01-02T00:00:00.000Z" ≡ true
unfolding text_lt
order_test = refl

trim_test : trim "  a b " ≡ "a b"
unfolding trim
trim_test = refl
