-- ===== src/Kernel/Invariants/Checks.antt =====
-- What the shared checks of the semantic writes accept.
use kotowari.Base.{
  String, List, [], ◌∷◌, Option, none, some, Bool, true, false, ◌≡◌, ◌≢◌, ◌↔◌, inl, inr, refl,
  arith, Result, ok, err, throw_if, In, All, any, lookup, string_eq, Bool-cases,
}
use kotowari.Base.Exec.{Exec, lift, ◌>>=◌, ◌>>◌}
use kotowari.Base.Number.{Number, nan, num_lt, is_nan, integer}
use kotowari.Base.Text.{text_lt, is_blank}
use kotowari.Kernel.Errors.{Failure}
use kotowari.Kernel.Provenance.{
  Provenance, Payload, required_fields, assert_provenance, holds_value, forbidden_cot_keys,
  reject_keys, assert_no_chain_of_thought,
}
use kotowari.Kernel.Invariants.{assert_confidence, assert_bitemporal}

-- There is a provenance, and none of its required fields is blank.
abbrev pub IsComplete : Option Provenance → Type 0
IsComplete none = ⊥
IsComplete (some p) = All (λ field. is_blank field ≡ false) (required_fields p)

-- No forbidden key holds a value.
abbrev pub IsFreeOfThought : Payload → Type 0
IsFreeOfThought payload =
    (key v : String) → In key forbidden_cot_keys → lookup key payload ≢ some (some v)

abbrev pub IsConfidence : Number → Type 0
IsConfidence c = (num_lt c (integer 0) ≡ false) × (num_lt (integer 1) c ≡ false) × (c ≢ nan)

abbrev pub IsWindow : String → Option String → Type 0
IsWindow from to = (end : String) → to ≡ some end → text_lt from end ≡ true

pub assert_provenance_iff :
    (o : Option Provenance) (p : Provenance)
    → (assert_provenance o ≡ ok p) ↔ ((o ≡ some p) × IsComplete o)
unfolding assert_provenance any
assert_provenance_iff none p = (λ h. cc, λ h. cc (h.0))
assert_provenance_iff (some q) p = (λ h. ground arith, λ h. ground arith)

throw_if_iff : (b : Bool) (e : Failure) → (throw_if b e ≡ ok tt) ↔ (b ≡ false)
throw_if_iff b e = ground arith

holds_value_witness :
    (o : Option (Option String)) → holds_value o ≡ true → (v : String) × (o ≡ some (some v))
holds_value_witness none h = cc
holds_value_witness (some none) h = cc
holds_value_witness (some (some v)) h = (v, refl)

reject_keys_iff :
    (keys : List String) (payload : Payload)
    → (reject_keys keys payload ≡ ok tt)
      ↔ ((key v : String) → In key keys → lookup key payload ≢ some (some v))
unfolding reject_keys
reject_keys_iff [] payload = (λ _ key v m. absurd m, λ _. refl)
reject_keys_iff (k ∷ keys) payload =
    let ih = reject_keys_iff keys payload in
    (
      λ h key v m e. elim (Bool-cases (holds_value (lookup k payload))) [
        | inl held ↦ cc (rw (held, reject_keys) at h)
        | inr free ↦ elim m [
          | inl here ↦ ground (arith, here, e, free)
          | inr there ↦ ih.0 (rw (free, reject_keys) at h) key v there e
        ]
      ],
      λ f. elim (Bool-cases (holds_value (lookup k payload))) [
        | inl held ↦
            let (v, e) = holds_value_witness (lookup k payload) held in absurd (f k v (inl refl) e)
        | inr free ↦ rw free (ih.1 (λ key v m. f key v (inr m)))
      ],
    )

pub assert_no_chain_of_thought_iff :
    (payload : Payload) → (assert_no_chain_of_thought payload ≡ ok tt) ↔ IsFreeOfThought payload
unfolding assert_no_chain_of_thought
assert_no_chain_of_thought_iff payload = reject_keys_iff forbidden_cot_keys payload

is_nan_iff : (c : Number) → (is_nan c ≡ true) ↔ (c ≡ nan)
is_nan_iff nan = ground arith
is_nan_iff c = ground arith

pub assert_confidence_iff : (c : Number) → (assert_confidence c ≡ ok tt) ↔ IsConfidence c
unfolding assert_confidence
assert_confidence_iff c = ground (arith, is_nan_iff c)

pub assert_bitemporal_iff :
    (from : String) (to : Option String) → (assert_bitemporal from to ≡ ok tt) ↔ IsWindow from to
unfolding assert_bitemporal
assert_bitemporal_iff from none = (λ _ end e. cc, λ _. refl)
assert_bitemporal_iff from (some to) = (λ h end e. ground arith, λ h. ground (arith, h to refl))

-- The computation returns a value.
abbrev pub Succeeds : {A : Type 0} → Result Failure A → Type 0
Succeeds {A} r = (a : A) × (r ≡ ok a)

sourced-Succeeds : (o : Option Provenance) → Succeeds (assert_provenance o) ↔ IsComplete o
sourced-Succeeds none = (λ h. cc (((assert_provenance_iff none h.0).0 h.1).0), λ h. absurd h)
sourced-Succeeds (some p) = (
  λ h. ((assert_provenance_iff (some p) h.0).0 h.1).1,
  λ k. (p, (assert_provenance_iff (some p) p).1 (refl, k)),
)

module _ {S A : Type 0} where
  pub guarded_iff :
      (r : Result Failure (Unit {0})) (rest : Exec S Failure A) (s : S) {Pass Rest : Type 0}
      → (r ≡ ok tt) ↔ Pass
      → Succeeds (rest s).0 ↔ Rest
      → Succeeds ((lift r >> rest) s).0 ↔ (Pass × Rest)
  guarded_iff (ok x) rest s f g = (λ h. (f.0 refl, g.0 h), λ h. g.1 h.1)
  guarded_iff (err e) rest s f g = (λ h. cc (h.1), λ h. cc (f.1 h.0))

  pub passed_iff :
      {B : Type 0} (r : Result Failure B) (rest : B → Exec S Failure A) (s : S) {Pass Rest : Type 0}
      → Succeeds r ↔ Pass
      → ((b : B) → Succeeds (rest b s).0 ↔ Rest)
      → Succeeds ((lift r >>= rest) s).0 ↔ (Pass × Rest)
  passed_iff (ok b) rest s f g = (λ h. (f.0 (b, refl), (g b).0 h), λ h. (g b).1 h.1)
  passed_iff (err e) rest s f g = (λ h. cc (h.1), λ h. cc ((f.1 h.0).1))

  pub sourced_iff :
      (o : Option Provenance) (rest : Provenance → Exec S Failure A) (s : S) {Rest : Type 0}
      → ((p : Provenance) → Succeeds (rest p s).0 ↔ Rest)
      → Succeeds ((lift (assert_provenance o) >>= rest) s).0 ↔ (IsComplete o × Rest)
  sourced_iff o rest s g = passed_iff (assert_provenance o) rest s (sourced-Succeeds o) g
