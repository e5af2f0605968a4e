-- ===== src/PluginSdk/Store/Answers.antt =====
-- What `listClaims` returns.
use mathlib.Core.Path.{subst}
use kotowari.Base.{
  String, List, [], ◌∷◌, Option, none, some, Bool, true, false, not, ◌≡◌, inl, inr, refl, sym, ap,
  ◌∙◌, arith, string_eq, ◌==◌, ==_iff, filter, In, In-filter, In-append, All, All-In, Bool-cases,
  Dict, lookup, values, HasDistinctKeys, if◌then◌else◌,
}
use kotowari.Base.Sorting.{IsWeakOrder, get_last?-sort, get_last?-In}
use kotowari.Base.Text.{text_lt, text_le}
use kotowari.Kernel.Metadata.{ScopedMetadata, TemporalPerspective, normalize_temporal_perspective}
use kotowari.Kernel.Claim.{Claim, claim_visible_at}
use kotowari.PluginSdk.Store.Versions.{SameScope, IsConsistent, history_of}
use kotowari.PluginSdk.Store.{
  Store, ClaimReadFilter, in_scope, versions_of, recorded_before, latest_claim_known_at,
  visible_version, listed, collect, list_claims,
}

-- What a read answers with: a version of a stored claim in the scope asked for, visible at the
-- perspective asked for; as of a knowledge time, no version known then comes after it.
pub record IsAnswer (collate : String → String → Bool) (wanted : ClaimReadFilter) (s : Store)
    (x : Claim) : Type 0 where
  pub current : Claim
  pub stored : In current (values s.claims)
  pub version : In x (versions_of s current)
  pub tenant : x.tenant_id ≡ wanted.tenant_id
  pub namespace : (n : String) → wanted.namespace_id ≡ some n → x.namespace_id ≡ n
  pub visible :
      claim_visible_at x (normalize_temporal_perspective wanted.temporal wanted.as_of) ≡ true
  pub latest :
      (at : String)
      → (normalize_temporal_perspective wanted.temporal wanted.as_of).known_at ≡ some at
      → (v : Claim) → In v (versions_of s current)
      → text_lt at v.bitemporal.recorded_at ≡ false
      → collate x.bitemporal.recorded_at v.bitemporal.recorded_at ≡ false

In-collect :
    (f : Claim → List Claim) (x : Claim) (l : List Claim)
    → In x (collect f l)
    → (y : Claim) × In y l × In x (f y)
unfolding collect
In-collect f x [] m = absurd m
In-collect f x (y ∷ l) m = elim ((In-append x (f y) (collect f l)).0 m) [
  | inl here ↦ (y, inl refl, here)
  | inr there ↦ let (z, n, k) = In-collect f x l there in (z, inr n, k)
]

module _ (collate : String → String → Bool) (order : IsWeakOrder collate) where
  by_recording : IsWeakOrder (recorded_before collate)
  by_recording = record {
    asym = λ a b. order.asym a.bitemporal.recorded_at b.bitemporal.recorded_at;
    negatively_transitive = λ a b c.
        order.negatively_transitive a.bitemporal.recorded_at b.bitemporal.recorded_at
          c.bitemporal.recorded_at;
  }

  -- The version that is picked stands among the versions, and is the last of those known.
  latest-In :
      (versions : List Claim) (o : Option String) (x : Claim)
      → latest_claim_known_at collate versions o ≡ some x
      → In x versions
        × ((at : String)
            → o ≡ some at
            → (v : Claim) → In v versions
            → text_lt at v.bitemporal.recorded_at ≡ false
            → collate x.bitemporal.recorded_at v.bitemporal.recorded_at ≡ false)
  unfolding latest_claim_known_at
  latest-In versions none x e = (get_last?-In versions x e, λ at f. cc)
  latest-In versions (some at) x e =
      let known = λ (v : Claim). text_le v.bitemporal.recorded_at at in
      let (m, last) =
        get_last?-sort (recorded_before collate) by_recording (filter known versions) x e in
      (
        ((In-filter known x versions).0 m).0,
        λ at' same v n le. last v ((In-filter known v versions).1 (n, ground arith)),
      )

lookup_of_In :
    (m : Dict String Claim) (c : Claim)
    → All (λ b. b.1.id ≡ b.0) m
    → HasDistinctKeys m
    → In c (values m)
    → lookup c.id m ≡ some c
unfolding lookup values
lookup_of_In [] c keyed distinct n = absurd n
lookup_of_In ((k, x) ∷ m) c (here, keyed) (fresh, distinct) (inl e) = ground (arith, ==_iff k c.id)
lookup_of_In ((k, x) ∷ m) c (here, keyed) (fresh, distinct) (inr n) =
    let found = lookup_of_In m c keyed distinct n in
    elim (Bool-cases (k == c.id)) [
      | inl same ↦ cc (subst (λ i. lookup i m ≡ none) ((==_iff k c.id).0 same) fresh, found)
      | inr other ↦ rw other found
    ]

in_scope_parts :
    (m : ScopedMetadata) (tenant : String) (namespace : Option String)
    → in_scope m tenant namespace ≡ true
    → (m.tenant_id ≡ tenant) × ((n : String) → namespace ≡ some n → m.namespace_id ≡ n)
in_scope_parts m tenant none h = (ground (arith, ==_iff m.tenant_id tenant), λ n e. cc)
in_scope_parts m tenant (some k) h =
    (ground (arith, ==_iff m.tenant_id tenant), λ n e. ground (arith, ==_iff m.namespace_id k))

visible_version_parts :
    (temporal : TemporalPerspective) (o : Option Claim) (x : Claim)
    → In x (visible_version temporal o)
    → (o ≡ some x) × (claim_visible_at x temporal ≡ true)
visible_version_parts temporal none x m = absurd m
visible_version_parts temporal (some y) x m = elim (Bool-cases (claim_visible_at y temporal)) [
  | inl seen ↦ elim (rw seen at m) [ inl e ↦ (ap some (sym e), rw e seen) | inr n ↦ absurd n ]
  | inr unseen ↦ absurd (rw unseen at m)
]

show_parts :
    (b : Bool) (o : Option Claim) (x : Claim) (temporal : TemporalPerspective)
    → In x (if not b then [] else visible_version temporal o)
    → (b ≡ true) × (o ≡ some x) × (claim_visible_at x temporal ≡ true)
show_parts true o x temporal m =
    let (picked, seen) = visible_version_parts temporal o x m in (refl, picked, seen)
show_parts false o x temporal m = absurd m

-- What is listed of a claim is the version that is picked, in scope and visible.
listed_parts :
    (collate : String → String → Bool) (wanted : ClaimReadFilter) (temporal : TemporalPerspective)
    (s : Store) (current x : Claim)
    → In x (listed collate wanted temporal s current)
    → (in_scope current.metadata wanted.tenant_id wanted.namespace_id ≡ true)
      × (latest_claim_known_at collate (versions_of s current) temporal.known_at ≡ some x)
      × (claim_visible_at x temporal ≡ true)
listed_parts collate wanted temporal s current x m =
    show_parts (in_scope current.metadata wanted.tenant_id wanted.namespace_id)
      (latest_claim_known_at collate (versions_of s current) temporal.known_at) x temporal m

module _ (collate : String → String → Bool) (order : IsWeakOrder collate) (s : Store)
    (inv : IsConsistent s) where
  version-SameScope :
      (current x : Claim)
      → In current (values s.claims)
      → In x (versions_of s current)
      → SameScope current x
  version-SameScope current x stored v =
      let found = lookup_of_In s.claims current inv.keyed inv.distinct stored in
      elim ((In-append x (history_of s current.id) (current ∷ [])).0 v) [
        | inl old ↦ All-In (SameScope current) _ (inv.scoped current.id current found) x old
        | inr (inl e) ↦ rw e (refl, refl)
        | inr (inr none_left) ↦ absurd none_left
      ]

  -- In a consistent store, a claim that `listClaims` returns is a version of a stored claim in the
  -- tenant and the namespace asked for, and visible at the perspective asked for; and as of a
  -- knowledge time no version that was known then comes after it, in the collation's order.
  pub list_claims-IsAnswer :
      (wanted : ClaimReadFilter) (x : Claim)
      → In x (list_claims collate wanted s)
      → IsAnswer collate wanted s x
  unfolding list_claims
  list_claims-IsAnswer wanted x m =
      let temporal = normalize_temporal_perspective wanted.temporal wanted.as_of in
      let (current, stored, n) =
        In-collect (listed collate wanted temporal s) x (values s.claims) m in
      let (scoped, picked, visible) = listed_parts collate wanted temporal s current x n in
      let (version, latest) =
        latest-In collate order (versions_of s current) temporal.known_at x picked in
      let same = version-SameScope current x stored version in
      record {
        current = current;
        stored = stored;
        version = version;
        tenant = sym same.0 ∙ (in_scope_parts current.metadata _ _ scoped).0;
        namespace = λ k e.
            sym same.1 ∙ (in_scope_parts current.metadata _ wanted.namespace_id scoped).1 k e;
        visible = visible;
        latest = latest;
      }
