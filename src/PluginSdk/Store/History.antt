-- ===== src/PluginSdk/Store/History.antt =====
-- Reads of the past: `listClaims` of packages/plugin-sdk/src/fakes/memory-store.ts as of an instant.
use mathlib.Core.List.{append-nil}
use mathlib.Core.Path.{ap₂, subst}
use kotowari.Base.{
  String, List, [], ◌∷◌, ◌++◌, none, some, Bool, true, false, not, ◌≡◌, ◌≢◌, inl, inr, refl, ap,
  ◌∙◌, arith, string_eq, ◌==◌, ==_iff, filter, get_last?, filter-append, All, Bool-cases, Dict,
  lookup, insert, values, HasDistinctKeys, if◌then◌else◌,
}
use kotowari.Base.Sorting.{sort}
use kotowari.Base.Text.{text_lt, text_le}
use kotowari.Kernel.Metadata.{ScopedMetadata, TemporalPerspective, normalize_temporal_perspective}
use kotowari.Kernel.Claim.{Claim}
use kotowari.PluginSdk.Store.Versions.{
  SameScope, IsConsistent, FitsScope, claims-assert, versions-assert_other, versions-assert_old,
  versions-assert_new, id_of_lookup,
}
use kotowari.PluginSdk.Store.{
  Store, ClaimReadFilter, in_scope, assert_claim, versions_of, recorded_before,
  latest_claim_known_at, visible_version, listed, collect, list_claims,
}

-- A version that is recorded later does not change what was known.
append-drop :
    (p : Claim → Bool) (xs : List Claim) (c : Claim) → p c ≡ false → xs ++ filter p (c ∷ []) ≡ xs
unfolding filter
append-drop p xs c e = rw (e, append-nil)

latest-append :
    (collate : String → String → Bool) (versions : List Claim) (c : Claim) (at : String)
    → text_lt at c.bitemporal.recorded_at ≡ true
    → latest_claim_known_at collate (versions ++ c ∷ []) (some at)
      ≡ latest_claim_known_at collate versions (some at)
unfolding latest_claim_known_at
latest-append collate versions c at later =
    ap (λ l. get_last? (sort (recorded_before collate) l))
      (filter-append (λ x. text_le x.bitemporal.recorded_at at) versions (c ∷ [])
        ∙ append-drop (λ x. text_le x.bitemporal.recorded_at at) _ c (ground arith))

-- The claims of a map, listed one after the other, when one of them is written.
module _ (g g' : Claim → List Claim) (c : Claim)
    (others : (x : Claim) → x.id ≢ c.id → g' x ≡ g x) where
  collect-others :
      (m : Dict String Claim)
      → All (λ b. b.1.id ≡ b.0) m
      → lookup c.id m ≡ none
      → collect g' (values m) ≡ collect g (values m)
  unfolding collect values lookup
  collect-others [] keyed absent = refl
  collect-others ((k, x) ∷ m) (here, keyed) absent =
      ap₂ ◌++◌ (others x (λ e. ground (arith, ==_iff k c.id)))
        (collect-others m keyed (ground arith))

  collect-insert :
      (m : Dict String Claim)
      → All (λ b. b.1.id ≡ b.0) m
      → HasDistinctKeys m
      → ((old : Claim) → lookup c.id m ≡ some old → g' c ≡ g old)
      → (lookup c.id m ≡ none → g' c ≡ [])
      → collect g' (values (insert c.id c m)) ≡ collect g (values m)
  unfolding collect values lookup insert
  collect-insert [] keyed distinct over new = rw (new refl)
  collect-insert ((k, x) ∷ m) (here, keyed) (fresh, distinct) over new =
      elim (Bool-cases (k == c.id)) [
        | inl same ↦ rw same (
            ap₂ ◌++◌ (over x (rw same)) (
              collect-others m keyed
                (subst (λ i. lookup i m ≡ none) ((==_iff k c.id).0 same) fresh)))
        | inr other ↦ rw other (
            ap₂ ◌++◌ (others x (λ e. ground (arith, ==_iff k c.id))) (
              collect-insert m keyed distinct (λ old e. over old (rw other e))
                (λ e. new (rw other e))))
      ]

-- What a read shows of a claim, by its scope and its versions.
abbrev shown :
    (String → String → Bool)
    → ClaimReadFilter
    → TemporalPerspective
    → ScopedMetadata
    → List Claim
    → List Claim
shown collate wanted temporal metadata versions =
    if not (in_scope metadata wanted.tenant_id wanted.namespace_id)
    then []
    else visible_version temporal (latest_claim_known_at collate versions temporal.known_at)

module _ (collate : String → String → Bool) (wanted : ClaimReadFilter)
    (temporal : TemporalPerspective) where
  shown-scope :
      (c old : Claim) (versions : List Claim)
      → SameScope old c
      → shown collate wanted temporal c.metadata versions
        ≡ shown collate wanted temporal old.metadata versions
  shown-scope c old versions (tenant, namespace) = rw (tenant, namespace)

  module _ (at : String) (asked : temporal.known_at ≡ some at) where
    shown-later :
        (m : ScopedMetadata) (versions : List Claim) (c : Claim)
        → text_lt at c.bitemporal.recorded_at ≡ true
        → shown collate wanted temporal m (versions ++ c ∷ [])
          ≡ shown collate wanted temporal m versions
    shown-later m versions c later =
        ap
          (λ o.
            if not (in_scope m wanted.tenant_id wanted.namespace_id)
            then []
            else visible_version temporal o)
          (rw asked (latest-append collate versions c at later))

    shown-nil : (m : ScopedMetadata) → shown collate wanted temporal m [] ≡ []
    unfolding latest_claim_known_at filter sort
    shown-nil m = ground arith

-- In a consistent store, a version that is recorded after the knowledge time of a read, in the
-- scope of the claim's earlier versions, does not change what the read returns.
pub list_claims-assert_claim_later :
    (collate : String → String → Bool) (wanted : ClaimReadFilter) (c : Claim) (s : Store)
    (at : String)
    → IsConsistent s
    → FitsScope c s
    → (normalize_temporal_perspective wanted.temporal wanted.as_of).known_at ≡ some at
    → text_lt at c.bitemporal.recorded_at ≡ true
    → list_claims collate wanted (assert_claim c s) ≡ list_claims collate wanted s
unfolding list_claims
list_claims-assert_claim_later collate wanted c s at inv fits asked later =
    let temporal = normalize_temporal_perspective wanted.temporal wanted.as_of in
    rw (claims-assert c s) (
      collect-insert (listed collate wanted temporal s)
        (listed collate wanted temporal (assert_claim c s)) c
        (λ x ne. ap (shown collate wanted temporal x.metadata) (versions-assert_other c s x ne))
        s.claims inv.keyed inv.distinct
        (λ old e.
          ap (shown collate wanted temporal c.metadata)
            (versions-assert_old c s old e (id_of_lookup s.claims c.id old inv.keyed e))
          ∙ shown-later collate wanted temporal at asked c.metadata (versions_of s old) c later
          ∙ shown-scope collate wanted temporal c old (versions_of s old) (fits old e))
        (λ e.
          ap (shown collate wanted temporal c.metadata)
            (versions-assert_new c s e (inv.no_orphans c.id e))
          ∙ shown-later collate wanted temporal at asked c.metadata [] c later
          ∙ shown-nil collate wanted temporal at asked c.metadata))
