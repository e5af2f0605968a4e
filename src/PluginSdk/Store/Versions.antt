-- ===== src/PluginSdk/Store/Versions.antt =====
-- The versions of a claim, and the invariant of the claim maps (`rememberCurrentClaim`).
use kotowari.Base.{
  String, List, [], ◌∷◌, ◌++◌, none, some, ◌≡◌, ◌≢◌, refl, sym, arith, string_eq, ==_iff, ==_self,
  get_or, All, Option-cases, Dict, lookup, insert, lookup-insert, HasDistinctKeys, inl, inr,
}
use kotowari.Kernel.Claim.{Claim}
use kotowari.PluginSdk.Store.{Store, assert_claim, retract_claim, versions_of}

-- Two claims stand in one tenant and one namespace.
abbrev pub SameScope : Claim → Claim → Type 0
SameScope a b = (a.tenant_id ≡ b.tenant_id) × (a.namespace_id ≡ b.namespace_id)

-- The invariant of the claim maps: each claim stands under its id, no id stands twice, there is no
-- history without a claim, and the versions of a claim share its scope.
pub record IsConsistent (s : Store) : Type 0 where
  pub keyed : All (λ (b : String × Claim). b.1.id ≡ b.0) s.claims
  pub distinct : HasDistinctKeys s.claims
  pub no_orphans : (k : String) → lookup k s.claims ≡ none → lookup k s.claim_history ≡ none
  pub scoped :
      (k : String) (c : Claim)
      → lookup k s.claims ≡ some c
      → All (SameScope c) (get_or (lookup k s.claim_history) [])

-- A version that may be written over the one that is there.
abbrev pub FitsScope : Claim → Store → Type 0
FitsScope c s = (old : Claim) → lookup c.id s.claims ≡ some old → SameScope old c

-- The two writers do the same to the maps.
pub retract-eq-assert : (c : Claim) (s : Store) → retract_claim c s ≡ assert_claim c s
unfolding retract_claim assert_claim
retract-eq-assert c s = refl

abbrev pub history_of : Store → String → List Claim
history_of s k = get_or (lookup k s.claim_history) []

module _ (c : Claim) (s : Store) where
  pub history-assert_other :
      (k : String) → c.id ≢ k → lookup k (assert_claim c s).claim_history ≡ lookup k s.claim_history
  unfolding assert_claim
  history-assert_other k ne = elim (Option-cases (lookup c.id s.claims)) [
    | inl new ↦ ground arith
    | inr (old, e) ↦
        ground (
          arith,
          lookup-insert c.id k (history_of s c.id ++ old ∷ []) s.claim_history,
          ==_iff c.id k,
        )
  ]

  pub history-assert_old :
      (old : Claim)
      → lookup c.id s.claims ≡ some old
      → lookup c.id (assert_claim c s).claim_history ≡ some (history_of s c.id ++ old ∷ [])
  unfolding assert_claim
  history-assert_old old e =
      ground (
        arith,
        lookup-insert c.id c.id (history_of s c.id ++ old ∷ []) s.claim_history,
        ==_self c.id,
      )

  pub history-assert_new :
      lookup c.id s.claims ≡ none → (assert_claim c s).claim_history ≡ s.claim_history
  unfolding assert_claim
  history-assert_new e = ground arith

pub claims-assert : (c : Claim) (s : Store) → (assert_claim c s).claims ≡ insert c.id c s.claims
unfolding assert_claim
claims-assert c s = ground arith

-- The versions of a claim after a write: those of its id gain the new one.
module _ (c : Claim) (s : Store) where
  pub versions-assert_other :
      (x : Claim) → x.id ≢ c.id → versions_of (assert_claim c s) x ≡ versions_of s x
  versions-assert_other x ne = rw (history-assert_other c s x.id (λ e. ne (sym e)))

  pub versions-assert_old :
      (old : Claim)
      → lookup c.id s.claims ≡ some old
      → old.id ≡ c.id
      → versions_of (assert_claim c s) c ≡ versions_of s old ++ c ∷ []
  versions-assert_old old e same = rw (history-assert_old c s old e, same)

  pub versions-assert_new :
      lookup c.id s.claims ≡ none
      → lookup c.id s.claim_history ≡ none
      → versions_of (assert_claim c s) c ≡ c ∷ []
  versions-assert_new e none_yet = rw (history-assert_new c s e, none_yet)

pub id_of_lookup :
    (m : Dict String Claim) (k : String) (c : Claim)
    → All (λ b. b.1.id ≡ b.0) m
    → lookup k m ≡ some c
    → c.id ≡ k
unfolding lookup
id_of_lookup [] k c keyed e = cc
id_of_lookup ((j, x) ∷ m) k c (here, keyed) e = ground (arith, ==_iff j k, id_of_lookup m k c keyed)
