-- ===== src/PluginSdk/Store/Consistency.antt =====
-- The writers of claims keep the invariant of the claim maps.
use mathlib.Core.Path.{subst}
use kotowari.Base.{
  String, List, [], ◌∷◌, ◌++◌, Option, none, some, ◌≡◌, inl, inr, refl, sym, ◌∙◌, arith, string_eq,
  ◌==◌, ==_iff, All, Bool-cases, Dict, lookup, insert, lookup-insert, insert-HasDistinctKeys,
  if◌then◌else◌,
}
use kotowari.Kernel.Claim.{Claim}
use kotowari.PluginSdk.Store.Versions.{
  SameScope, IsConsistent, FitsScope, history_of, claims-assert, history-assert_other,
  history-assert_old, history-assert_new,
}
use kotowari.PluginSdk.Store.{Store, assert_claim, empty_store}

keyed-insert :
    (c : Claim) (m : Dict String Claim)
    → All (λ b. b.1.id ≡ b.0) m
    → All (λ b. b.1.id ≡ b.0) (insert c.id c m)
unfolding insert
keyed-insert c [] h = (refl, tt)
keyed-insert c ((k, x) ∷ m) (here, h) = ground (arith, keyed-insert c m, ==_iff k c.id)

All-concat :
    (P : Claim → Type 0) (xs : List Claim) (x : Claim) → All P xs → P x → All P (xs ++ x ∷ [])
All-concat P [] x h p = (p, tt)
All-concat P (y ∷ xs) x (q, h) p = (q, All-concat P xs x h p)

All-SameScope :
    (a b : Claim) (xs : List Claim) → SameScope a b → All (SameScope a) xs → All (SameScope b) xs
All-SameScope a b [] (tenant, namespace) h = tt
All-SameScope a b (x ∷ xs) (tenant, namespace) (here, h) =
    ((sym tenant ∙ here.0, sym namespace ∙ here.1), All-SameScope a b xs (tenant, namespace) h)

module _ (c : Claim) (s : Store) (inv : IsConsistent s) (fits : FitsScope c s) where
  scoped_self :
      (o : Option Claim)
      → lookup c.id s.claims ≡ o
      → All (SameScope c) (history_of (assert_claim c s) c.id)
  scoped_self none e = rw (history-assert_new c s e, inv.no_orphans c.id e) tt
  scoped_self (some old) e = rw (history-assert_old c s old e) (
      All-concat (SameScope c) (history_of s c.id) old
        (All-SameScope old c (history_of s c.id) (fits old e) (inv.scoped c.id old e))
        (sym (fits old e).0, sym (fits old e).1))

  lookup-assert :
      (k : String)
      → lookup k (assert_claim c s).claims ≡ (if c.id == k then some c else lookup k s.claims)
  lookup-assert k = rw (claims-assert c s) (lookup-insert c.id k c s.claims)

  no_orphans_kept :
      (k : String)
      → lookup k (assert_claim c s).claims ≡ none
      → lookup k (assert_claim c s).claim_history ≡ none
  no_orphans_kept k e = elim (Bool-cases (c.id == k)) [
    | inl same ↦ cc (rw same at (lookup-assert k), e)
    | inr other ↦
        history-assert_other c s k (λ p. cc (other, (==_iff c.id k).1 p))
        ∙ inv.no_orphans k (sym (rw other at (lookup-assert k)) ∙ e)
  ]

  scoped_kept :
      (k : String) (x : Claim)
      → lookup k (assert_claim c s).claims ≡ some x
      → All (SameScope x) (history_of (assert_claim c s) k)
  scoped_kept k x e = elim (Bool-cases (c.id == k)) [
    | inl same ↦
        let mine : c ≡ x = cc (rw same at (lookup-assert k), e) in
        subst (λ y. All (SameScope y) (history_of (assert_claim c s) k)) mine
          (subst (λ j. All (SameScope c) (history_of (assert_claim c s) j)) ((==_iff c.id k).0 same)
            (scoped_self (lookup c.id s.claims) refl))
    | inr other ↦
        rw (history-assert_other c s k (λ p. cc (other, (==_iff c.id k).1 p)))
          (inv.scoped k x (sym (rw other at (lookup-assert k)) ∙ e))
  ]

  -- Asserting a claim in the scope of its earlier versions keeps the claim maps consistent: each
  -- claim stands under its id, no id stands twice, there is no history without a claim, and the
  -- versions of a claim share its tenant and namespace.
  pub assert_claim-IsConsistent : IsConsistent (assert_claim c s)
  assert_claim-IsConsistent = record {
    keyed = rw (claims-assert c s) (keyed-insert c s.claims inv.keyed);
    distinct = rw (claims-assert c s) (insert-HasDistinctKeys c.id c s.claims inv.distinct);
    no_orphans = no_orphans_kept;
    scoped = scoped_kept;
  }

pub empty_store-IsConsistent : IsConsistent empty_store
unfolding lookup
empty_store-IsConsistent = record {
  keyed = tt;
  distinct = tt;
  no_orphans = λ k e. refl;
  scoped = λ k c e. cc;
}
