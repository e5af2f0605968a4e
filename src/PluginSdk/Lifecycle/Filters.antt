-- ===== src/PluginSdk/Lifecycle/Filters.antt =====
-- What the filters of the lifecycle store ask for.
use kotowari.Base.{
  String, List, [], ◌∷◌, Option, none, some, Bool, true, ◌&&◌, ◌||◌, ◌≡◌, ◌↔◌, ◌⊎◌, inl, inr, refl,
  sym, arith, In, string_eq, ◌==◌, ==_iff, Bool-cases, absent_or,
}
use kotowari.Kernel.Metadata.{ScopedMetadata}
use kotowari.Kernel.Decision.{DecisionRelation}
use kotowari.PluginSdk.Lifecycle.{
  DecisionLifecycleFilter, matches_scope, relation_matches, decision_record_matches,
}

-- What a filter asks of a record with these metadata that is about these decisions.
abbrev pub IsWanted : DecisionLifecycleFilter → ScopedMetadata → List String → Type 0
IsWanted f metadata ids =
    (metadata.tenant_id ≡ f.tenant_id)
    × ((f.namespace_id ≡ none)
        ⊎ ((n : String) × (f.namespace_id ≡ some n) × (metadata.namespace_id ≡ n)))
    × ((f.decision_id ≡ none) ⊎ ((id : String) × (f.decision_id ≡ some id) × In id ids))

-- An absent part of a filter asks for nothing.
asked_iff :
    {A : Type 0} (P : A → Type 0) (test : A → Bool)
    → ((a : A) → (test a ≡ true) ↔ P a)
    → (o : Option A) → (absent_or o test ≡ true) ↔ ((o ≡ none) ⊎ ((a : A) × (o ≡ some a) × P a))
asked_iff P test each none = (λ _. inl refl, λ _. refl)
asked_iff P test each (some a) = (
  λ h. inr (a, refl, (each a).0 h),
  λ k. elim k [ inl e ↦ cc | inr (b, e, q) ↦ let t = (each b).1 q in cc ],
)

one_of_two : (x y id : String) → (((x == id) || (y == id)) ≡ true) ↔ In id (x ∷ y ∷ [])
one_of_two x y id = (
  λ h. elim (Bool-cases (x == id)) [
    | inl first ↦ inl (sym ((==_iff x id).0 first))
    | inr other ↦ inr (inl (sym ((==_iff y id).0 (ground arith))))
  ],
  λ m. elim m [
    | inl e ↦ let k = (==_iff x id).1 (sym e) in ground arith
    | inr (inl e) ↦ let k = (==_iff y id).1 (sym e) in ground arith
    | inr (inr none_left) ↦ absurd none_left
  ],
)

the_one : (x id : String) → ((x == id) ≡ true) ↔ In id (x ∷ [])
the_one x id = (
  λ h. inl (sym ((==_iff x id).0 h)),
  λ m. elim m [ inl e ↦ (==_iff x id).1 (sym e) | inr none_left ↦ absurd none_left ],
)

matches_scope_and_iff :
    (f : DecisionLifecycleFilter) (metadata : ScopedMetadata) (ids : List String)
    (test : String → Bool)
    → ((id : String) → (test id ≡ true) ↔ In id ids)
    → ((matches_scope metadata f && absent_or f.decision_id test) ≡ true) ↔ IsWanted f metadata ids
unfolding matches_scope
matches_scope_and_iff f metadata ids test each =
    let tenant = ==_iff metadata.tenant_id f.tenant_id in
    let namespace =
      asked_iff (λ n. metadata.namespace_id ≡ n) (λ n. metadata.namespace_id == n)
        (λ n. ==_iff metadata.namespace_id n) f.namespace_id in
    let decision = asked_iff (λ id. In id ids) test each f.decision_id in
    (
      λ h. (tenant.0 (ground arith), namespace.0 (ground arith), decision.0 (ground arith)),
      λ (t, n, d).
          let a = tenant.1 t in let b = namespace.1 n in let c = decision.1 d in ground arith,
    )

pub relation_matches_iff :
    (r : DecisionRelation) (f : DecisionLifecycleFilter)
    → (relation_matches r f ≡ true)
      ↔ IsWanted f r.metadata (r.from_decision_id ∷ r.to_decision_id ∷ [])
unfolding relation_matches
relation_matches_iff r f =
    matches_scope_and_iff f r.metadata (r.from_decision_id ∷ r.to_decision_id ∷ []) _
      (one_of_two r.from_decision_id r.to_decision_id)

pub decision_record_matches_iff :
    (metadata : ScopedMetadata) (id : String) (f : DecisionLifecycleFilter)
    → (decision_record_matches metadata id f ≡ true) ↔ IsWanted f metadata (id ∷ [])
unfolding decision_record_matches
decision_record_matches_iff metadata id f =
    matches_scope_and_iff f metadata (id ∷ []) _ (the_one id)
