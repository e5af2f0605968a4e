-- ===== src/Ontology/Contracts/Laws.antt =====
-- The search for cycles of entity types ends.
use kotowari.Base.{
  ℕ, zero, suc, ◌<◌, String, List, [], ◌∷◌, Option, some, Bool, true, false, includes, length, Dict,
  lookup, string_eq, ◌≡◌, refl, inl, inr, arith, Bool-cases, Option-cases,
}
use kotowari.Base.Unvisited.{unvisited, unvisited-lt, unvisited-nil}
use kotowari.Ontology.Contracts.{any_option, has_entity_type_cycle}

any_option-ends :
    {A : Type 0} (test : A → Option Bool) (xs : List A)
    → ((x : A) → (b : Bool) × (test x ≡ some b))
    → (b : Bool) × (any_option test xs ≡ some b)
unfolding any_option
any_option-ends test [] ends = (false, refl)
any_option-ends test (x ∷ xs) ends =
    let (b, e) = ends x in
    let (c, f) = any_option-ends test xs ends in
    elim (Bool-cases b) [
      | inl hit ↦ (true, rw (any_option, e, hit) refl)
      | inr miss ↦ (c, rw (any_option, e, miss) f)
    ]

module _ (parents : Dict String (List String)) where
  cycle_ends :
      (fuel : ℕ) (id : String) (visiting : List String)
      → unvisited visiting parents < fuel
      → (b : Bool) × (has_entity_type_cycle fuel parents id visiting ≡ some b)
  unfolding has_entity_type_cycle any_option
  cycle_ends zero id visiting h = absurd (omega arith)
  cycle_ends (suc fuel) id visiting h = elim (Bool-cases (includes visiting id)) [
    | inl old ↦ (true, rw old refl)
    | inr new ↦ elim (Option-cases (lookup id parents)) [
      | inl unknown ↦ (false, rw (new, unknown) refl)
      | inr (ps, e) ↦
          let (b, f) =
            any_option-ends (λ parent. has_entity_type_cycle fuel parents parent (id ∷ visiting)) ps
              (λ parent.
                cycle_ends fuel parent (id ∷ visiting)
                  (omega (arith, unvisited-lt id ps visiting parents e new))) in
          (b, rw (new, e) f)
    ]
  ]

  -- The search for a cycle of entity types ends, whatever the parents: fuel for one round more than
  -- there are entity types with an entry is enough.
  has_entity_type_cycle-terminates :
      (id : String)
      → (b : Bool) × (has_entity_type_cycle (suc (length parents)) parents id [] ≡ some b)
  has_entity_type_cycle-terminates id =
      cycle_ends (suc (length parents)) id [] (omega (arith, unvisited-nil parents))
