-- ===== src/Decisions/Precedents/Laws.antt =====
-- What a search for precedents returns.
use kotowari.Base.{
  ℕ, suc, ◌+◌, ◌≤◌, String, List, [], ◌∷◌, map, Option, some, Bool, true, not, ok, ◌≡◌, ◌≢◌, inl,
  inr, refl, arith, ap, sym, ◌∙◌, In, In-filter, length, filter, get_or, head?, string_eq, ◌==◌,
  ==_iff, Option-cases,
}
use kotowari.Base.Number.{Number, integer}
use kotowari.Base.Slices.{slice_to-In, IsWithin, slice_to-IsWithin, nil-IsWithin}
use kotowari.Base.Sorting.{In-sort, length-sort}
use kotowari.Kernel.Ids.{as_decision_id}
use kotowari.Kernel.Access.{Principal}
use kotowari.Kernel.Decision.{Decision}
use kotowari.PluginSdk.Store.{get_decision, list_decisions}
use kotowari.PluginSdk.System.{System}
use kotowari.Decisions.Lifecycle.Lookup.{result_cases}
use kotowari.Decisions.Precedents.{
  DecisionPrecedent, Arithmetic, readable, is_positive, scores_above, precedent_of, rank_precedents,
  find_decision_precedents_capability,
}
use kotowari.Decisions.Precedents.Search.{
  MayReadFrom, readable-readings, readable-MayReadFrom, length-readable,
}

length-filter : {A : Type 0} (f : A → Bool) (l : List A) → length (filter f l) ≤ length l
unfolding filter length
length-filter f [] = omega arith
length-filter f (x ∷ l) = ground (arith, length-filter f l)

length-map : {A B : Type 0} (f : A → B) (l : List A) → length (map f l) ≡ length l
unfolding length
length-map f [] = refl
length-map f (x ∷ l) = ap suc (length-map f l)

map-In :
    {A B : Type 0} (f : A → B) (y : B) (l : List A) → In y (map f l) → (x : A) × In x l × (y ≡ f x)
map-In f y [] m = absurd m
map-In f y (x ∷ l) (inl e) = (x, inl refl, e)
map-In f y (x ∷ l) (inr m) = let (z, n, q) = map-In f y l m in (z, inr n, q)

module _ (calc : Arithmetic) (target : Decision) (limit : Number) where
  rank_precedents-In :
      (candidates : List Decision) (x : DecisionPrecedent)
      → In x (rank_precedents calc target limit candidates)
      → In x.decision candidates
        × (is_positive x ≡ true)
        × (x ≡ precedent_of calc target x.decision)
  unfolding rank_precedents precedent_of
  rank_precedents-In candidates x m =
      let all = map (precedent_of calc target) candidates in
      let ranked = slice_to-In limit x _ m in
      let (made, positive) = (In-filter is_positive x all).0 (In-sort scores_above x _ ranked) in
      let (d, n, same) = map-In (precedent_of calc target) x candidates made in
      let whose : x.decision ≡ d = ap (λ (y : DecisionPrecedent). y.decision) same in
      (rw whose n, positive, same ∙ ap (precedent_of calc target) (sym whose))

  rank_precedents-IsWithin :
      (candidates : List Decision) (most : ℕ)
      → length candidates ≤ most
      → IsWithin limit most (length (rank_precedents calc target limit candidates))
  unfolding rank_precedents
  rank_precedents-IsWithin candidates most h =
      let all = map (precedent_of calc target) candidates in
      slice_to-IsWithin limit most _ (
        omega (
          arith,
          length-sort scores_above (filter is_positive all),
          length-filter is_positive all,
          length-map (precedent_of calc target) candidates,
        ))

-- Whom a search from `s` to `t` answers with.
abbrev pub IsPrecedent :
    Arithmetic → Principal → String → System → System → DecisionPrecedent → Type 0
IsPrecedent calc p id s t x =
    (target : Decision) × ((get_decision id s.store ≡ some target)
      × In x.decision (list_decisions p.tenant_id (head? p.namespace_ids) s.store)
      × (x.decision.id ≢ target.id))
    × MayReadFrom p s.world.clock s.world.readings t.world.readings x.decision
    × (is_positive x ≡ true)
    × (x ≡ precedent_of calc target x.decision)

-- A search that returns has returned decisions of the principal's tenant and of its first namespace,
-- where it has one, other than the one asked for; each may be read by the principal at a reading of
-- the clock that the search has made, and stands with its score and reasons, a score above 0. The call
-- stores nothing. No more decisions are returned than stand in the scope; and at most the integer part
-- of the limit, 5 where none is given; where the limit is negative, at most as many as stand in the
-- scope less the integer part of its amount; and none where it is NaN or negative infinity.
pub find_decision_precedents_capability-ArePrecedents :
    (calc : Arithmetic) (p : Principal) (id : String) (limit : Option Number) (s t : System)
    (found : List DecisionPrecedent)
    → find_decision_precedents_capability calc p id limit s ≡ (ok found, t)
    → IsWithin
        (get_or limit (integer 5))
        (length (list_decisions p.tenant_id (head? p.namespace_ids) s.store))
        (length found)
      × (t.store ≡ s.store)
      × ((x : DecisionPrecedent) → In x found → IsPrecedent calc p id s t x)
unfolding find_decision_precedents_capability as_decision_id length
find_decision_precedents_capability-ArePrecedents calc p id limit s t found h =
    let stored = list_decisions p.tenant_id (head? p.namespace_ids) s.store in
    let end = get_or limit (integer 5) in
    elim (Option-cases (get_decision id s.store)) [
      | inl none_stored ↦
          let nothing : found ≡ [] = ground arith in
          (
            rw nothing (nil-IsWithin end (length stored)),
            ground arith,
            λ x m. absurd (rw nothing at m),
          )
      | inr (target, e) ↦
          let other = λ (d : Decision). not (d.id == target.id) in
          let candidates = filter other stored in
          elim (result_cases (readable p candidates s.world).0) [
            | inr (f, k) ↦ absurd (ground arith)
            | inl (l, k) ↦
                let listed : found ≡ rank_precedents calc target end l = ground arith in
                let asked : t.world.readings ≡ s.world.readings + length candidates =
                  ground (arith, readable-readings p candidates s.world) in
                (
                  rw listed (
                      rank_precedents-IsWithin calc target end l (length stored) (
                        omega (
                          arith,
                          length-readable p candidates s.world l k,
                          length-filter other stored,
                        ))),
                  ground arith,
                  λ x m.
                      let (n, positive, same) =
                        rank_precedents-In calc target end l x (rw listed at m) in
                      let (held, may) =
                        readable-MayReadFrom p candidates s.world l x.decision k n in
                      let (kept, apart) = (In-filter other x.decision stored).0 held in
                      (
                        target,
                        (
                          e,
                          kept,
                          λ q. absurd (ground (arith, (==_iff x.decision.id target.id).1 q)),
                        ),
                        rw asked may,
                        positive,
                        same,
                      ),
                )
          ]
    ]
