-- ===== src/Knowledge/Conflicts/Sets/Laws.antt =====
-- What the sets of claims that conflict are.
use mathlib.Core.Path.{subst}
use kotowari.Base.{
  suc, String, List, [], ◌∷◌, some, Bool, true, false, ◌&&◌, filter, length, ltb, string_eq, ◌==◌,
  ==_iff, Dict, lookup, insert, values, lookup-insert, values-insert_new, ok, ◌≡◌, ◌⊎◌, inl, inr,
  refl, ap, arith, In, In-append, In-filter, any-eq-false, Option-cases, Bool-cases, get_or,
}
use kotowari.Base.Number.{integer, num_lt}
use kotowari.Base.Text.{text_lt}
use kotowari.Base.Sorting.{sort, length-sort, In-sort}
use kotowari.Kernel.Claim.{Claim, asserted, conflicted, claim_status_eq, max_timestamp}
use kotowari.Kernel.Events.{DomainEvent}
use kotowari.Decisions.Lifecycle.Lookup.{result_cases}
use kotowari.Knowledge.Conflicts.{claim_set_key, active_for_detection, active_at}
use kotowari.Knowledge.Conflicts.Sets.{
  ClaimGroup, add_representative, ids_of, is_within, keep_maximal, canonical_object_key,
  representatives_from, by_claim_id, add_candidate, candidate_sets, start_times,
  maximal_violating_sets,
}

In-values-insert :
    {V : Type 0} (k : String) (x v : V) (d : Dict String V)
    → In v (values (insert k x d))
    → (v ≡ x) ⊎ In v (values d)
unfolding values insert
In-values-insert k x v [] (inl e) = inl e
In-values-insert k x v [] (inr m) = absurd m
In-values-insert k x v ((i, w) ∷ d) m = elim (Bool-cases (i == k)) [
  | inl same ↦ ground (arith)
  | inr other ↦ ground (arith, In-values-insert k x v d)
]

length-values : {V : Type 0} (d : Dict String V) → length (values d) ≡ length d
unfolding values
length-values [] = refl
length-values (x ∷ d) = ap suc (length-values d)

keep_maximal-IsMaximal :
    (a : List Claim) (xs : List (List Claim))
    → In a (keep_maximal xs)
    → In a xs
      × ((b : List Claim) → In b xs → ltb (length a) (length b) ≡ true → is_within a b ≡ false)
unfolding keep_maximal
keep_maximal-IsMaximal a xs m =
    let (member, kept) = (In-filter _ a xs).0 m in
    (
      member,
      λ b n longer.
          ground (
            arith,
            any-eq-false (λ other. ltb (length a) (length other) && is_within a other) xs b,
          ),
    )

module _ (collate : String → String → Bool) (events : List DomainEvent) where
  abbrev pub HasKey : Claim → String → Type 0
  HasKey c key = canonical_object_key collate events c ≡ ok key

  -- The claims that are kept are such claims, each under the key of its object.
  abbrev Represent : (Claim → Type 0) → Dict String Claim → Type 0
  Represent P kept =
      (a : Claim)
      → In a (values kept)
      → P a × ((k : String) × HasKey a k × (lookup k kept ≡ some a))

  add_representative-Represent :
      (P : Claim → Type 0) (key : String) (c : Claim) (kept : Dict String Claim)
      → P c
      → HasKey c key
      → Represent P kept
      → Represent P (add_representative key c kept)
  add_representative-Represent P key c kept holds e h = elim (Option-cases (lookup key kept)) [
    | inr (old, f) ↦ rw f h
    | inl new ↦ rw new (λ a m.
        elim ((In-append a (values kept) (c ∷ [])).0
          (subst (In a) (values-insert_new key c kept new) m)) [
            | inr (inl same) ↦
                rw same
                  (holds, (key, e, ground (arith, lookup-insert key key c kept, ==_iff key key)))
            | inr (inr i) ↦ absurd i
            | inl there ↦
                let (fine, (k, f, found)) = h a there in
                (fine, (k, f, ground (arith, lookup-insert key k c kept, ==_iff key k)))
          ])
  ]

  representatives_from-Represent :
      (P : Claim → Type 0) (claims : List Claim) (kept result : Dict String Claim)
      → representatives_from collate events claims kept ≡ ok result
      → ((c : Claim) → In c claims → P c)
      → Represent P kept
      → Represent P result
  unfolding representatives_from
  representatives_from-Represent P [] kept result h all_fine r =
      let same : kept ≡ result = ground arith in rw (← same) r
  representatives_from-Represent P (c ∷ claims) kept result h all_fine r =
      elim (result_cases (canonical_object_key collate events c)) [
        | inr (f, e) ↦ absurd (ground arith)
        | inl (key, e) ↦
            representatives_from-Represent P claims (add_representative key c kept) result
              (rw e at h) (λ d m. all_fine d (inr m))
              (add_representative-Represent P key c kept (all_fine c (inl refl)) e r)
      ]

-- The claim is held to be so at the instant: asserted or in conflict, from an instant that has come,
-- and to one that has not, which is the last of all where the claim has no end.
abbrev pub IsActiveAt : String → Claim → Type 0
IsActiveAt at c =
    ((c.status ≡ asserted) ⊎ (c.status ≡ conflicted))
    × (text_lt at c.bitemporal.valid_from ≡ false)
    × (text_lt at (get_or c.bitemporal.valid_to max_timestamp) ≡ true)

active_at-IsActiveAt : (c : Claim) (at : String) → active_at c at ≡ true → IsActiveAt at c
unfolding active_at active_for_detection
active_at-IsActiveAt c at h = (
  elim (Bool-cases (c.status == asserted)) [
    | inl said ↦ inl ((==_iff c.status asserted).0 said)
    | inr other ↦ inr ((==_iff c.status conflicted).0 (ground arith))
  ],
  ground arith,
  ground arith,
)

-- Claims of the group that all hold at one instant, with different objects, and are more than the rule
-- allows.
pub record IsViolating (collate : String → String → Bool) (events : List DomainEvent)
    (group : ClaimGroup) (a : List Claim) : Type 0 where
  pub too_many : num_lt group.rule.max (integer (length a)) ≡ true
  pub at : String
  pub together : (c : Claim) → In c a → In c group.claims × IsActiveAt at c
  pub apart :
      (b c : Claim) (key : String)
      → In b a
      → In c a
      → HasKey collate events b key
      → HasKey collate events c key
      → b ≡ c

module _ (collate : String → String → Bool) (events : List DomainEvent) (group : ClaimGroup) where
  abbrev Holds : String → Claim → Type 0
  Holds at c = In c group.claims × IsActiveAt at c

  one_key :
      (b c : Claim) (i j k : String) (kept : Dict String Claim)
      → HasKey collate events b i
      → lookup i kept ≡ some b
      → HasKey collate events c j
      → lookup j kept ≡ some c
      → HasKey collate events b k
      → HasKey collate events c k
      → b ≡ c
  one_key b c i j k kept hi bi hj cj hb hc =
      let same_i : i ≡ k = ground arith in
      let same_j : j ≡ k = ground arith in
      let found_b : lookup k kept ≡ some b = rw same_i at bi in
      let found_c : lookup k kept ≡ some c = rw same_j at cj in ground arith

  set_of_representatives :
      (at : String) (kept : Dict String Claim)
      → Represent collate events (Holds at) kept
      → num_lt group.rule.max (integer (length kept)) ≡ true
      → IsViolating collate events group (sort (by_claim_id collate events) (values kept))
  set_of_representatives at kept r many =
      let inside = In-sort (by_claim_id collate events) in
      record {
        too_many =
            rw (length-sort (by_claim_id collate events) (values kept), length-values kept) many;
        at = at;
        together = λ c m. (r c (inside c (values kept) m)).0;
        apart = λ b c k mb mc hb hc.
            let (_, (i, hi, bi)) = r b (inside b (values kept) mb) in
            let (_, (j, hj, cj)) = r c (inside c (values kept) mc) in
            one_key b c i j k kept hi bi hj cj hb hc;
      }

  none_yet : (P : Claim → Type 0) → Represent collate events P []
  unfolding values
  none_yet P a m = absurd m

  active-Holds :
      (at : String) (c : Claim)
      → In c
          (sort (by_claim_id collate events) (filter (λ (d : Claim). active_at d at) group.claims))
      → Holds at c
  active-Holds at c m =
      let (held, active) = (In-filter (λ (d : Claim). active_at d at) c group.claims).0 (
        In-sort (by_claim_id collate events) c (filter (λ (d : Claim). active_at d at) group.claims)
          m) in
      (held, active_at-IsActiveAt c at active)

  AllViolate : Dict String (List Claim) → Type 0
  AllViolate sets = (a : List Claim) → In a (values sets) → IsViolating collate events group a

  add_candidate-AllViolate :
      (at : String) (kept : Dict String Claim) (sets : Dict String (List Claim))
      → Represent collate events (Holds at) kept
      → AllViolate sets
      → AllViolate (add_candidate collate events group.rule.max kept sets)
  unfolding AllViolate
  add_candidate-AllViolate at kept sets r h =
      elim (Bool-cases (num_lt group.rule.max (integer (length kept)))) [
        | inr few ↦ rw few h
        | inl many ↦ rw many (λ a m.
            elim (In-values-insert
              (claim_set_key collate (ids_of (sort (by_claim_id collate events) (values kept))))
              (sort (by_claim_id collate events) (values kept)) a sets m) [
                | inl same ↦ rw same (set_of_representatives at kept r many)
                | inr old ↦ h a old
              ])
      ]

  candidate_sets-AllViolate :
      (times : List String) (sets result : Dict String (List Claim))
      → candidate_sets collate events group times sets ≡ ok result
      → AllViolate sets
      → AllViolate result
  unfolding candidate_sets
  candidate_sets-AllViolate [] sets result e h =
      let same : sets ≡ result = ground arith in subst AllViolate same h
  candidate_sets-AllViolate (at ∷ times) sets result e h =
      let active =
        sort (by_claim_id collate events) (filter (λ (d : Claim). active_at d at) group.claims) in
      elim (result_cases (representatives_from collate events active [])) [
        | inr (f, failed) ↦ absurd (ground arith)
        | inl (kept, made) ↦
            candidate_sets-AllViolate times (add_candidate collate events group.rule.max kept sets)
              result (rw made at e)
              (add_candidate-AllViolate at kept sets
                (representatives_from-Represent collate events (Holds at) active [] kept made
                  (active-Holds at) (none_yet (Holds at)))
                h)
      ]

  no_sets : AllViolate []
  unfolding AllViolate values
  no_sets a m = absurd m

  all_of :
      (sets : Dict String (List Claim))
      → AllViolate sets
      → (a : List Claim) → In a (values sets)
      → IsViolating collate events group a
  unfolding AllViolate
  all_of sets h = h

-- Each set of claims that is found to conflict breaks the rule of its group: its claims are of the
-- group, all hold at one instant, have different objects once merged entities are one, and are more than
-- the rule allows. And no set is within a longer one that is found.
pub maximal_violating_sets-IsViolating :
    (collate : String → String → Bool) (events : List DomainEvent) (group : ClaimGroup)
    (sets : List (List Claim)) (a : List Claim)
    → maximal_violating_sets collate events group ≡ ok sets
    → In a sets
    → IsViolating collate events group a
      × ((b : List Claim) → In b sets → ltb (length a) (length b) ≡ true → is_within a b ≡ false)
unfolding maximal_violating_sets
maximal_violating_sets-IsViolating collate events group sets a e m =
    elim (result_cases
      (candidate_sets collate events group (start_times collate events group) [])) [
        | inr (f, failed) ↦ absurd (ground arith)
        | inl (found, made) ↦
            let same : keep_maximal (values found) ≡ sets = ground arith in
            let (member, longest) = keep_maximal-IsMaximal a (values found) (rw (← same) at m) in
            (
              all_of collate events group found
                  (candidate_sets-AllViolate collate events group (start_times collate events group)
                    [] found made (no_sets collate events group))
                  a member,
              λ b n. longest b (keep_maximal-IsMaximal b (values found) (rw (← same) at n)).0,
            )
      ]
