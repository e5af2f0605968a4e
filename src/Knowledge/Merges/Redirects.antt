-- ===== src/Knowledge/Merges/Redirects.antt =====
-- What a merge, and its reversal, does to the redirects.
use mathlib.Core.List.{append-nil}
use kotowari.Base.{
  String, List, [], ◌∷◌, ◌++◌, Option, none, some, Bool, true, false, not, includes, filter,
  filter-append, filter-keep, filter-drop, Dict, lookup, insert, lookup-insert, string_eq, ◌==◌,
  ==_iff, if◌then◌else◌, ◌≡◌, inl, inr, refl, sym, ◌∙◌, ap, arith, Bool-cases,
}
use kotowari.Base.Sorting.{sort, IsWeakOrder, filter-sort, sort-eq-nil, lexicographic-IsWeakOrder}
use kotowari.Kernel.Events.{DomainEvent, EventBody, entity_merged, entity_merge_reverted}
use kotowari.Knowledge.Merges.{
  reverted_merges, is_merge, set_redirects, add_redirects, redirects_from, event_order,
  active_entity_merge_events, redirects_of,
}

-- The entity is among those that the event absorbs.
abbrev absorbs : String → DomainEvent → Bool
absorbs x e = elim e.body [ entity_merged _ absorbed _ _ ↦ includes absorbed x | _ ↦ false ]

abbrev survivor : DomainEvent → String
survivor e = elim e.body [ entity_merged surviving _ _ _ ↦ surviving | _ ↦ "" ]

-- Where the events that absorb an entity send it.
target : String → List DomainEvent → Option String → Option String
target x [] o = o
target x (e ∷ es) o = target x es (if absorbs x e then some (survivor e) else o)

lookup-set_redirects :
    (x s : String) (ids : List String) (d : Dict String String)
    → lookup x (set_redirects s ids d) ≡ (if includes ids x then some s else lookup x d)
unfolding set_redirects includes
lookup-set_redirects x s [] d = refl
lookup-set_redirects x s (a ∷ ids) d =
    ground (arith, lookup-set_redirects x s ids (insert a s d), lookup-insert a x s d)

lookup-add_redirects :
    (x : String) (e : DomainEvent) (d : Dict String String)
    → lookup x (add_redirects e d) ≡ (if absorbs x e then some (survivor e) else lookup x d)
lookup-add_redirects x e d =
    elim e.body
      as (λ (b : EventBody).
        lookup x (elim b [ entity_merged s ids _ _ ↦ set_redirects s ids d | _ ↦ d ]) ≡ (
          if (elim b [ entity_merged _ ids _ _ ↦ includes ids x | _ ↦ false ])
          then some (elim b [ entity_merged s _ _ _ ↦ s | _ ↦ "" ])
          else lookup x d)) [ entity_merged s ids _ _ ↦ lookup-set_redirects x s ids d | _ ↦ refl ]

lookup-redirects_from :
    (x : String) (es : List DomainEvent) (d : Dict String String)
    → lookup x (redirects_from es d) ≡ target x es (lookup x d)
unfolding redirects_from target
lookup-redirects_from x [] d = refl
lookup-redirects_from x (e ∷ es) d =
    lookup-redirects_from x es (add_redirects e d) ∙ ap (target x es) (lookup-add_redirects x e d)

target-kept :
    (x : String) (e : DomainEvent) (es : List DomainEvent) (o : Option String) (b : Bool)
    → absorbs x e ≡ b
    → ((o' : Option String) → target x (filter (absorbs x) es) o' ≡ target x es o')
    → target x (if b then e ∷ filter (absorbs x) es else filter (absorbs x) es) o
      ≡ target x es (if b then some (survivor e) else o)
unfolding target
target-kept x e es o true h ih =
    ap (λ (t : Bool). target x (filter (absorbs x) es) (if t then some (survivor e) else o)) h
    ∙ ih (some (survivor e))
target-kept x e es o false h ih = ih o

-- Only what absorbs the entity matters.
target-filter :
    (x : String) (es : List DomainEvent) (o : Option String)
    → target x (filter (absorbs x) es) o ≡ target x es o
unfolding target filter
target-filter x [] o = refl
target-filter x (e ∷ es) o = target-kept x e es o (absorbs x e) refl (target-filter x es)

target-eq-none :
    (x : String) (es : List DomainEvent) (o : Option String)
    → target x es o ≡ none
    → (filter (absorbs x) es ≡ []) × (o ≡ none)
unfolding target filter
target-eq-none x [] o h = (refl, h)
target-eq-none x (e ∷ es) o h =
    ground (arith, target-eq-none x es (if absorbs x e then some (survivor e) else o))

pub reverted_merges-append :
    (xs ys : List DomainEvent)
    → reverted_merges (xs ++ ys) ≡ reverted_merges xs ++ reverted_merges ys
unfolding reverted_merges
reverted_merges-append [] ys = refl
reverted_merges-append (e ∷ xs) ys =
    elim e.body
      as (λ (b : EventBody).
        (elim b [
          | entity_merge_reverted m _ _ _ ↦ m ∷ reverted_merges (xs ++ ys)
          | _ ↦ reverted_merges (xs ++ ys)
        ])
        ≡ (elim b [
          | entity_merge_reverted m _ _ _ ↦ m ∷ reverted_merges xs
          | _ ↦ reverted_merges xs
        ])
          ++ reverted_merges ys) [
            | entity_merge_reverted m _ _ _ ↦
                ap (λ (l : List String). m ∷ l) (reverted_merges-append xs ys)
            | _ ↦ reverted_merges-append xs ys
          ]

-- The merges that no reversal of the log names.
abbrev pub standing : List DomainEvent → List DomainEvent
standing events =
    filter (λ e. not (includes (reverted_merges events) e.event_id)) (filter is_merge events)

module _ (collate : String → String → Bool) (w : IsWeakOrder collate) where
  abbrev order : IsWeakOrder (event_order collate)
  order =
      lexicographic-IsWeakOrder collate w (λ (e : DomainEvent). e.occurred_at)
        (λ (e : DomainEvent). e.event_id)

  redirect_of :
      (x : String) (events : List DomainEvent)
      → lookup x (redirects_of collate events)
        ≡ target x (sort (event_order collate) (filter (absorbs x) (standing events))) none
  unfolding redirects_of active_entity_merge_events lookup
  redirect_of x events =
      let es = sort (event_order collate) (standing events) in
      lookup-redirects_from x es []
      ∙ sym (target-filter x es none)
      ∙ ap (λ (l : List DomainEvent). target x l none)
          (filter-sort (event_order collate) order (absorbs x) (standing events))

  no_redirect :
      (x : String) (events : List DomainEvent)
      → lookup x (redirects_of collate events) ≡ none
      → filter (absorbs x) (standing events) ≡ []
  unfolding redirects_of active_entity_merge_events lookup
  no_redirect x events h =
      let es = sort (event_order collate) (standing events) in
      let empty = (target-eq-none x es none (sym (lookup-redirects_from x es []) ∙ h)).0 in
      sort-eq-nil (event_order collate) _
        (sym (filter-sort (event_order collate) order (absorbs x) (standing events)) ∙ empty)

module _ (collate : String → String → Bool) (w : IsWeakOrder collate) (events : List DomainEvent)
    (m : DomainEvent) (surviving absorbed : String) (proposal reason : Option String)
    (merges : m.body ≡ entity_merged surviving (absorbed ∷ []) proposal reason) where
  no_reversal : reverted_merges (m ∷ []) ≡ []
  unfolding reverted_merges
  no_reversal = rw merges refl

  reverted-after : reverted_merges (events ++ m ∷ []) ≡ reverted_merges events
  reverted-after =
      reverted_merges-append events (m ∷ [])
      ∙ ap (λ (l : List String). reverted_merges events ++ l) no_reversal
      ∙ append-nil (reverted_merges events)

  is_merged : is_merge m ≡ true
  is_merged = rw merges refl

  -- A merge that no reversal names yet stands after it is appended.
  standing-after :
      includes (reverted_merges events) m.event_id ≡ false
      → standing (events ++ m ∷ []) ≡ standing events ++ m ∷ []
  unfolding filter
  standing-after fresh =
      let kept = λ (l : List String) (e : DomainEvent). not (includes l e.event_id) in
      let p = kept (reverted_merges events) in
      ap (λ (l : List String). filter (kept l) (filter is_merge (events ++ m ∷ []))) reverted-after
      ∙ ap (filter p) (
          filter-append is_merge events (m ∷ [])
          ∙ ap (λ (l : List DomainEvent). filter is_merge events ++ l)
              (filter-keep is_merge m [] is_merged))
      ∙ filter-append p (filter is_merge events) (m ∷ [])
      ∙ ap (λ (l : List DomainEvent). standing events ++ l) (filter-keep p m [] (rw fresh))

  absorbs_iff : (x : String) → absorbs x m ≡ (absorbed == x)
  unfolding includes
  absorbs_iff x = rw merges (ground arith)

  survives : survivor m ≡ surviving
  survives = rw merges refl

  alone :
      (x : String)
      → absorbs x m ≡ true
      → target x (sort (event_order collate) (m ∷ [])) none ≡ some surviving
  unfolding target sort
  alone x h = ap (λ (b : Bool). if b then some (survivor m) else none) h ∙ ap some survives

  -- A merge of an entity that is not redirected yet redirects it to the survivor, and no other.
  pub lookup-redirects_of :
      (x : String)
      → includes (reverted_merges events) m.event_id ≡ false
      → lookup absorbed (redirects_of collate events) ≡ none
      → lookup x (redirects_of collate (events ++ m ∷ []))
        ≡ (if absorbed == x then some surviving else lookup x (redirects_of collate events))
  unfolding filter
  lookup-redirects_of x fresh root = elim (Bool-cases (absorbed == x)) [
    | inr other ↦
        let none_more =
          ap (filter (absorbs x)) (standing-after fresh)
          ∙ filter-append (absorbs x) (standing events) (m ∷ [])
          ∙ ap (λ (l : List DomainEvent). filter (absorbs x) (standing events) ++ l)
              (filter-drop (absorbs x) m [] (absorbs_iff x ∙ other))
          ∙ append-nil (filter (absorbs x) (standing events)) in
        rw other (
          redirect_of collate w x (events ++ m ∷ [])
          ∙ ap (λ (l : List DomainEvent). target x (sort (event_order collate) l) none) none_more
          ∙ sym (redirect_of collate w x events))
    | inl same ↦
        let this : absorbed ≡ x = (==_iff absorbed x).0 same in
        let only =
          ap (filter (absorbs x)) (standing-after fresh)
          ∙ filter-append (absorbs x) (standing events) (m ∷ [])
          ∙ ap (λ (l : List DomainEvent). l ++ filter (absorbs x) (m ∷ []))
              (no_redirect collate w x events (rw this at root))
          ∙ filter-keep (absorbs x) m [] (absorbs_iff x ∙ same) in
        rw same (
          redirect_of collate w x (events ++ m ∷ [])
          ∙ ap (λ (l : List DomainEvent). target x (sort (event_order collate) l) none) only
          ∙ alone x (absorbs_iff x ∙ same))
  ]
