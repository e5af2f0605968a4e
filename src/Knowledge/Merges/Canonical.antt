-- ===== src/Knowledge/Merges/Canonical.antt =====
-- Canonical entities before and after a merge, and after its reversal.
use mathlib.Core.List.{append-nil}
use kotowari.Base.{
  ℕ, zero, suc, String, List, [], ◌∷◌, ◌++◌, Option, none, some, Bool, false, not, includes, filter,
  filter-append, filter_congr, filter-keep, filter-drop, Dict, lookup, string_eq, ◌==◌, ==_iff,
  if◌then◌else◌, ◌||◌, ◌≡◌, ◌≢◌, inl, inr, refl, sym, ◌∙◌, ap, arith, In, In-filter, In-append,
  Bool-cases, ok,
}
use kotowari.Base.Sorting.{sort, IsWeakOrder}
use kotowari.Kernel.Events.{DomainEvent, entity_merged, entity_merge_reverted}
use kotowari.Knowledge.Merges.{
  reverted_merges, is_merge, event_order, active_entity_merge_events, redirects_of, redirects_from,
  follow_redirects, canonical_entity_id_from_events,
}
use kotowari.Knowledge.Merges.Follow.{Walk, LeadsTo, follow_redirects-LeadsTo_iff}
use kotowari.Knowledge.Merges.Redirects.{standing, lookup-redirects_of, reverted_merges-append}

pub canonical_root :
    (collate : String → String → Bool) (events : List DomainEvent) (x c : String)
    → canonical_entity_id_from_events collate events x ≡ ok c
    → lookup c (redirects_of collate events) ≡ none
unfolding canonical_entity_id_from_events
canonical_root collate events x c h =
    let (n, walk, end) = (follow_redirects-LeadsTo_iff (redirects_of collate events) x c).0 h in end

module _ (d d' : Dict String String) (surviving absorbed : String)
    (added : (x : String) → lookup x d' ≡ (if absorbed == x then some surviving else lookup x d))
    (apart : surviving ≢ absorbed) (survivor_root : lookup surviving d ≡ none)
    (absorbed_root : lookup absorbed d ≡ none) where
  still_root : (c : String) → c ≢ absorbed → lookup c d ≡ none → lookup c d' ≡ none
  still_root c other h = elim (Bool-cases (absorbed == c)) [
    | inl same ↦ absurd (other (sym ((==_iff absorbed c).0 same)))
    | inr new ↦ added c ∙ rw new h
  ]

  same_step : (x y : String) → lookup x d ≡ some y → lookup x d' ≡ some y
  same_step x y h = elim (Bool-cases (absorbed == x)) [
    | inl same ↦ absurd (ground (arith, (==_iff absorbed x).0 same))
    | inr new ↦ added x ∙ rw new h
  ]

  last_step : lookup absorbed d' ≡ some surviving
  last_step = added absorbed ∙ rw ((==_iff absorbed absorbed).1 refl) refl

  Walk-longer :
      (n : ℕ) (x c : String)
      → Walk d n x c
      → lookup c d ≡ none
      → LeadsTo d' x (if absorbed == c then surviving else c)
  Walk-longer zero x c w h = elim (Bool-cases (absorbed == c)) [
    | inl same ↦ rw same (
      1,
      (surviving, rw (w, ← (==_iff absorbed c).0 same) last_step, refl),
      still_root surviving apart survivor_root,
    )
    | inr new ↦
        rw new (0, w, still_root c (λ e. absurd (ground (arith, (==_iff absorbed c).1 (sym e)))) h)
  ]
  Walk-longer (suc n) x c (y, e, w) h =
      let (k, walk, end) = Walk-longer n y c w h in (suc k, (y, same_step x y e, walk), end)

-- A merge of two entities that are their own canonical entities moves exactly what led to the absorbed
-- one: its canonical entity is then the survivor, and that of anything else is as before. The merge's
-- event has an identifier that no reversal of the log names.
pub canonical_entity_id_from_events-merge :
    (collate : String → String → Bool) (events : List DomainEvent) (m : DomainEvent)
    (surviving absorbed x c : String) (proposal reason : Option String)
    → IsWeakOrder collate
    → m.body ≡ entity_merged surviving (absorbed ∷ []) proposal reason
    → includes (reverted_merges events) m.event_id ≡ false
    → surviving ≢ absorbed
    → canonical_entity_id_from_events collate events surviving ≡ ok surviving
    → canonical_entity_id_from_events collate events absorbed ≡ ok absorbed
    → canonical_entity_id_from_events collate events x ≡ ok c
    → canonical_entity_id_from_events collate (events ++ m ∷ []) x
      ≡ ok (if absorbed == c then surviving else c)
unfolding canonical_entity_id_from_events
canonical_entity_id_from_events-merge collate events m surviving absorbed x c proposal reason w
      merges fresh apart s_root a_root h =
    let root = canonical_root collate events absorbed absorbed a_root in
    let (n, walk, end) = (follow_redirects-LeadsTo_iff (redirects_of collate events) x c).0 h in
    (follow_redirects-LeadsTo_iff _ x _).1 (
      Walk-longer (redirects_of collate events) (redirects_of collate (events ++ m ∷ [])) surviving
        absorbed
        (λ y.
          lookup-redirects_of collate w events m surviving absorbed proposal reason merges y fresh
            root)
        apart (canonical_root collate events surviving surviving s_root) root n x c walk end)

includes-append :
    (xs ys : List String) (a : String) → includes (xs ++ ys) a ≡ (includes xs a || includes ys a)
unfolding includes
includes-append [] ys a = refl
includes-append (x ∷ xs) ys a = ground (arith, includes-append xs ys a)

module _ (before later : List DomainEvent) (m r : DomainEvent) (surviving : String)
    (absorbed : List String) (proposal reason : Option String)
    (merges : m.body ≡ entity_merged surviving absorbed proposal reason) (undone : String)
    (restored : List String) (why : String)
    (reverts : r.body ≡ entity_merge_reverted m.event_id undone restored why) where
  abbrev with_both : List DomainEvent
  with_both = before ++ (m ∷ (later ++ r ∷ []))

  abbrev kept : List DomainEvent → DomainEvent → Bool
  kept log e = not (includes (reverted_merges log) e.event_id)

  reverted-tail : reverted_merges (m ∷ (later ++ r ∷ [])) ≡ reverted_merges later ++ m.event_id ∷ []
  unfolding reverted_merges
  reverted-tail = rw merges (
      reverted_merges-append later (r ∷ [])
      ∙ ap (λ (l : List String). reverted_merges later ++ l) (rw reverts refl))

  merges-tail : filter is_merge (m ∷ (later ++ r ∷ [])) ≡ m ∷ filter is_merge later
  unfolding filter
  merges-tail =
      filter-keep is_merge m (later ++ r ∷ []) (rw merges refl)
      ∙ ap (λ (l : List DomainEvent). m ∷ l)
          (filter-append is_merge later (r ∷ [])
            ∙ ap (λ (l : List DomainEvent). filter is_merge later ++ l)
                (filter-drop is_merge r [] (rw reverts refl))
            ∙ append-nil (filter is_merge later))

  includes-with_both :
      (id : String)
      → includes (reverted_merges with_both) id
        ≡ (includes (reverted_merges (before ++ later)) id || m.event_id == id)
  unfolding includes
  includes-with_both id =
      ap (λ (l : List String). includes l id)
        (reverted_merges-append before (m ∷ (later ++ r ∷ []))
          ∙ ap (λ (l : List String). reverted_merges before ++ l) reverted-tail)
      ∙ ground (
        arith,
        ap (λ (l : List String). includes l id) (reverted_merges-append before later),
        includes-append (reverted_merges before) (reverted_merges later ++ m.event_id ∷ []) id,
        includes-append (reverted_merges later) (m.event_id ∷ []) id,
        includes-append (reverted_merges before) (reverted_merges later) id,
      )

  dropped : kept with_both m ≡ false
  dropped = ap not (includes-with_both m.event_id) ∙ ground (arith, ==_iff m.event_id m.event_id)

  module _ (unique : (e : DomainEvent) → In e (before ++ later) → e.event_id ≢ m.event_id) where
    as_before :
        (part : List DomainEvent)
        → ((e : DomainEvent) → In e part → In e (before ++ later))
        → filter (kept with_both) (filter is_merge part)
          ≡ filter (kept (before ++ later)) (filter is_merge part)
    as_before part inside =
        filter_congr (kept with_both) (kept (before ++ later)) (filter is_merge part) λ e i.
          let other = unique e (inside e ((In-filter is_merge e part).0 i).0) in
          ap not (includes-with_both e.event_id) ∙ elim (Bool-cases (m.event_id == e.event_id)) [
            | inl same ↦ absurd (other (sym ((==_iff m.event_id e.event_id).0 same)))
            | inr new ↦ ground arith
          ]

    standing-with_both : standing with_both ≡ standing (before ++ later)
    standing-with_both =
        let fb = filter is_merge before in
        let fl = filter is_merge later in
        ap (filter (kept with_both)) (
          filter-append is_merge before (m ∷ (later ++ r ∷ []))
          ∙ ap (λ (l : List DomainEvent). fb ++ l) merges-tail)
        ∙ filter-append (kept with_both) fb (m ∷ fl)
        ∙ ap (λ (l : List DomainEvent). filter (kept with_both) fb ++ l)
            (filter-drop (kept with_both) m fl dropped)
        ∙ ap (λ (l : List DomainEvent). l ++ filter (kept with_both) fl)
            (as_before before (λ e i. (In-append e before later).1 (inl i)))
        ∙ ap (λ (l : List DomainEvent). filter (kept (before ++ later)) fb ++ l)
            (as_before later (λ e i. (In-append e before later).1 (inr i)))
        ∙ sym (filter-append (kept (before ++ later)) fb fl)
        ∙ ap (filter (kept (before ++ later))) (sym (filter-append is_merge before later))

-- A merge that is reverted leaves no trace in what is canonical: with the merge's event and the
-- reversal's in the log, whatever stands between them, every entity leads where it leads without the
-- two. The merge's identifier is that of no other event.
pub canonical_entity_id_from_events-revert :
    (collate : String → String → Bool) (before later : List DomainEvent) (m r : DomainEvent)
    (surviving : String) (absorbed : List String) (proposal reason : Option String)
    (undone : String) (restored : List String) (why x : String)
    → m.body ≡ entity_merged surviving absorbed proposal reason
    → r.body ≡ entity_merge_reverted m.event_id undone restored why
    → ((e : DomainEvent) → In e (before ++ later) → e.event_id ≢ m.event_id)
    → canonical_entity_id_from_events collate (before ++ (m ∷ (later ++ r ∷ []))) x
      ≡ canonical_entity_id_from_events collate (before ++ later) x
unfolding canonical_entity_id_from_events redirects_of active_entity_merge_events
canonical_entity_id_from_events-revert collate before later m r surviving absorbed proposal reason
      undone restored why x merges reverts unique =
    ap
      (λ (l : List DomainEvent).
        follow_redirects (redirects_from (sort (event_order collate) l) []) x)
      (standing-with_both before later m r surviving absorbed proposal reason merges undone restored
        why reverts unique)
