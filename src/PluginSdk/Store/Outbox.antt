-- ===== src/PluginSdk/Store/Outbox.antt =====
-- The outbox: events wait there until they are acknowledged.
use kotowari.Base.{
  String, List, [], ◌∷◌, Bool, true, false, not, ◌≡◌, ◌⊎◌, inl, inr, refl, sym, ◌∙◌, ap, arith,
  string_eq, ◌==◌, ==_iff, filter, In, Bool-cases,
}
use kotowari.Kernel.Events.{DomainEvent}
use kotowari.PluginSdk.Store.{Store, ack_outbox, remove_first}

abbrev is_for : String → DomainEvent → Bool
is_for id e = e.event_id == id

abbrev pub HasId : String → List DomainEvent → Type 0
HasId id l = (e : DomainEvent) × In e l × (e.event_id ≡ id)

-- No two events of the list have one identifier.
abbrev pub HasDistinctIds : List DomainEvent → Type 0
HasDistinctIds [] = Unit
HasDistinctIds (e ∷ l) = ¬ (HasId e.event_id l) × HasDistinctIds l

module _ (id : String) where
  others_kept :
      (l : List DomainEvent)
      → filter (λ e. not (is_for id e)) (remove_first id l) ≡ filter (λ e. not (is_for id e)) l
  unfolding remove_first filter
  others_kept [] = refl
  others_kept (e ∷ l) = ground (arith, others_kept l)

  kept_first :
      (y x : DomainEvent) (l : List DomainEvent)
      → (y.event_id == id) ≡ true
      → In x (remove_first id (y ∷ l))
      → In x l
  unfolding remove_first
  kept_first y x l same m = rw same at m

  kept_other :
      (y x : DomainEvent) (l : List DomainEvent)
      → (y.event_id == id) ≡ false
      → In x (remove_first id (y ∷ l))
      → (x ≡ y) ⊎ In x (remove_first id l)
  unfolding remove_first
  kept_other y x l other m = rw other at m

  gone : (l : List DomainEvent) → HasDistinctIds l → ¬ (HasId id (remove_first id l))
  unfolding remove_first
  gone [] h (x, m, e) = m
  gone (y ∷ l) (fresh, h) (x, m, e) = elim (Bool-cases (y.event_id == id)) [
    | inl same ↦ fresh (x, kept_first y x l same m, e ∙ sym ((==_iff y.event_id id).0 same))
    | inr other ↦ elim (kept_other y x l other m) [
      | inl here ↦
          cc (other, (==_iff y.event_id id).1 (ap (λ (z : DomainEvent). z.event_id) (sym here) ∙ e))
      | inr there ↦ gone l h (x, there, e)
    ]
  ]

-- Where the identifiers in the outbox are distinct, acknowledging an event leaves every other event
-- where it was, and no event of that identifier.
ack_outbox-exact :
    (id : String) (s : Store)
    → HasDistinctIds s.outbox
    → (filter (λ e. not (e.event_id == id)) (ack_outbox id s).outbox
        ≡ filter (λ e. not (e.event_id == id)) s.outbox)
      × ¬ (HasId id (ack_outbox id s).outbox)
unfolding ack_outbox
ack_outbox-exact id s h = (others_kept id s.outbox, gone id s.outbox h)
