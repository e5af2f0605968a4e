-- ===== src/PluginSdk/Lifecycle/Refinement.antt =====
-- The event-backed lifecycle store does what four plain lists would do.
use kotowari.Base.{
  List, [], ◌∷◌, ◌++◌, String, Bool, true, ◌≡◌, ◌↔◌, refl, sym, ap, ◌∙◌, arith, filter,
  filter-append,
}
use kotowari.Kernel.Metadata.{ScopedMetadata}
use kotowari.Kernel.Decision.{DecisionRelation, OutcomeObservation, PolicyException, ApprovalRecord}
use mathlib.Core.List.{append-nil}
use kotowari.Kernel.Events.{
  EventBody, DomainEvent, decision_related, decision_outcome_observed, decision_approval_recorded,
  policy_exception_recorded,
}
use kotowari.PluginSdk.Store.{Store, append_event}
use kotowari.PluginSdk.System.{System}
use kotowari.PluginSdk.Lifecycle.Filters.{
  IsWanted, relation_matches_iff, decision_record_matches_iff,
}
use kotowari.PluginSdk.Lifecycle.{
  DecisionLifecycleFilter, relation_matches, decision_record_matches, put_decision_relation,
  put_outcome_observation, put_policy_exception, put_approval_record, relations_of, outcomes_of,
  exceptions_of, approvals_of, list_decision_relations, list_outcome_observations,
  list_policy_exceptions, list_approval_records,
}

-- The abstract store: a list of each kind of record, in the order of writing.
pub record Ledger : Type 0 where
  pub relations : List DecisionRelation
  pub outcomes : List OutcomeObservation
  pub exceptions : List PolicyException
  pub approvals : List ApprovalRecord

-- What the lists of a store answer with, for every filter.
pub record Implements (s : Store) (l : Ledger) : Type 0 where
  pub relations :
      (f : DecisionLifecycleFilter)
      → list_decision_relations f s ≡ filter (λ r. relation_matches r f) l.relations
  pub outcomes :
      (f : DecisionLifecycleFilter)
      → list_outcome_observations f s
        ≡ filter (λ o. decision_record_matches o.metadata o.decision_id f) l.outcomes
  pub exceptions :
      (f : DecisionLifecycleFilter)
      → list_policy_exceptions f s
        ≡ filter (λ x. decision_record_matches x.metadata x.decision_id f) l.exceptions
  pub approvals :
      (f : DecisionLifecycleFilter)
      → list_approval_records f s
        ≡ filter (λ a. decision_record_matches a.metadata a.decision_id f) l.approvals

relations_of-append :
    (xs ys : List DomainEvent) → relations_of (xs ++ ys) ≡ relations_of xs ++ relations_of ys
unfolding relations_of
relations_of-append [] ys = refl
relations_of-append (x ∷ xs) ys = ground (arith, relations_of-append xs ys)

outcomes_of-append :
    (xs ys : List DomainEvent) → outcomes_of (xs ++ ys) ≡ outcomes_of xs ++ outcomes_of ys
unfolding outcomes_of
outcomes_of-append [] ys = refl
outcomes_of-append (x ∷ xs) ys = ground (arith, outcomes_of-append xs ys)

exceptions_of-append :
    (xs ys : List DomainEvent) → exceptions_of (xs ++ ys) ≡ exceptions_of xs ++ exceptions_of ys
unfolding exceptions_of
exceptions_of-append [] ys = refl
exceptions_of-append (x ∷ xs) ys = ground (arith, exceptions_of-append xs ys)

approvals_of-append :
    (xs ys : List DomainEvent) → approvals_of (xs ++ ys) ≡ approvals_of xs ++ approvals_of ys
unfolding approvals_of
approvals_of-append [] ys = refl
approvals_of-append (x ∷ xs) ys = ground (arith, approvals_of-append xs ys)

-- What an event adds to the ledger.
abbrev add : Ledger → EventBody → Ledger
add l (decision_related _ _ _ r) = record l { relations = l.relations ++ r ∷ [] }
add l (decision_outcome_observed _ _ o) = record l { outcomes = l.outcomes ++ o ∷ [] }
add l (policy_exception_recorded _ _ _ x) = record l { exceptions = l.exceptions ++ x ∷ [] }
add l (decision_approval_recorded _ _ a) = record l { approvals = l.approvals ++ a ∷ [] }
add l _ = l

relations-add :
    (l : Ledger) (e : DomainEvent) (b : EventBody)
    → (add l b).relations ≡ l.relations ++ relations_of (record e { body = b } ∷ [])
unfolding relations_of
relations-add l e (decision_related _ _ _ r) = refl
relations-add l e _ = rw append-nil

outcomes-add :
    (l : Ledger) (e : DomainEvent) (b : EventBody)
    → (add l b).outcomes ≡ l.outcomes ++ outcomes_of (record e { body = b } ∷ [])
unfolding outcomes_of
outcomes-add l e (decision_outcome_observed _ _ o) = refl
outcomes-add l e _ = rw append-nil

exceptions-add :
    (l : Ledger) (e : DomainEvent) (b : EventBody)
    → (add l b).exceptions ≡ l.exceptions ++ exceptions_of (record e { body = b } ∷ [])
unfolding exceptions_of
exceptions-add l e (policy_exception_recorded _ _ _ x) = refl
exceptions-add l e _ = rw append-nil

approvals-add :
    (l : Ledger) (e : DomainEvent) (b : EventBody)
    → (add l b).approvals ≡ l.approvals ++ approvals_of (record e { body = b } ∷ [])
unfolding approvals_of
approvals-add l e (decision_approval_recorded _ _ a) = refl
approvals-add l e _ = rw append-nil

-- A filtered list that grows at its end.
filter_grows :
    {A : Type 0} (p : A → Bool) (old new ledger events ledger' : List A)
    → events ≡ old ++ new
    → filter p old ≡ filter p ledger
    → ledger' ≡ ledger ++ new
    → filter p events ≡ filter p ledger'
filter_grows p old new ledger events ledger' grown same added =
    ap (filter p) grown
    ∙ filter-append p old new
    ∙ ap (λ t. t ++ filter p new) same
    ∙ sym (filter-append p ledger new)
    ∙ ap (filter p) (sym added)

-- Appending an event to the log adds it to the ledger.
append_event-Implements :
    (s : Store) (l : Ledger) (e : DomainEvent)
    → Implements s l
    → Implements (append_event e s) (add l e.body)
unfolding append_event list_decision_relations list_outcome_observations list_policy_exceptions
    list_approval_records
append_event-Implements s l e i = record {
  relations = λ f.
      filter_grows _ _ _ _ _ _ (relations_of-append s.events _) (i.relations f)
        (relations-add l e e.body);
  outcomes = λ f.
      filter_grows _ _ _ _ _ _ (outcomes_of-append s.events _) (i.outcomes f)
        (outcomes-add l e e.body);
  exceptions = λ f.
      filter_grows _ _ _ _ _ _ (exceptions_of-append s.events _) (i.exceptions f)
        (exceptions-add l e e.body);
  approvals = λ f.
      filter_grows _ _ _ _ _ _ (approvals_of-append s.events _) (i.approvals f)
        (approvals-add l e e.body);
}

-- If the lists of a store answer as four plain lists would, then after each of the four writers
-- they answer as those lists with the record appended to the list of its kind and the others as
-- they were. Each answers with the records of its list, in their order, that are of the tenant, of the
-- namespace where one is asked for, and about the decision where one is asked for, which for a relation
-- is either of its two decisions.
pub lifecycle-Implements :
    (s : System) (l : Ledger)
    → Implements s.store l
    → ((r : DecisionRelation)
        → Implements
            (put_decision_relation r s).1.store
            (record l { relations = l.relations ++ r ∷ [] }))
      × ((o : OutcomeObservation)
          → Implements
              (put_outcome_observation o s).1.store
              (record l { outcomes = l.outcomes ++ o ∷ [] }))
      × ((x : PolicyException)
          → Implements
              (put_policy_exception x s).1.store
              (record l { exceptions = l.exceptions ++ x ∷ [] }))
      × ((a : ApprovalRecord)
          → Implements
              (put_approval_record a s).1.store
              (record l { approvals = l.approvals ++ a ∷ [] }))
      × ((r : DecisionRelation) (f : DecisionLifecycleFilter)
          → (relation_matches r f ≡ true)
            ↔ IsWanted f r.metadata (r.from_decision_id ∷ r.to_decision_id ∷ []))
      × ((metadata : ScopedMetadata) (id : String) (f : DecisionLifecycleFilter)
          → (decision_record_matches metadata id f ≡ true) ↔ IsWanted f metadata (id ∷ []))
unfolding put_decision_relation put_outcome_observation put_policy_exception put_approval_record
lifecycle-Implements s l i = (
  λ r. append_event-Implements s.store l _ i,
  λ o. append_event-Implements s.store l _ i,
  λ x. append_event-Implements s.store l _ i,
  λ a. append_event-Implements s.store l _ i,
  relation_matches_iff,
  decision_record_matches_iff,
)
