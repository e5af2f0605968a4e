-- ===== src/Tests/Store.antt =====
-- The properties of the store at concrete contents.
use mathlib.Core.Bool.{decide}
use kotowari.Base.{
  String, [], ◌∷◌, ◌++◌, none, some, Bool, true, ◌≡◌, ◌↔◌, inl, refl, arith, string_eq, In, filter,
  lookup, values,
}
use kotowari.Base.Sorting.{IsWeakOrder, sort}
use kotowari.Base.Text.{text_lt, text_lt_asym, text_le_lt_trans}
use kotowari.Kernel.Claim.{Claim, claim_visible_at, ClaimStatus-discrete}
use kotowari.Kernel.Metadata.{ScopedMetadata}
use kotowari.Kernel.Decision.{DecisionRelation, OutcomeObservation, PolicyException, ApprovalRecord}
use kotowari.Kernel.Events.{DomainEvent, claim_asserted}
use kotowari.PluginSdk.Store.{
  Store, ClaimReadFilter, empty_store, assert_claim, list_claims, latest_claim_known_at,
}
use kotowari.PluginSdk.Store.Versions.{IsConsistent, FitsScope}
use kotowari.PluginSdk.Store.Consistency.{assert_claim-IsConsistent, empty_store-IsConsistent}
use kotowari.PluginSdk.Store.Answers.{IsAnswer, list_claims-IsAnswer}
use kotowari.PluginSdk.Store.History.{list_claims-assert_claim_later}
use kotowari.PluginSdk.Lifecycle.Filters.{IsWanted}
use kotowari.PluginSdk.Lifecycle.{
  DecisionLifecycleFilter, relation_matches, decision_record_matches, put_decision_relation,
  put_outcome_observation, put_policy_exception, put_approval_record, list_decision_relations,
  list_outcome_observations, list_policy_exceptions, list_approval_records,
}
use kotowari.PluginSdk.Lifecycle.Refinement.{Ledger, Implements, lifecycle-Implements}
use kotowari.Tests.Data.{day_1, day_2, day_3, provenance, claim_of, red_claim, now, system}

-- A collation that compares the texts as the claims' instants are compared.
abbrev pub collate : String → String → Bool
collate = text_lt

pub collate_order : IsWeakOrder collate
collate_order = record {
  asym = text_lt_asym;
  negatively_transitive = λ a b c e f. ground (arith, text_le_lt_trans b a c);
}

fits_empty : FitsScope red_claim empty_store
unfolding lookup
fits_empty old e = cc

assert_claim-IsConsistent_example : IsConsistent (assert_claim red_claim empty_store)
assert_claim-IsConsistent_example =
    assert_claim-IsConsistent red_claim empty_store empty_store-IsConsistent fits_empty

abbrev stored : Store
stored = record empty_store { claims = ("c1", red_claim) ∷ [] }

stored-IsConsistent : IsConsistent stored
unfolding lookup
stored-IsConsistent = record {
  keyed = (refl, tt);
  distinct = (refl, tt);
  no_orphans = λ k e. refl;
  scoped = λ k c e. tt;
}

abbrev everything : ClaimReadFilter
everything = record {
  tenant_id = "acme";
  namespace_id = some "research";
  temporal = some now;
  as_of = none;
}

red_listed : In red_claim (list_claims collate everything stored)
unfolding list_claims latest_claim_known_at claim_visible_at lookup values filter sort text_lt
    ClaimStatus-discrete decide
red_listed = inl refl

list_claims-IsAnswer_example : IsAnswer collate everything stored red_claim
list_claims-IsAnswer_example =
    list_claims-IsAnswer collate collate_order stored stored-IsConsistent everything red_claim
      red_listed

abbrev repainted : Claim
repainted = claim_of "c1" "green" day_3

fits_stored : FitsScope repainted stored
unfolding lookup
fits_stored old e = ground arith

not_yet : text_lt day_2 day_3 ≡ true
unfolding text_lt
not_yet = refl

list_claims-assert_claim_later_example :
    list_claims collate everything (assert_claim repainted stored)
    ≡ list_claims collate everything stored
list_claims-assert_claim_later_example =
    list_claims-assert_claim_later collate everything repainted stored day_2 stored-IsConsistent
      fits_stored refl not_yet

abbrev event : String → DomainEvent
event id = record {
  event_id = id;
  tenant_id = "acme";
  provenance = provenance;
  occurred_at = day_1;
  body = claim_asserted "c1";
}

abbrev ledger : Ledger
ledger = record { relations = []; outcomes = []; exceptions = []; approvals = [] }

no_records : Implements system.store ledger
unfolding list_decision_relations list_outcome_observations list_policy_exceptions
    list_approval_records filter
no_records = record {
  relations = λ f. refl;
  outcomes = λ f. refl;
  exceptions = λ f. refl;
  approvals = λ f. refl;
}

lifecycle-Implements_example :
    ((r : DecisionRelation)
      → Implements
          (put_decision_relation r system).1.store
          (record ledger { relations = [] ++ r ∷ [] }))
    × ((o : OutcomeObservation)
        → Implements
            (put_outcome_observation o system).1.store
            (record ledger { outcomes = [] ++ o ∷ [] }))
    × ((x : PolicyException)
        → Implements
            (put_policy_exception x system).1.store
            (record ledger { exceptions = [] ++ x ∷ [] }))
    × ((a : ApprovalRecord)
        → Implements
            (put_approval_record a system).1.store
            (record ledger { approvals = [] ++ a ∷ [] }))
    × ((r : DecisionRelation) (f : DecisionLifecycleFilter)
        → (relation_matches r f ≡ true)
          ↔ IsWanted f r.metadata (r.from_decision_id ∷ r.to_decision_id ∷ []))
    × ((metadata : ScopedMetadata) (id : String) (f : DecisionLifecycleFilter)
        → (decision_record_matches metadata id f ≡ true) ↔ IsWanted f metadata (id ∷ []))
lifecycle-Implements_example = lifecycle-Implements system ledger no_records
