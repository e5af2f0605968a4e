-- ===== src/Tests/Precedents.antt =====
-- The property of the search for precedents at a store of two decisions with one outcome.
use mathlib.Core.Bool.{decide}
use kotowari.Base.{
  ℕ, add_all, suc, ◌+◌, ◌*◌, ◌-◌, List, [], ◌∷◌, none, ◌≡◌, refl, ok, In, lookup, includes, filter,
  values, any, length, head?,
}
use kotowari.Base.Number.{Number, nan, pos, neg, integer, num_lt}
use kotowari.Base.Slices.{slice_to, IsWithin}
use kotowari.Base.Sorting.{sort}
use kotowari.Base.Text.{is_blank}
use kotowari.Kernel.World.{now_iso}
use kotowari.Kernel.Metadata.{Visibility-discrete}
use kotowari.Kernel.Ids.{as_decision_id}
use kotowari.Kernel.Access.{Action-discrete}
use kotowari.Kernel.Authorization.{
  allow, allow_now, deny_if_cross_tenant, deny_if_classification_insufficient, deny_if_not_admin,
  deny_if_agent_delegation_invalid, deny_if_private_visibility, deny_if_outside_namespace,
  deny_if_viewer_cannot_write,
}
use kotowari.PluginSdk.Store.{get_decision, list_decisions}
use kotowari.PluginSdk.System.{System}
use kotowari.Decisions.Precedents.{
  DecisionPrecedent, Arithmetic, claim_overlap, score_of, precedent_of, rank_precedents, readable,
  find_decision_precedents_capability,
}
use kotowari.Decisions.Precedents.Laws.{
  IsPrecedent, find_decision_precedents_capability-ArePrecedents,
}
use kotowari.Tests.Data.{ada, decision_of, system}

-- Exact sums and products of fractions that are not negative.
abbrev sum : Number → Number → Number
sum (pos a b) (pos c d) = pos (a * suc d + c * suc b) (suc b * suc d - 1)
sum _ _ = nan

abbrev product : Number → Number → Number
product (pos a b) (pos c d) = pos (a * c) (suc b * suc d - 1)
product _ _ = nan

abbrev exact : Arithmetic
exact = record { plus = sum; times = product; ratio = λ a b. pos a (b - 1) }

abbrev precedents : List DecisionPrecedent
precedents = precedent_of exact (decision_of "d1") (decision_of "d2") ∷ []

abbrev after_search : System
after_search = (find_decision_precedents_capability exact ada "d1" none system).1

searched :
    find_decision_precedents_capability exact ada "d1" none system ≡ (ok precedents, after_search)
unfolding find_decision_precedents_capability as_decision_id is_blank get_decision lookup
    list_decisions filter values readable allow_now now_iso allow deny_if_cross_tenant
    deny_if_classification_insufficient deny_if_not_admin deny_if_agent_delegation_invalid
    deny_if_private_visibility deny_if_outside_namespace deny_if_viewer_cannot_write includes
    Visibility-discrete Action-discrete decide rank_precedents slice_to sort precedent_of score_of
    claim_overlap add_all length any num_lt
searched = refl

find_decision_precedents_capability-ArePrecedents_example :
    IsWithin
      (integer 5)
      (length (list_decisions ada.tenant_id (head? ada.namespace_ids) system.store))
      (length precedents)
    × (after_search.store ≡ system.store)
    × ((x : DecisionPrecedent) → In x precedents → IsPrecedent exact ada "d1" system after_search x)
find_decision_precedents_capability-ArePrecedents_example =
    find_decision_precedents_capability-ArePrecedents exact ada "d1" none system after_search
      precedents searched

-- A slice up to an end below 0 leaves as many out, and one up to 2.5 has two.
without_the_last : slice_to {A = ℕ} (neg 1 0) (1 ∷ 2 ∷ 3 ∷ []) ≡ 1 ∷ 2 ∷ []
unfolding slice_to
without_the_last = refl

up_to_a_half : slice_to {A = ℕ} (pos 5 1) (1 ∷ 2 ∷ 3 ∷ []) ≡ 1 ∷ 2 ∷ []
unfolding slice_to
up_to_a_half = refl
