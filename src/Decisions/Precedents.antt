-- ===== src/Decisions/Precedents.antt =====
-- `findDecisionPrecedentsCapability` of packages/capability-decision/src/decision.ts. What the code
-- computes in floating point, `+`, `*` and the quotient of two counts, is a parameter; its constants
-- are the doubles that stand for 0.6, 0.25 and 0.15.
pub mod Search
pub mod Laws
use kotowari.Base.{
  add_all, set_of, ℕ, String, List, [], ◌∷◌, ◌++◌, map, Option, none, some, Bool, not, ◌||◌,
  string_eq, ◌==◌, nat_eq, length, get_or, head?, filter, any, includes, if◌then◌else◌,
}
use kotowari.Base.Exec.{Exec, ◌>>=◌, pure, lift}
use kotowari.Base.Number.{Number, pos, integer, num_lt}
use kotowari.Base.Slices.{slice_to}
use kotowari.Base.Sorting.{sort}
use kotowari.Kernel.Errors.{Failure}
use kotowari.Kernel.World.{World}
use kotowari.Kernel.Ids.{as_decision_id}
use kotowari.Kernel.Access.{Principal, decision_read, allowed, denied}
use kotowari.Kernel.Authorization.{allow_now}
use kotowari.Kernel.Decision.{Decision}
use kotowari.PluginSdk.Store.{get_decision, list_decisions}
use kotowari.PluginSdk.System.{Run, on_world, read}
use kotowari.Decisions.{call_context, decision_resource}

pub record DecisionPrecedent : Type 0 where
  pub decision : Decision
  pub score : Number
  pub reasons : List String

pub record Arithmetic : Type 0 where
  pub plus : Number → Number → Number
  pub times : Number → Number → Number
  pub ratio : ℕ → ℕ → Number

-- Whom the principal may read, each asked at its own reading of the clock.
unfoldable pub readable : Principal → List Decision → Exec World Failure (List Decision)
readable principal [] = pure []
readable principal (candidate ∷ candidates) = do
  decision ←
      allow_now principal decision_read (decision_resource candidate)
        (call_context principal (some "precedent-search"))
  rest ← readable principal candidates
  pure (elim decision.effect [ allowed ↦ candidate ∷ rest | denied ↦ rest ])

abbrev pub is_positive : DecisionPrecedent → Bool
is_positive precedent = num_lt (integer 0) precedent.score

-- `right.score - left.score < 0`
abbrev pub scores_above : DecisionPrecedent → DecisionPrecedent → Bool
scores_above left right = num_lt right.score left.score

module _ (calc : Arithmetic) where
  unfoldable pub claim_overlap : Decision → Decision → Number
  unfolding add_all
  claim_overlap left right =
      let left_ids = set_of left.input_context_snapshot.claim_ids in
      let right_ids = set_of right.input_context_snapshot.claim_ids in
      if nat_eq (length left_ids) 0 || nat_eq (length right_ids) 0
      then integer 0
      else calc.ratio (length (filter (λ id. includes right_ids id) left_ids))
          (length (set_of (left_ids ++ right_ids)))

  abbrev pub same_outcome : Decision → Decision → Bool
  same_outcome target candidate = candidate.selected_outcome == target.selected_outcome

  abbrev pub same_purpose : Decision → Decision → Bool
  same_purpose target candidate = any (λ tag. includes target.policy_tags tag) candidate.policy_tags

  unfoldable pub score_of : Decision → Decision → Number
  score_of target candidate =
      let overlap =
        calc.times (claim_overlap target candidate) (pos 5404319552844595 9007199254740991) in
      let outcome =
        if same_outcome target candidate then calc.plus overlap (pos 1 3) else overlap in
      if same_purpose target candidate
      then calc.plus outcome (pos 5404319552844595 36028797018963967)
      else outcome

  unfoldable pub precedent_of : Decision → Decision → DecisionPrecedent
  precedent_of target candidate =
      let reasons =
        (if same_outcome target candidate then "same selected outcome" ∷ [] else [])
        ++ (if same_purpose target candidate then "same decision purpose" ∷ [] else []) in
      let score = score_of target candidate in
      record {
        decision = candidate;
        score = score;
        reasons =
            if num_lt (integer 0) score then "shared historical context" ∷ reasons else reasons;
      }

  unfoldable pub rank_precedents : Decision → Number → List Decision → List DecisionPrecedent
  rank_precedents target limit candidates =
      slice_to limit (sort scores_above (filter is_positive (map (precedent_of target) candidates)))

  abbrev pub search_precedents : Principal → Number → Option Decision → Run (List DecisionPrecedent)
  search_precedents principal limit none = pure []
  search_precedents principal limit (some target) = do
    decisions ← read (list_decisions principal.tenant_id (head? principal.namespace_ids))
    candidates ← on_world (readable principal (filter (λ d. not (d.id == target.id)) decisions))
    pure (rank_precedents target limit candidates)

  unfoldable pub find_decision_precedents_capability :
      Principal → String → Option Number → Run (List DecisionPrecedent)
  find_decision_precedents_capability principal decision_id limit = do
    id ← lift (as_decision_id decision_id)
    target ← read (get_decision id)
    search_precedents principal (get_or limit (integer 5)) target
