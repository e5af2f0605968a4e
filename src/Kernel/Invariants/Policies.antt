-- ===== src/Kernel/Invariants/Policies.antt =====
-- `buildPolicyEvaluated` of packages/kernel/src/invariants.ts. The text of a number, which only
-- messages have, is a parameter.
pub mod Laws
use Prim.Native.String
use kotowari.Base.{
  ℕ, String, List, [], ◌∷◌, ◌++◌, Option, none, some, Bool, not, get_or, nat_eq, length, ltb,
  string_eq, includes, if◌then◌else◌, Result, ok, err,
}
use kotowari.Base.Exec.{Exec, ◌>>=◌, pure, lift}
use kotowari.Base.Number.{Number, num_lt, integer}
use kotowari.Kernel.Errors.{Failure}
use kotowari.Kernel.World.{World, new_id, now_iso}
use kotowari.Kernel.Metadata.{Classification, classification_rank, classification_text}
use kotowari.Kernel.Provenance.{assert_provenance}
use kotowari.Kernel.Context.{PolicyEvaluation}
use kotowari.Kernel.Events.{DomainEvent, policy_evaluated}
use kotowari.Kernel.Contracts.{EvaluatePolicyInput}

module _ (number_text : Number → String) where
  unfoldable pub confidence_violations : Option Number → Option Number → List String
  confidence_violations none confidence = []
  confidence_violations (some least) confidence =
      if num_lt (get_or confidence (integer 1)) least
      then String.◌++◌ "confidence below " (number_text least) ∷ []
      else []

unfoldable pub outcome_violations : Option (List String) → Option String → List String
outcome_violations (some outcomes) (some outcome) =
    if not (includes outcomes outcome)
    then String.◌++◌ "outcome " (String.◌++◌ outcome " is not allowed") ∷ []
    else []
outcome_violations _ _ = []

unfoldable pub classification_violations :
    Option Classification → Option Classification → List String
classification_violations (some most) (some given) =
    if ltb (classification_rank most) (classification_rank given)
    then String.◌++◌ "classification exceeds " (classification_text most) ∷ []
    else []
classification_violations _ _ = []

module _ (number_text : Number → String) where
  -- The messages that the three tests push, in their order.
  unfoldable pub violations : EvaluatePolicyInput → List String
  violations input =
      confidence_violations number_text input.rules.min_confidence input.confidence
      ++ (outcome_violations input.rules.allowed_outcomes input.candidate_outcome
          ++ classification_violations input.rules.max_classification input.classification)

  unfoldable pub build_policy_evaluated :
      EvaluatePolicyInput → Exec World Failure (PolicyEvaluation × DomainEvent)
  unfolding new_id now_iso
  build_policy_evaluated input = do
    provenance ← lift (assert_provenance input.provenance)
    event_id ← new_id
    occurred_at ← now_iso
    pure (
      record {
        metadata = input.metadata;
        policy_id = input.policy_id;
        policy_version = input.policy_version;
        compliant = nat_eq (length (violations input)) 0;
        violations = violations input;
        provenance = provenance;
      },
      record {
        event_id = event_id;
        tenant_id = input.metadata.tenant_id;
        provenance = provenance;
        occurred_at = occurred_at;
        body = policy_evaluated input.policy_id;
      },
    )
