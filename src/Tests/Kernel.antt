-- ===== src/Tests/Kernel.antt =====
-- The properties of claims and of the builders of semantic writes at concrete inputs.
use kotowari.Base.{String, [], ◌∷◌, none, some, true, ◌≡◌, ◌≢◌, ◌↔◌, refl, ok, any, includes}
use kotowari.Base.Number.{Number, integer, num_lt}
use kotowari.Base.Text.{is_blank}
use kotowari.Kernel.Metadata.{internal}
use kotowari.Kernel.Provenance.{assert_provenance}
use kotowari.Kernel.Claim.{literal, claim_visible_at}
use kotowari.Kernel.Claim.Laws.{IsVisible, claim_visible_at_iff}
use kotowari.Kernel.Entity.{Entity}
use kotowari.Kernel.Context.{PolicyEvaluation}
use kotowari.Kernel.Events.{DomainEvent, EventBody, policy_evaluated}
use kotowari.Kernel.Contracts.{
  AssertClaimInput, MergeEntityInput, RecordDecisionInput, EvaluatePolicyInput,
}
use kotowari.Kernel.Invariants.Checks.{Succeeds, IsComplete, IsFreeOfThought, IsConfidence}
use kotowari.Kernel.Invariants.Claims.{build_claim_asserted}
use kotowari.Kernel.Invariants.Claims.Laws.{IsAcceptable, build_claim_asserted_iff}
use kotowari.Kernel.Invariants.Policies.{
  build_policy_evaluated, confidence_violations, outcome_violations, classification_violations,
  violations,
}
use kotowari.Kernel.Invariants.Policies.Laws.{IsCompliant, build_policy_evaluated_iff}
use kotowari.Kernel.Invariants.Decisions.{build_decision_recorded}
use kotowari.Kernel.Invariants.Decisions.Laws.{build_decision_recorded_iff}
use kotowari.Tests.Data.{day_1, day_2, world, metadata, provenance, red_claim, now, rules, snapshot}

claim_visible_at_iff_example : (claim_visible_at red_claim now ≡ true) ↔ IsVisible red_claim now
claim_visible_at_iff_example = claim_visible_at_iff red_claim now

abbrev claim_input : AssertClaimInput
claim_input = record {
  metadata = metadata;
  subject = "car";
  predicate = "colour";
  object = literal "red" none;
  valid_from = day_1;
  valid_to = none;
  asserted_at = day_1;
  confidence = integer 1;
  evidence_ids = "e1" ∷ [];
  provenance = some provenance;
  extractor = none;
  model = none;
  extraction_version = none;
  status = none;
  extra = [];
}

abbrev event_of : EventBody → DomainEvent
event_of body = record {
  event_id = "fresh";
  tenant_id = "acme";
  provenance = provenance;
  occurred_at = day_2;
  body = body;
}

build_claim_asserted_iff_example :
    Succeeds (build_claim_asserted claim_input world).0 ↔ IsAcceptable claim_input
build_claim_asserted_iff_example = build_claim_asserted_iff claim_input world

abbrev merge : MergeEntityInput
merge = record {
  metadata = metadata;
  surviving_entity_id = "car";
  absorbed_entity_ids = "auto" ∷ [];
  resolution_proposal_id = none;
  reason = none;
  provenance = some provenance;
}

abbrev car : Entity
car = record {
  metadata = metadata;
  id = "car";
  labels = "car" ∷ [];
  aliases = [];
  external_ids = none;
  recorded_at = day_1;
  provenance = provenance;
}

abbrev decision_input : RecordDecisionInput
decision_input = record {
  metadata = metadata;
  input_context_snapshot = some snapshot;
  considered_evidence_ids = "e1" ∷ [];
  applicable_policy_ids = [];
  selected_outcome = "approve";
  alternatives = [];
  confidence = integer 1;
  actor = "ada";
  model = none;
  runtime_id = none;
  rationale = none;
  resulting_action_ids = [];
  observed_outcome = none;
  policy_evaluations = [];
  provenance = some provenance;
  extra = [];
}

build_decision_recorded_iff_example : Succeeds (build_decision_recorded decision_input world).0 ↔ (
    IsComplete decision_input.provenance
    × IsFreeOfThought decision_input.extra
    × (decision_input.input_context_snapshot ≢ none)
    × IsConfidence decision_input.confidence)
build_decision_recorded_iff_example = build_decision_recorded_iff decision_input world

abbrev evaluation_request : EvaluatePolicyInput
evaluation_request = record {
  metadata = metadata;
  policy_id = "p1";
  policy_version = integer 1;
  name = "approvals";
  rules = rules;
  candidate_outcome = some "approve";
  confidence = some (integer 1);
  classification = some internal;
  provenance = some provenance;
}

abbrev number_text : Number → String
number_text n = "number"

abbrev evaluation : PolicyEvaluation
evaluation = record {
  metadata = metadata;
  policy_id = "p1";
  policy_version = integer 1;
  compliant = true;
  violations = [];
  provenance = provenance;
}

policy_kept :
    (build_policy_evaluated number_text evaluation_request world).0
    ≡ ok (evaluation, event_of (policy_evaluated "p1"))
unfolding build_policy_evaluated assert_provenance any is_blank violations confidence_violations
    outcome_violations classification_violations num_lt includes
policy_kept = refl

build_policy_evaluated_iff_example :
    ((evaluation.compliant ≡ true) ↔ IsCompliant evaluation_request)
    × ((evaluation.compliant ≡ true) ↔ (evaluation.violations ≡ []))
    × ((event_of (policy_evaluated "p1")).body ≡ policy_evaluated "p1")
    × ((event_of (policy_evaluated "p1")).tenant_id ≡ evaluation.tenant_id)
build_policy_evaluated_iff_example =
    build_policy_evaluated_iff number_text evaluation_request world evaluation
      (event_of (policy_evaluated "p1")) policy_kept
