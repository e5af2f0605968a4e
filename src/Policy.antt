-- ===== src/Policy.antt =====
-- packages/capability-policy/src/policy.ts: policies and their versions.
pub mod Applicability
pub mod Versions
pub mod Impact
use Prim.Native.String
use kotowari.Base.{
  String, List, [], ◌∷◌, map, Option, none, some, Bool, true, false, not, ◌&&◌, ◌||◌, string_eq,
  ◌==◌, get_or, is_some, absent_or, filter, includes, head?, throw_if, if◌then◌else◌, Eq, Result,
  ok, err,
}
use kotowari.Base.Exec.{Exec, ◌>>=◌, ◌>>◌, pure, lift, raise}
use kotowari.Base.Number.{Number}
use kotowari.Base.Text.{text_lt, text_le}
use kotowari.Kernel.Errors.{Failure, plain_error}
use kotowari.Kernel.World.{World, new_id}
use kotowari.Kernel.Metadata.{
  Classification, internal, workspace, classification_eq, ScopedMetadata,
}
use kotowari.Kernel.Provenance.{Provenance, compact_provenance}
use kotowari.Kernel.Access.{Principal}
use kotowari.Kernel.Context.{
  PolicyVersionRef, PolicyRecord, PolicyRules, VersionFields, PolicyStatus, active,
  PolicyApplicability, PolicyEvaluation,
}
use kotowari.Kernel.Decision.{Decision}
use kotowari.Kernel.Events.{DomainEvent}
use kotowari.Kernel.Contracts.{EvaluatePolicyInput}
use kotowari.Kernel.Invariants.Policies.{build_policy_evaluated}
use kotowari.PluginSdk.Store
use kotowari.PluginSdk.Store.{list_decisions}
use kotowari.PluginSdk.System.{Run, on_world, read, write}

abbrev pub ref_of : PolicyRecord → Option VersionFields → PolicyVersionRef
ref_of policy (some v) = record {
  policy_id = v.policy_id;
  policy_version_id = v.version_id;
  version = policy.version;
}
ref_of policy none = record {
  policy_id = policy.id;
  policy_version_id = policy.id;
  version = policy.version;
}

unfoldable pub policy_version_ref : PolicyRecord → PolicyVersionRef
policy_version_ref policy = ref_of policy policy.versioned

module _ (number_text : Number → String) where
  unfoldable pub policy_version_key : PolicyRecord → String
  policy_version_key policy =
      let ref = policy_version_ref policy in
      String.◌++◌ ref.policy_version_id (String.◌++◌ "@" (number_text ref.version))

pub record PolicyQuery : Type 0 where
  pub purpose : Option String
  pub namespace_id : Option String
  pub classification : Option Classification
  pub at : Option String

abbrev pub is_active : PolicyStatus → Bool
is_active active = true
is_active _ = false

-- The instant lies outside the version's effective window.
abbrev pub outside_window : VersionFields → Option String → Bool
outside_window v none = false
outside_window v (some at) =
    not (absent_or v.effective_from (λ from. not (text_lt at from)))
    || not (absent_or v.effective_to (λ to. not (text_le to at)))

-- `given !== undefined && listed !== undefined && !listed.includes(given)`
abbrev pub is_left_out : {A : Type 0} ⦃e : Eq A⦄ → Option A → Option (List A) → Bool
is_left_out (some given) (some listed) = not (includes listed given)
is_left_out _ _ = false

abbrev pub version_applies : VersionFields → PolicyQuery → Bool
version_applies v input =
    if not (is_active v.status)
    then false
    else if outside_window v input.at
    then false
    else if is_left_out input.purpose v.applicability.purposes
    then false
    else if is_left_out input.namespace_id v.applicability.namespace_ids
    then false
    else if is_left_out input.classification v.applicability.classifications
    then false
    else true

abbrev pub applies : Option VersionFields → PolicyQuery → Bool
applies none input = true
applies (some v) input = version_applies v input

unfoldable pub is_policy_applicable : PolicyRecord → PolicyQuery → Bool
is_policy_applicable policy input = applies policy.versioned input

unfoldable pub select_applicable_policies : List PolicyRecord → PolicyQuery → List PolicyRecord
select_applicable_policies policies input =
    filter (λ policy. is_policy_applicable policy input) policies

pub record VersionInput : Type 0 where
  pub policy_id : Option String
  pub name : String
  pub version : Number
  pub rules : PolicyRules
  pub status : Option PolicyStatus
  pub effective_from : Option String
  pub effective_to : Option String
  pub applicability : Option PolicyApplicability

abbrev pub applies_everywhere : PolicyApplicability
applies_everywhere = record { purposes = none; namespace_ids = none; classifications = none }

-- `from !== undefined && to !== undefined && to <= from`
abbrev pub is_empty_window : Option String → Option String → Bool
is_empty_window (some from) (some to) = text_le to from
is_empty_window _ _ = false

-- `principal.namespaceIds[0]`, which a call needs.
abbrev pub first_namespace : Option String → Result Failure String
first_namespace none = err (plain_error "Principal has no namespace")
first_namespace (some namespace_id) = ok namespace_id

-- `input.policyId ?? newId('PolicyId')`
abbrev pub id_or_new : Option String → Exec World Failure String
id_or_new none = new_id
id_or_new (some id) = pure id

unfoldable pub put_policy_version : Principal → VersionInput → Run PolicyRecord
unfolding new_id Store.put_policy
put_policy_version principal input = do
  namespace_id ← lift (first_namespace (head? principal.namespace_ids))
  lift (
      throw_if (is_empty_window input.effective_from input.effective_to)
        (plain_error "effectiveTo must be greater than effectiveFrom"))
  version_id ← on_world new_id
  policy_id ← on_world (id_or_new input.policy_id)
  let policy : PolicyRecord = record {
    metadata = record {
      tenant_id = principal.tenant_id;
      namespace_id = namespace_id;
      principal_id = some principal.id;
      classification = internal;
      visibility = workspace;
      policy_tags = [];
    };
    id = version_id;
    version = input.version;
    name = input.name;
    rules = input.rules;
    versioned = some (record {
      policy_id = policy_id;
      version_id = version_id;
      status = get_or input.status active;
      effective_from = input.effective_from;
      effective_to = input.effective_to;
      applicability = get_or input.applicability applies_everywhere;
    });
  }
  write (Store.put_policy policy)
  pure policy

unfoldable pub put_policy : Principal → String → Number → PolicyRules → Run PolicyRecord
put_policy principal name version rules = put_policy_version principal (record {
  policy_id = none;
  name = name;
  version = version;
  rules = rules;
  status = none;
  effective_from = none;
  effective_to = none;
  applicability = none;
})

-- What a policy is asked about: `selectedOutcome`, `confidence` and `classification`.
pub record DecisionCandidate : Type 0 where
  pub selected_outcome : String
  pub confidence : Number
  pub classification : Classification

abbrev pub candidate_of : Decision → DecisionCandidate
candidate_of decision = record {
  selected_outcome = decision.selected_outcome;
  confidence = decision.confidence;
  classification = decision.classification;
}

pub record PolicyImpact : Type 0 where
  pub decision_id : String
  pub would_fail : Bool
  pub violations : List String

-- What `evaluateDecisionAgainstPolicy` asks the kernel.
abbrev pub evaluation_input :
    Principal → PolicyRecord → DecisionCandidate → Provenance → EvaluatePolicyInput
evaluation_input principal policy decision provenance = record {
  metadata = record {
    tenant_id = principal.tenant_id;
    namespace_id = policy.namespace_id;
    principal_id = some principal.id;
    classification = policy.classification;
    visibility = policy.visibility;
    policy_tags = policy.policy_tags;
  };
  policy_id = (policy_version_ref policy).policy_id;
  policy_version = policy.version;
  name = policy.name;
  rules = policy.rules;
  candidate_outcome = some decision.selected_outcome;
  confidence = some decision.confidence;
  classification = some decision.classification;
  provenance = some provenance;
}

module _ (number_text : Number → String) where
  unfoldable pub evaluate_decision_against_policy :
      Principal → PolicyRecord → DecisionCandidate → Exec World Failure PolicyEvaluation
  evaluate_decision_against_policy principal policy decision = do
    provenance ← compact_provenance "policy" principal.id "policy.evaluate" none
    (evaluation, event) ←
        build_policy_evaluated number_text (evaluation_input principal policy decision provenance)
    pure evaluation

  -- `decisions.map`
  pub foresee : Principal → PolicyRecord → List Decision → Exec World Failure (List PolicyImpact)
  foresee principal policy [] = pure []
  foresee principal policy (d ∷ ds) = do
    evaluation ← evaluate_decision_against_policy principal policy (candidate_of d)
    rest ← foresee principal policy ds
    pure (
        record {
          decision_id = d.id;
          would_fail = not evaluation.compliant;
          violations = evaluation.violations;
        }
        ∷ rest)

  unfoldable pub what_if_policy : Principal → PolicyRecord → Run (List PolicyImpact)
  unfolding foresee
  what_if_policy principal policy = do
    decisions ← read (list_decisions principal.tenant_id (head? principal.namespace_ids))
    on_world (foresee principal policy decisions)
