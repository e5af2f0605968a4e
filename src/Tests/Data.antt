-- ===== src/Tests/Data.antt =====
-- A tenant with one namespace, a person who works there, a claim with its evidence, and a decision.
use kotowari.Base.{String, [], ◌∷◌, none, some}
use kotowari.Base.Number.{pos, integer}
use kotowari.Kernel.World.{World}
use kotowari.Kernel.Metadata.{ScopedMetadata, internal, workspace, TemporalPerspective, tlp_red}
use kotowari.Kernel.Provenance.{Provenance}
use kotowari.Kernel.Access.{Principal, human, ResourceKind, Resource, AuthContext}
use kotowari.Kernel.Claim.{Claim, literal, asserted}
use kotowari.Kernel.Context.{ContextSnapshot, PolicyRecord, PolicyRules, active}
use kotowari.Kernel.Decision.{Decision}
use kotowari.PluginSdk.Store.{empty_store}
use kotowari.PluginSdk.System.{System}

abbrev pub day_1 : String
day_1 = "2026-01-01T00:00:00.000Z"

abbrev pub day_2 : String
day_2 = "2026-01-02T00:00:00.000Z"

abbrev pub day_3 : String
day_3 = "2026-01-03T00:00:00.000Z"

abbrev pub world : World
world = record { uuid = λ n. "fresh"; clock = λ n. day_2; drawn = 0; readings = 0 }

abbrev pub metadata : ScopedMetadata
metadata = record {
  tenant_id = "acme";
  namespace_id = "research";
  principal_id = some "ada";
  classification = internal;
  visibility = workspace;
  policy_tags = [];
}

abbrev pub provenance : Provenance
provenance = record {
  source = "report";
  source_version = none;
  actor = "ada";
  process = "review";
  model = none;
  prompt_version = none;
  extractor_version = none;
  timestamp = day_1;
  parent_ids = [];
}

abbrev pub ada : Principal
ada = record {
  kind = human;
  id = "ada";
  tenant_id = "acme";
  clearance = tlp_red;
  namespace_ids = "research" ∷ [];
  roles = "member" ∷ [];
}

abbrev pub report : Resource
report = record { kind = ResourceKind.evidence; id = "e1"; metadata = metadata }

abbrev pub at_work : AuthContext
at_work = record { tenant_id = "acme"; purpose = none; delegation = none; now = none }

-- What the claim says of its subject from day 1 on, recorded on a day.
abbrev pub claim_of : String → String → String → Claim
claim_of id colour recorded_at = record {
  metadata = metadata;
  id = id;
  subject = "car";
  predicate = "colour";
  object = literal colour none;
  bitemporal = record {
    valid_from = day_1;
    valid_to = none;
    recorded_at = recorded_at;
    asserted_at = day_1;
  };
  confidence = integer 1;
  status = asserted;
  evidence_ids = "e1" ∷ [];
  provenance = provenance;
  extractor = none;
  model = none;
  extraction_version = none;
}

abbrev pub red_claim : Claim
red_claim = claim_of "c1" "red" day_1

abbrev pub blue_claim : Claim
blue_claim = claim_of "c2" "blue" day_1

abbrev pub now : TemporalPerspective
now = record { valid_at = some day_2; known_at = some day_2 }

abbrev pub rules : PolicyRules
rules = record {
  min_confidence = some (pos 1 1);
  allowed_outcomes = some ("approve" ∷ []);
  max_classification = some internal;
}

abbrev pub policy : PolicyRecord
policy = record {
  metadata = metadata;
  id = "v1";
  version = integer 1;
  name = "approvals";
  rules = rules;
  versioned = some (record {
    policy_id = "p1";
    version_id = "v1";
    status = active;
    effective_from = some day_1;
    effective_to = none;
    applicability = record { purposes = none; namespace_ids = none; classifications = none };
  });
}

abbrev pub snapshot : ContextSnapshot
snapshot = record {
  metadata = metadata;
  id = "s1";
  captured_at = day_1;
  purpose = "approval";
  temporal = now;
  retrieval_receipt_id = none;
  namespace_ids = "research" ∷ [];
  claim_ids = "c1" ∷ [];
  evidence_ids = "e1" ∷ [];
  policy_versions = [];
  policy_version_ids = none;
  items = [];
  budget = integer 8;
}

abbrev pub decision_of : String → Decision
decision_of id = record {
  metadata = metadata;
  id = id;
  input_context_snapshot_id = "s1";
  input_context_snapshot = snapshot;
  considered_evidence_ids = "e1" ∷ [];
  applicable_policy_ids = "p1" ∷ [];
  selected_outcome = "approve";
  alternatives = [];
  confidence = integer 1;
  actor = "ada";
  model = none;
  runtime_id = none;
  rationale = none;
  resulting_action_ids = [];
  observed_outcome = none;
  policy_evaluations = [];
  recorded_at = day_1;
  provenance = provenance;
}

-- Two decisions, and a policy.
abbrev pub system : System
system = record {
  store = record empty_store {
    decisions = ("d1", decision_of "d1") ∷ ("d2", decision_of "d2") ∷ [];
    policies = ("v1", policy) ∷ [];
  };
  world = world;
}
