-- ===== src/Kernel/Decision.antt =====
-- packages/kernel/src/decision.ts: decisions and the records of their later life.
use kotowari.Base.{String, List, Option, Bool, Dict}
use kotowari.Base.Number.{Number}
use kotowari.Kernel.Metadata.{ScopedMetadata}
use kotowari.Kernel.Provenance.{Provenance}
use kotowari.Kernel.Context.{ContextSnapshot, PolicyEvaluation}

pub record Decision : Type 0 where
  pub metadata : ScopedMetadata
  pub open metadata use *
  pub id : String
  pub input_context_snapshot_id : String
  pub input_context_snapshot : ContextSnapshot
  pub considered_evidence_ids : List String
  pub applicable_policy_ids : List String
  pub selected_outcome : String
  pub alternatives : List String
  pub confidence : Number
  pub actor : String
  pub model : Option String
  pub runtime_id : Option String
  pub rationale : Option String
  pub resulting_action_ids : List String
  pub observed_outcome : Option String
  pub policy_evaluations : List PolicyEvaluation
  pub recorded_at : String
  pub provenance : Provenance

pub data DecisionRelationKind : Type 0 where
  depends_on supersedes precedent_for caused informed_by : DecisionRelationKind

pub record DecisionRelation : Type 0 where
  pub metadata : ScopedMetadata
  pub open metadata use *
  pub id : String
  pub from_decision_id : String
  pub to_decision_id : String
  pub kind : DecisionRelationKind
  pub recorded_at : String
  pub provenance : Provenance

pub data OutcomeMetricValue : Type 0 where
  text : String → OutcomeMetricValue
  number : Number → OutcomeMetricValue
  flag : Bool → OutcomeMetricValue
  null : OutcomeMetricValue

pub record OutcomeObservation : Type 0 where
  pub metadata : ScopedMetadata
  pub open metadata use *
  pub id : String
  pub decision_id : String
  pub observed_at : String
  pub outcome : String
  pub metrics : Dict String OutcomeMetricValue
  pub evidence_ids : List String
  pub provenance : Provenance

pub record PolicyException : Type 0 where
  pub metadata : ScopedMetadata
  pub open metadata use *
  pub id : String
  pub decision_id : String
  pub policy_version_id : String
  pub reason : String
  pub approved_by : Option String
  pub recorded_at : String
  pub provenance : Provenance

pub data ApprovalStatus : Type 0 where
  approved rejected : ApprovalStatus

pub record ApprovalRecord : Type 0 where
  pub metadata : ScopedMetadata
  pub open metadata use *
  pub id : String
  pub decision_id : String
  pub approver : String
  pub status : ApprovalStatus
  pub method : Option String
  pub context : Option String
  pub recorded_at : String
  pub provenance : Provenance
