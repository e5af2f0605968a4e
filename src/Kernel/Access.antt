-- ===== src/Kernel/Access.antt =====
-- packages/kernel/src/authorization.ts: actions, resources, principals and what a decision says.
use kotowari.Base.{String, List, Option, Eq, eq_of}
use kotowari.Kernel.Errors.{KernelErrorCode}
use kotowari.Kernel.Metadata.{ScopedMetadata, Classification}

pub data Action : Type 0 where
  knowledge_read knowledge_write entity_resolve entity_merge memory_read memory_write : Action
  decision_read decision_record decision_relate decision_observe decision_approve : Action
  ingestion_write policy_evaluate policy_manage policy_exception : Action
  conflict_detect conflict_resolve audit_read admin : Action

unfoldable pub Action-discrete : Discrete Action
Action-discrete = hlevel

instance abbrev pub action_eq : Eq Action
action_eq = eq_of Action-discrete

pub data ResourceKind : Type 0 where
  claim entity evidence decision policy conflict memory context namespace : ResourceKind

pub record Resource : Type 0 where
  pub kind : ResourceKind
  pub id : String
  pub metadata : ScopedMetadata

pub record Delegation : Type 0 where
  pub delegator_id : String
  pub scope : List Action
  pub expires_at : String
  pub purpose : Option String

pub data PrincipalKind : Type 0 where
  human : PrincipalKind
  agent : (acting_for : Option String) → PrincipalKind

-- The fields that humans and agents share, and what tells them apart.
pub record Principal : Type 0 where
  pub kind : PrincipalKind
  pub id : String
  pub tenant_id : String
  pub clearance : Classification
  pub namespace_ids : List String
  pub roles : List String

pub record AuthContext : Type 0 where
  pub tenant_id : String
  pub purpose : Option String
  pub delegation : Option Delegation
  pub now : Option String

pub data Effect : Type 0 where
  allowed denied : Effect

pub record AuthDecision : Type 0 where
  pub effect : Effect
  pub reason : KernelErrorCode

pub record AuthorizationReceipt : Type 0 where
  pub principal_id : String
  pub acting_for : Option String
  pub action : Action
  pub resource_kind : ResourceKind
  pub resource_id : String
  pub effect : Effect
  pub reason : KernelErrorCode
  pub purpose : Option String
  pub delegation : Option Delegation
  pub evaluated_at : String

-- The source's spelling of the enumerations, for messages.
unfoldable pub action_text : Action → String
action_text knowledge_read = "knowledge.read"
action_text knowledge_write = "knowledge.write"
action_text entity_resolve = "entity.resolve"
action_text entity_merge = "entity.merge"
action_text memory_read = "memory.read"
action_text memory_write = "memory.write"
action_text decision_read = "decision.read"
action_text decision_record = "decision.record"
action_text decision_relate = "decision.relate"
action_text decision_observe = "decision.observe"
action_text decision_approve = "decision.approve"
action_text ingestion_write = "ingestion.write"
action_text policy_evaluate = "policy.evaluate"
action_text policy_manage = "policy.manage"
action_text policy_exception = "policy.exception"
action_text conflict_detect = "conflict.detect"
action_text conflict_resolve = "conflict.resolve"
action_text audit_read = "audit.read"
action_text admin = "admin"

unfoldable pub kind_text : ResourceKind → String
kind_text claim = "claim"
kind_text entity = "entity"
kind_text evidence = "evidence"
kind_text decision = "decision"
kind_text policy = "policy"
kind_text conflict = "conflict"
kind_text memory = "memory"
kind_text context = "context"
kind_text namespace = "namespace"
