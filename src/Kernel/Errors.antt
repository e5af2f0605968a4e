-- ===== src/Kernel/Errors.antt =====
-- packages/kernel/src/errors.ts, with the other errors that the packages above the kernel throw.
use kotowari.Base.{String}

pub data KernelErrorCode : Type 0 where
  invalid_id provenance_required provenance_invalid missing_context_snapshot : KernelErrorCode
  chain_of_thought_rejected bitemporal_invalid invalid_status_transition : KernelErrorCode
  evidence_required invalid_confidence namespace_mismatch cross_tenant_denied : KernelErrorCode
  classification_denied visibility_denied delegation_denied namespace_denied : KernelErrorCode
  action_denied allow : KernelErrorCode

-- What a caller can catch: a `KernelError`, a `CapabilityKnowledgeError`, or a plain `Error`.
pub data Failure : Type 0 where
  kernel_error : KernelErrorCode → String → Failure
  knowledge_error : String → Failure
  plain_error : String → Failure
  ontology_error : String → Failure
