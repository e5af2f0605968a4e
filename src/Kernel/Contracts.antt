-- ===== src/Kernel/Contracts.antt =====
-- packages/kernel/src/contracts.ts: the inputs of the semantic writes. A provenance may be missing
-- at run time, and an object may have keys that its type does not name (`extra`).
use kotowari.Base.{String, List, Option}
use kotowari.Base.Number.{Number}
use kotowari.Kernel.Metadata.{ScopedMetadata, Classification}
use kotowari.Kernel.Provenance.{Provenance, Payload}
use kotowari.Kernel.Claim.{ClaimObject, ClaimStatus}
use kotowari.Kernel.Entity.{EntityExternalId, ConflictKind, ResolutionStrategy}
use kotowari.Kernel.Context.{ContextSnapshot, PolicyRules, PolicyEvaluation}

pub record AssertClaimInput : Type 0 where
  pub metadata : ScopedMetadata
  pub subject : String
  pub predicate : String
  pub object : ClaimObject
  pub valid_from : String
  pub valid_to : Option String
  pub asserted_at : String
  pub confidence : Number
  pub evidence_ids : List String
  pub provenance : Option Provenance
  pub extractor : Option String
  pub model : Option String
  pub extraction_version : Option String
  pub status : Option ClaimStatus
  pub extra : Payload

pub record RetractClaimInput : Type 0 where
  pub claim_id : String
  pub provenance : Option Provenance

pub record InsertEvidenceInput : Type 0 where
  pub metadata : ScopedMetadata
  pub uri : String
  pub content_hash : String
  pub mime_type : String
  pub title : Option String
  pub provenance : Option Provenance

pub record MergeEntityInput : Type 0 where
  pub metadata : ScopedMetadata
  pub surviving_entity_id : String
  pub absorbed_entity_ids : List String
  pub resolution_proposal_id : Option String
  pub reason : Option String
  pub provenance : Option Provenance

pub record RecordDecisionInput : Type 0 where
  pub metadata : ScopedMetadata
  pub input_context_snapshot : Option ContextSnapshot
  pub considered_evidence_ids : List String
  pub applicable_policy_ids : List String
  pub selected_outcome : String
  pub alternatives : List String
  pub confidence : Number
  pub actor : String
  pub model : Option String
  pub runtime_id : Option String
  pub rationale : Option String
  pub resulting_action_ids : List String
  pub observed_outcome : Option String
  pub policy_evaluations : List PolicyEvaluation
  pub provenance : Option Provenance
  pub extra : Payload

pub record EvaluatePolicyInput : Type 0 where
  pub metadata : ScopedMetadata
  pub policy_id : String
  pub policy_version : Number
  pub name : String
  pub rules : PolicyRules
  pub candidate_outcome : Option String
  pub confidence : Option Number
  pub classification : Option Classification
  pub provenance : Option Provenance

pub record ResolveConflictInput : Type 0 where
  pub metadata : ScopedMetadata
  pub kind : ConflictKind
  pub claim_ids : List String
  pub strategy : ResolutionStrategy
  pub preferred_claim_id : String
  pub reason : String
  pub provenance : Option Provenance

pub record PutEntityInput : Type 0 where
  pub metadata : ScopedMetadata
  pub labels : List String
  pub aliases : Option (List String)
  pub external_ids : Option (List EntityExternalId)
  pub provenance : Option Provenance
