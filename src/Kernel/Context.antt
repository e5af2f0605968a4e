-- ===== src/Kernel/Context.antt =====
-- packages/kernel/src/context.ts and retrieval.ts: snapshots, policies and retrieval receipts.
use kotowari.Base.{ℕ, String, List, Option, Bool}
use kotowari.Base.Number.{Number}
use kotowari.Kernel.Metadata.{ScopedMetadata, Classification, TemporalPerspective}
use kotowari.Kernel.Provenance.{Provenance}
use kotowari.Kernel.Access.{AuthorizationReceipt}

pub record ContextSliceItem : Type 0 where
  pub claim_id : String
  pub evidence_ids : List String

pub record PolicyVersionRef : Type 0 where
  pub policy_id : String
  pub policy_version_id : String
  pub version : Number

pub record ContextSnapshot : Type 0 where
  pub metadata : ScopedMetadata
  pub open metadata use *
  pub id : String
  pub captured_at : String
  pub purpose : String
  pub temporal : TemporalPerspective
  pub retrieval_receipt_id : Option String
  pub namespace_ids : List String
  pub claim_ids : List String
  pub evidence_ids : List String
  pub policy_versions : List PolicyVersionRef
  pub policy_version_ids : Option (List String)
  pub items : List ContextSliceItem
  pub budget : Number

pub record PolicyRules : Type 0 where
  pub min_confidence : Option Number
  pub allowed_outcomes : Option (List String)
  pub max_classification : Option Classification

pub data PolicyStatus : Type 0 where
  draft active retired : PolicyStatus

pub record PolicyApplicability : Type 0 where
  pub purposes : Option (List String)
  pub namespace_ids : Option (List String)
  pub classifications : Option (List Classification)

-- The fields that a `PolicyVersion` has beyond those of a `PolicyRecord`.
pub record VersionFields : Type 0 where
  pub policy_id : String
  pub version_id : String
  pub status : PolicyStatus
  pub effective_from : Option String
  pub effective_to : Option String
  pub applicability : PolicyApplicability

-- A `PolicyRecord`; `versioned` has the fields of one that is a `PolicyVersion`.
pub record PolicyRecord : Type 0 where
  pub metadata : ScopedMetadata
  pub open metadata use *
  pub id : String
  pub version : Number
  pub name : String
  pub rules : PolicyRules
  pub versioned : Option VersionFields

pub record PolicyEvaluation : Type 0 where
  pub metadata : ScopedMetadata
  pub open metadata use *
  pub policy_id : String
  pub policy_version : Number
  pub compliant : Bool
  pub violations : List String
  pub provenance : Provenance

pub record RetrievalScoreComponents : Type 0 where
  pub lexical : Option Number
  pub vector : Option Number
  pub graph : Option Number

pub record RetrievalReceiptSelection : Type 0 where
  pub claim_id : String
  pub evidence_ids : List String
  pub score : Number
  pub score_components : RetrievalScoreComponents

pub record RetrievalReceiptOmission : Type 0 where
  pub classification : String
  pub count : ℕ

pub record RetrievalReceipt : Type 0 where
  pub metadata : ScopedMetadata
  pub open metadata use *
  pub id : String
  pub query_hash : String
  pub purpose : Option String
  pub temporal : TemporalPerspective
  pub plan_version : String
  pub selected : List RetrievalReceiptSelection
  pub omissions : List RetrievalReceiptOmission
  pub authorization_receipts : List AuthorizationReceipt
  pub executed_at : String
  pub provenance : Provenance
