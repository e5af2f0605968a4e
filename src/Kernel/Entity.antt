-- ===== src/Kernel/Entity.antt =====
-- packages/kernel/src: entity.ts, evidence.ts, memory.ts, entity-resolution.ts and conflict.ts.
use kotowari.Base.{String, List, Option}
use kotowari.Base.Number.{Number}
use kotowari.Kernel.Metadata.{ScopedMetadata}
use kotowari.Kernel.Provenance.{Provenance}

pub record EntityExternalId : Type 0 where
  pub system : String
  pub value : String

pub record Entity : Type 0 where
  pub metadata : ScopedMetadata
  pub open metadata use *
  pub id : String
  pub labels : List String
  pub aliases : List String
  pub external_ids : Option (List EntityExternalId)
  pub recorded_at : String
  pub provenance : Provenance

pub record Evidence : Type 0 where
  pub metadata : ScopedMetadata
  pub open metadata use *
  pub id : String
  pub uri : String
  pub content_hash : String
  pub mime_type : String
  pub title : Option String
  pub recorded_at : String
  pub provenance : Provenance

pub data MemoryKind : Type 0 where
  observation note thread : MemoryKind

pub record MemoryRecord : Type 0 where
  pub metadata : ScopedMetadata
  pub open metadata use *
  pub id : String
  pub kind : MemoryKind
  pub body : String
  pub actor : String
  pub recorded_at : String
  pub provenance : Provenance

pub data SignalKind : Type 0 where
  external_id_exact label_exact alias_exact strong_token_overlap : SignalKind
  partial_token_overlap substring : SignalKind

pub record EntityResolutionSignal : Type 0 where
  pub kind : SignalKind
  pub score : Number
  pub source : String
  pub candidate : String
  pub detail : String

pub record EntityResolutionProposal : Type 0 where
  pub metadata : ScopedMetadata
  pub open metadata use *
  pub id : String
  pub source_entity_id : String
  pub candidate_entity_id : String
  pub score : Number
  pub signals : List EntityResolutionSignal
  pub resolver_version : String
  pub proposed_by : String
  pub proposed_at : String
  pub provenance : Provenance

pub data ResolutionOutcome : Type 0 where
  approved rejected : ResolutionOutcome

pub record EntityResolutionDecision : Type 0 where
  pub metadata : ScopedMetadata
  pub open metadata use *
  pub id : String
  pub proposal_id : String
  pub outcome : ResolutionOutcome
  pub reason : String
  pub decided_by : String
  pub decided_at : String
  pub provenance : Provenance

pub record EntityMergeLineage : Type 0 where
  pub metadata : ScopedMetadata
  pub open metadata use *
  pub merge_event_id : String
  pub resolution_proposal_id : Option String
  pub surviving_entity_id : String
  pub absorbed_entity_ids : List String
  pub reason : Option String
  pub recorded_at : String
  pub provenance : Provenance
  pub reverted_by_event_id : Option String
  pub reverted_at : Option String
  pub revert_reason : Option String

pub data ConflictKind : Type 0 where
  value type temporal logical : ConflictKind

pub data ResolutionStrategy : Type 0 where
  recency source_credibility majority human_review : ResolutionStrategy

pub record CardinalityConflictRule : Type 0 where
  pub predicate : String
  pub terms : List String
  pub max : Number
  pub source : Option String

pub record ConflictCause : Type 0 where
  pub subject : String
  pub predicate : String
  pub max : Number
  pub rule_source : Option String

pub record Conflict : Type 0 where
  pub metadata : ScopedMetadata
  pub open metadata use *
  pub id : String
  pub kind : ConflictKind
  pub claim_ids : List String
  pub cause : Option ConflictCause
  pub provenance : Option Provenance
  pub recorded_at : String

pub record ConflictResolution : Type 0 where
  pub metadata : ScopedMetadata
  pub open metadata use *
  pub id : String
  pub claim_ids : List String
  pub strategy : ResolutionStrategy
  pub preferred_claim_id : String
  pub reason : String
  pub provenance : Provenance
  pub recorded_at : String
