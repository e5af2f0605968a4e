-- ===== src/PluginSdk/Store.antt =====
-- The `CanonicalStore` port of packages/plugin-sdk/src/ports.ts as `MemoryCanonicalStore` of
-- fakes/memory-store.ts implements it. A `Map` is an association list in insertion order.
pub mod Versions
pub mod History
pub mod Consistency
pub mod Answers
pub mod Outbox
use kotowari.Base.{
  ℕ, String, List, [], ◌∷◌, ◌++◌, Option, none, some, Bool, true, not, ◌&&◌, string_eq, ◌==◌,
  absent_or, get_or, filter, get_last?, Dict, lookup, insert, values, if◌then◌else◌,
}
use kotowari.Base.Number.{Number}
use kotowari.Base.Sorting.{sort}
use kotowari.Base.Text.{text_le}
use kotowari.Kernel.Metadata.{ScopedMetadata, TemporalPerspective, normalize_temporal_perspective}
use kotowari.Kernel.Claim.{Claim, claim_visible_at}
use kotowari.Kernel.Entity.{Entity, Evidence, MemoryRecord, Conflict, ConflictResolution}
use kotowari.Kernel.Context.{ContextSnapshot, PolicyRecord, RetrievalReceipt}
use kotowari.Kernel.Decision.{Decision}
use kotowari.Kernel.Events.{DomainEvent}

pub record Store : Type 0 where
  pub entities : Dict String Entity
  pub evidence : Dict String Evidence
  pub claims : Dict String Claim
  pub claim_history : Dict String (List Claim)
  pub decisions : Dict String Decision
  pub snapshots : Dict String ContextSnapshot
  pub retrieval_receipts : Dict String RetrievalReceipt
  pub memory : Dict String MemoryRecord
  pub policies : Dict String PolicyRecord
  pub conflicts : Dict String Conflict
  pub resolutions : Dict String ConflictResolution
  pub events : List DomainEvent
  pub outbox : List DomainEvent
  pub embeddings : Dict String (List Number)

abbrev pub empty_store : Store
empty_store = record {
  entities = [];
  evidence = [];
  claims = [];
  claim_history = [];
  decisions = [];
  snapshots = [];
  retrieval_receipts = [];
  memory = [];
  policies = [];
  conflicts = [];
  resolutions = [];
  events = [];
  outbox = [];
  embeddings = [];
}

pub record ClaimReadFilter : Type 0 where
  pub tenant_id : String
  pub namespace_id : Option String
  pub temporal : Option TemporalPerspective
  pub as_of : Option String

abbrev pub matches_tenant : ScopedMetadata → String → Bool
matches_tenant metadata tenant_id = metadata.tenant_id == tenant_id

abbrev pub matches_namespace : ScopedMetadata → Option String → Bool
matches_namespace metadata namespace_id =
    absent_or namespace_id (λ wanted. metadata.namespace_id == wanted)

-- The scope test that the lists share.
abbrev pub in_scope : ScopedMetadata → String → Option String → Bool
in_scope metadata tenant_id namespace_id =
    matches_tenant metadata tenant_id && matches_namespace metadata namespace_id

unfoldable pub put_entity : Entity → Store → Store
put_entity entity s = record s { entities = insert entity.id entity s.entities }

unfoldable pub get_entity : String → Store → Option Entity
get_entity id s = lookup id s.entities

unfoldable pub list_entities : String → Option String → Store → List Entity
list_entities tenant_id namespace_id s =
    filter (λ e. in_scope e.metadata tenant_id namespace_id) (values s.entities)

unfoldable pub put_evidence : Evidence → Store → Store
put_evidence item s = record s { evidence = insert item.id item s.evidence }

unfoldable pub get_evidence : String → Store → Option Evidence
get_evidence id s = lookup id s.evidence

-- `rememberCurrentClaim`
unfoldable pub remember_current_claim : String → Store → Store
remember_current_claim id s = elim (lookup id s.claims) [
  | none ↦ s
  | some current ↦ record s {
    claim_history =
        insert id (get_or (lookup id s.claim_history) [] ++ current ∷ []) s.claim_history;
  }
]

unfoldable pub assert_claim : Claim → Store → Store
unfolding remember_current_claim
assert_claim claim s =
    let t = remember_current_claim claim.id s in
    record t { claims = insert claim.id claim t.claims }

unfoldable pub get_claim : String → Store → Option Claim
get_claim id s = lookup id s.claims

unfoldable pub retract_claim : Claim → Store → Store
unfolding remember_current_claim
retract_claim claim s =
    let t = remember_current_claim claim.id s in
    record t { claims = insert claim.id claim t.claims }

-- The versions of a claim, the current one last.
abbrev pub versions_of : Store → Claim → List Claim
versions_of s current = get_or (lookup current.id s.claim_history) [] ++ current ∷ []

-- The loop that `listClaims` makes over the claims.
pub collect : (Claim → List Claim) → List Claim → List Claim
collect f [] = []
collect f (current ∷ rest) = f current ++ collect f rest

-- What the loop of `listClaims` adds for a claim.
abbrev pub visible_version : TemporalPerspective → Option Claim → List Claim
visible_version temporal none = []
visible_version temporal (some visible) =
    if claim_visible_at visible temporal then visible ∷ [] else []

-- `collate a b` is `a.localeCompare(b) < 0`.
module _ (collate : String → String → Bool) where
  abbrev pub recorded_before : Claim → Claim → Bool
  recorded_before left right = collate left.bitemporal.recorded_at right.bitemporal.recorded_at

  unfoldable pub latest_claim_known_at : List Claim → Option String → Option Claim
  latest_claim_known_at versions none = get_last? versions
  latest_claim_known_at versions (some known_at) = get_last? (
      sort recorded_before
        (filter (λ claim. text_le claim.bitemporal.recorded_at known_at) versions))

  abbrev pub listed : ClaimReadFilter → TemporalPerspective → Store → Claim → List Claim
  listed wanted temporal s current =
      if not (in_scope current.metadata wanted.tenant_id wanted.namespace_id)
      then []
      else visible_version temporal
          (latest_claim_known_at (versions_of s current) temporal.known_at)

  unfoldable pub list_claims : ClaimReadFilter → Store → List Claim
  unfolding collect latest_claim_known_at
  list_claims wanted s =
      let temporal = normalize_temporal_perspective wanted.temporal wanted.as_of in
      collect (listed wanted temporal s) (values s.claims)

unfoldable pub put_decision : Decision → Store → Store
put_decision decision s = record s { decisions = insert decision.id decision s.decisions }

unfoldable pub get_decision : String → Store → Option Decision
get_decision id s = lookup id s.decisions

unfoldable pub list_decisions : String → Option String → Store → List Decision
list_decisions tenant_id namespace_id s =
    filter (λ d. in_scope d.metadata tenant_id namespace_id) (values s.decisions)

unfoldable pub put_context_snapshot : ContextSnapshot → Store → Store
put_context_snapshot snapshot s = record s { snapshots = insert snapshot.id snapshot s.snapshots }

unfoldable pub get_context_snapshot : String → Store → Option ContextSnapshot
get_context_snapshot id s = lookup id s.snapshots

unfoldable pub put_retrieval_receipt : RetrievalReceipt → Store → Store
put_retrieval_receipt receipt s = record s {
  retrieval_receipts = insert receipt.id receipt s.retrieval_receipts;
}

unfoldable pub get_retrieval_receipt : String → Store → Option RetrievalReceipt
get_retrieval_receipt id s = lookup id s.retrieval_receipts

unfoldable pub put_memory : MemoryRecord → Store → Store
put_memory item s = record s { memory = insert item.id item s.memory }

unfoldable pub list_memory : String → Option String → Store → List MemoryRecord
list_memory tenant_id namespace_id s =
    filter (λ m. in_scope m.metadata tenant_id namespace_id) (values s.memory)

unfoldable pub put_policy : PolicyRecord → Store → Store
put_policy policy s = record s { policies = insert policy.id policy s.policies }

unfoldable pub get_policy : String → Store → Option PolicyRecord
get_policy id s = lookup id s.policies

unfoldable pub list_policies : String → Store → List PolicyRecord
list_policies tenant_id s = filter (λ p. matches_tenant p.metadata tenant_id) (values s.policies)

unfoldable pub put_conflict : Conflict → Store → Store
put_conflict conflict s = record s { conflicts = insert conflict.id conflict s.conflicts }

unfoldable pub put_resolution : ConflictResolution → Store → Store
put_resolution resolution s = record s {
  resolutions = insert resolution.id resolution s.resolutions;
}

unfoldable pub list_conflicts : String → Store → List Conflict
list_conflicts tenant_id s = filter (λ c. matches_tenant c.metadata tenant_id) (values s.conflicts)

unfoldable pub list_resolutions : String → Store → List ConflictResolution
list_resolutions tenant_id s =
    filter (λ r. matches_tenant r.metadata tenant_id) (values s.resolutions)

unfoldable pub append_event : DomainEvent → Store → Store
append_event event s = record s { events = s.events ++ event ∷ [] }

unfoldable pub append_outbox : DomainEvent → Store → Store
append_outbox event s = record s { outbox = s.outbox ++ event ∷ [] }

-- `findIndex` and `splice(index, 1)`: the first event with the id goes.
pub remove_first : String → List DomainEvent → List DomainEvent
remove_first id [] = []
remove_first id (e ∷ es) =
    let rest = remove_first id es in if e.event_id == id then es else e ∷ rest

unfoldable pub ack_outbox : String → Store → Store
unfolding remove_first
ack_outbox event_id s = record s { outbox = remove_first event_id s.outbox }

unfoldable pub put_embedding : String → List Number → Store → Store
put_embedding claim_id vector s = record s { embeddings = insert claim_id vector s.embeddings }

unfoldable pub list_embeddings : Store → List (String × List Number)
list_embeddings s = s.embeddings

unfoldable pub clear_embeddings : Store → Store
clear_embeddings s = record s { embeddings = [] }
