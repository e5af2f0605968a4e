-- ===== src/Knowledge/Entities/Candidates.antt =====
-- `findEntityResolutionCandidates` and `findEntityResolutionCandidatesForEntity` of
-- packages/capability-knowledge/src/entity-resolution.ts.
use Prim.Native.String
use kotowari.Base.{
  String, List, [], ◌∷◌, ◌++◌, map, Option, none, some, Bool, string_eq, option_eq, get_or,
  includes, Dict, lookup, insert, values, if◌then◌else◌,
}
use kotowari.Base.Exec.{◌>>=◌, ◌>>◌, pure, lift}
use kotowari.Base.Number.{Number, pos, integer, num_lt}
use kotowari.Base.Slices.{slice_to}
use kotowari.Base.Sorting.{sort, then_by}
use kotowari.Kernel.Access.{Principal, knowledge_read, AuthorizationReceipt, action_text, kind_text}
use kotowari.Kernel.Authorization.{assert_allowed}
use kotowari.Kernel.Entity.{Entity, EntityExternalId, EntityResolutionSignal}
use kotowari.Kernel.Events.{DomainEvent}
use kotowari.PluginSdk.Store.{Store, list_entities, get_entity}
use kotowari.PluginSdk.System.{Run, on_world, read}
use kotowari.Knowledge.{call_context, entity_resource}
use kotowari.Knowledge.Merges.{canonical_entity_id_from_events}
use kotowari.Knowledge.Signals.{
  Platform, CandidateQuery, signals_for_entity, score_signals, unique_signals, max_of,
}
use kotowari.Knowledge.Entities.{require_entity, read_receipt, resolution_purpose}

pub record EntityResolutionCandidate : Type 0 where
  pub entity : Entity
  pub canonical_entity_id : String
  pub matched_entity_ids : List String
  pub score : Number
  pub signals : List EntityResolutionSignal
  pub reasons : List String
  pub authorization_receipts : List AuthorizationReceipt

pub record MutableCandidate : Type 0 where
  pub entity : Entity
  pub matched_entity_ids : List String
  pub score : Number
  pub signals : List EntityResolutionSignal
  pub authorization_receipts : List AuthorizationReceipt

-- The key under which receipts are one.
abbrev pub receipt_key : AuthorizationReceipt → String
receipt_key receipt = String.◌++◌ (action_text receipt.action) (
    String.◌++◌ "\0"
      (String.◌++◌ (kind_text receipt.resource_kind) (String.◌++◌ "\0" receipt.resource_id)))

unfoldable pub receipts_by_key :
    List AuthorizationReceipt → Dict String AuthorizationReceipt → Dict String AuthorizationReceipt
receipts_by_key [] kept = kept
receipts_by_key (receipt ∷ rest) kept =
    receipts_by_key rest (insert (receipt_key receipt) receipt kept)

-- `byId.set(entity.id, entity)` for each.
unfoldable pub by_id : List Entity → Dict String Entity → Dict String Entity
by_id [] kept = kept
by_id (entity ∷ rest) kept = by_id rest (insert entity.id entity kept)

-- The loop of `scopedEntities` over the namespaces.
unfoldable pub scoped_from : String → List String → Store → Dict String Entity → Dict String Entity
scoped_from tenant_id [] s kept = kept
scoped_from tenant_id (namespace_id ∷ rest) s kept =
    scoped_from tenant_id rest s (by_id (list_entities tenant_id (some namespace_id) s) kept)

unfoldable pub scoped_entities : Principal → Store → List Entity
scoped_entities principal s = values (scoped_from principal.tenant_id principal.namespace_ids s [])

-- `set.add(id)`
abbrev pub add_id : List String → String → List String
add_id ids id = if includes ids id then ids else ids ++ id ∷ []

-- `continue` where a value is missing.
abbrev pub or_skip :
    {A : Type 0}
    → Option A
    → Dict String MutableCandidate
    → (A → Run (Dict String MutableCandidate))
    → Run (Dict String MutableCandidate)
or_skip none candidates f = pure candidates
or_skip (some a) candidates f = f a

abbrev pub skip_if :
    Bool
    → Dict String MutableCandidate
    → Run (Dict String MutableCandidate)
    → Run (Dict String MutableCandidate)
skip_if failing candidates rest = if failing then pure candidates else rest

-- `entityById.get(id) ?? (await store.getEntity(id))`
abbrev pub known_or_stored : Option Entity → Option Entity → Option Entity
known_or_stored none stored = stored
known_or_stored (some entity) stored = some entity

-- What is searched for, and what is left out.
pub record Search : Type 0 where
  pub query : CandidateQuery
  pub minimum : Number
  pub excluded : Option String

module _ (platform : Platform) (collate : String → String → Bool) where
  unfoldable pub unique_receipts : List AuthorizationReceipt → List AuthorizationReceipt
  unique_receipts receipts =
      sort
        (λ left right.
          then_by (collate (kind_text left.resource_kind) (kind_text right.resource_kind))
            (collate (kind_text right.resource_kind) (kind_text left.resource_kind))
            (collate left.resource_id right.resource_id))
        (values (receipts_by_key receipts []))

  -- A match joins the candidate that it leads to.
  abbrev pub joined :
      Option MutableCandidate
      → Entity
      → String
      → Number
      → List EntityResolutionSignal
      → List AuthorizationReceipt
      → MutableCandidate
  joined none canonical matched_id score signals receipts = record {
    entity = canonical;
    matched_entity_ids = matched_id ∷ [];
    score = score;
    signals = signals;
    authorization_receipts = receipts;
  }
  joined (some existing) canonical matched_id score signals receipts = record existing {
    matched_entity_ids = add_id existing.matched_entity_ids matched_id;
    score = max_of existing.score score;
    signals = unique_signals collate (existing.signals ++ signals);
    authorization_receipts = existing.authorization_receipts ++ receipts;
  }

  -- The body of the loop over the entities.
  unfoldable pub consider :
      Principal
      → Search
      → List Entity
      → List DomainEvent
      → Entity
      → Dict String MutableCandidate
      → Run (Dict String MutableCandidate)
  consider principal search entities events matched candidates = do
    answer ← on_world (read_receipt principal matched)
    or_skip answer candidates λ matched_receipt.
        let signals = signals_for_entity platform collate search.query matched in
        let score = score_signals signals in
        skip_if (num_lt score search.minimum) candidates do
          canonical_id ← lift (canonical_entity_id_from_events collate events matched.id)
          skip_if (option_eq (some canonical_id) search.excluded) candidates do
            stored ← read (get_entity canonical_id)
            or_skip (known_or_stored (lookup canonical_id (by_id entities [])) stored) candidates
                λ canonical. do
                  second ← on_world (read_receipt principal canonical)
                  or_skip second candidates λ canonical_receipt. pure (
                      insert canonical.id
                        (joined (lookup canonical.id candidates) canonical matched.id score signals
                          (matched_receipt ∷ canonical_receipt ∷ []))
                        candidates)

  unfoldable pub consider_all :
      Principal
      → Search
      → List Entity
      → List DomainEvent
      → List Entity
      → Dict String MutableCandidate
      → Run (Dict String MutableCandidate)
  consider_all principal search entities events [] candidates = pure candidates
  consider_all principal search entities events (matched ∷ rest) candidates = do
    joined_by ← consider principal search entities events matched candidates
    consider_all principal search entities events rest joined_by

  unfoldable pub candidate_of : MutableCandidate → EntityResolutionCandidate
  candidate_of candidate = record {
    entity = candidate.entity;
    canonical_entity_id = candidate.entity.id;
    matched_entity_ids = sort collate candidate.matched_entity_ids;
    score = candidate.score;
    signals = unique_signals collate candidate.signals;
    reasons =
        map (λ (signal : EntityResolutionSignal). signal.detail)
          (unique_signals collate candidate.signals);
    authorization_receipts = unique_receipts candidate.authorization_receipts;
  }

  abbrev pub candidate_order : EntityResolutionCandidate → EntityResolutionCandidate → Bool
  candidate_order left right =
      then_by (num_lt right.score left.score) (num_lt left.score right.score)
        (collate left.entity.id right.entity.id)

  -- `minScore ?? 0.5` and `limit ?? 5`.
  unfoldable pub find_candidates :
      Principal
      → CandidateQuery
      → Option Number
      → Option Number
      → Option String
      → Run (List EntityResolutionCandidate)
  find_candidates principal query limit min_score excluded = do
    entities ← read (scoped_entities principal)
    events ← read (λ s. s.events)
    candidates ←
        consider_all principal
          (record { query = query; minimum = get_or min_score (pos 1 1); excluded = excluded })
          entities events entities []
    pure (
        slice_to (get_or limit (integer 5))
          (sort candidate_order (map candidate_of (values candidates))))

  unfoldable pub find_entity_resolution_candidates :
      Principal
      → String
      → Option (List EntityExternalId)
      → Option Number
      → Option Number
      → Run (List EntityResolutionCandidate)
  find_entity_resolution_candidates principal label external_ids limit min_score =
      find_candidates principal
        (record { labels = label ∷ []; external_ids = get_or external_ids [] }) limit min_score none

  unfoldable pub find_entity_resolution_candidates_for_entity :
      Principal → String → Option Number → Option Number → Run (List EntityResolutionCandidate)
  find_entity_resolution_candidates_for_entity principal entity_id limit min_score = do
    source ← require_entity entity_id
    on_world (
        assert_allowed principal knowledge_read (entity_resource source)
          (call_context principal (some resolution_purpose)))
    events ← read (λ s. s.events)
    canonical_source_id ← lift (canonical_entity_id_from_events collate events source.id)
    find_candidates principal
        (record {
          labels = source.labels ++ source.aliases;
          external_ids = get_or source.external_ids [];
        })
        limit min_score (some canonical_source_id)
