-- ===== src/Knowledge/ResolutionStore.antt =====
-- `createEventBackedEntityResolutionStore` of
-- packages/capability-knowledge/src/entity-resolution-store.ts: proposals, decisions and merges of
-- entities, read from the log of events.
use kotowari.Base.{
  String, List, [], ◌∷◌, Option, none, some, Bool, false, not, ◌&&◌, ◌||◌, string_eq, ◌==◌,
  absent_or, ◌++◌, filter, includes, Dict, lookup, insert, if◌then◌else◌, Result,
}
use kotowari.Base.Exec.{◌>>◌, pure}
use kotowari.Base.Sorting.{sort, then_by}
use kotowari.Kernel.Errors.{Failure}
use kotowari.Kernel.Entity.{
  Entity, EntityResolutionProposal, EntityResolutionDecision, EntityMergeLineage,
}
use kotowari.Kernel.Events.{
  DomainEvent, entity_resolution_proposed, entity_resolution_decided, entity_merged,
  entity_merge_reverted,
}
use kotowari.PluginSdk.Store.{Store, append_event, get_entity}
use kotowari.PluginSdk.System.{Run, write}
use kotowari.Knowledge.Merges.{is_merge, event_order, canonical_entity_id_from_events}

pub record EntityResolutionFilter : Type 0 where
  pub tenant_id : String
  pub namespace_id : Option String
  pub entity_id : Option String

unfoldable pub proposal_matches : EntityResolutionProposal → EntityResolutionFilter → Bool
proposal_matches proposal wanted =
    (proposal.tenant_id == wanted.tenant_id)
    && absent_or wanted.namespace_id (λ n. proposal.namespace_id == n)
    && absent_or wanted.entity_id
        (λ id. (proposal.source_entity_id == id) || (proposal.candidate_entity_id == id))

abbrev pub proposal_event : EntityResolutionProposal → DomainEvent
proposal_event proposal = record {
  event_id = proposal.id;
  tenant_id = proposal.tenant_id;
  provenance = proposal.provenance;
  occurred_at = proposal.proposed_at;
  body = entity_resolution_proposed proposal;
}

unfoldable pub put_proposal : EntityResolutionProposal → Run DomainEvent
put_proposal proposal = do
  write (append_event (proposal_event proposal))
  pure (proposal_event proposal)

-- The first proposal whose event has the identifier.
unfoldable pub find_proposal : String → List DomainEvent → Option EntityResolutionProposal
find_proposal id [] = none
find_proposal id (e ∷ es) =
    let rest = find_proposal id es in
    elim e.body [
      | entity_resolution_proposed proposal ↦ if e.event_id == id then some proposal else rest
      | _ ↦ rest
    ]

unfoldable pub get_proposal : String → Store → Option EntityResolutionProposal
get_proposal id s = find_proposal id s.events

unfoldable pub proposals_of : List DomainEvent → List EntityResolutionProposal
proposals_of [] = []
proposals_of (e ∷ es) = elim e.body [
  | entity_resolution_proposed proposal ↦ proposal ∷ proposals_of es
  | _ ↦ proposals_of es
]

abbrev pub decision_event : EntityResolutionDecision → DomainEvent
decision_event decision = record {
  event_id = decision.id;
  tenant_id = decision.tenant_id;
  provenance = decision.provenance;
  occurred_at = decision.decided_at;
  body = entity_resolution_decided decision;
}

unfoldable pub put_decision : EntityResolutionDecision → Run DomainEvent
put_decision decision = do
  write (append_event (decision_event decision))
  pure (decision_event decision)

unfoldable pub decisions_of : List DomainEvent → List EntityResolutionDecision
decisions_of [] = []
decisions_of (e ∷ es) = elim e.body [
  | entity_resolution_decided decision ↦ decision ∷ decisions_of es
  | _ ↦ decisions_of es
]

-- The last reversal of each merge.
unfoldable pub reversals_from : List DomainEvent → Dict String DomainEvent → Dict String DomainEvent
reversals_from [] reversals = reversals
reversals_from (e ∷ es) reversals = elim e.body [
  | entity_merge_reverted merge_event_id _ _ _ ↦
      reversals_from es (insert merge_event_id e reversals)
  | _ ↦ reversals_from es reversals
]

abbrev pub revert_reason_of : DomainEvent → Option String
revert_reason_of e = elim e.body [ entity_merge_reverted _ _ _ reason ↦ some reason | _ ↦ none ]

-- What a reversal adds to a lineage.
abbrev pub with_reversal : Option DomainEvent → EntityMergeLineage → EntityMergeLineage
with_reversal none lineage = lineage
with_reversal (some reversal) lineage = record lineage {
  reverted_by_event_id = some reversal.event_id;
  reverted_at = some reversal.occurred_at;
  revert_reason = revert_reason_of reversal;
}

abbrev pub in_entity_scope : Entity → EntityResolutionFilter → Bool
in_entity_scope entity wanted =
    (entity.tenant_id == wanted.tenant_id)
    && absent_or wanted.namespace_id (λ n. entity.namespace_id == n)

-- The lineage of a merge of entities whose survivor is stored, or nothing.
abbrev pub lineage_of :
    EntityResolutionFilter
    → Dict String DomainEvent
    → DomainEvent
    → Option Entity
    → List EntityMergeLineage
lineage_of wanted reversals e none = []
lineage_of wanted reversals e (some entity) = elim e.body [
  | entity_merged surviving absorbed proposal reason ↦
      if not (in_entity_scope entity wanted)
      then []
      else with_reversal (lookup e.event_id reversals) (record {
        metadata = entity.metadata;
        merge_event_id = e.event_id;
        resolution_proposal_id = proposal;
        surviving_entity_id = surviving;
        absorbed_entity_ids = absorbed;
        reason = reason;
        recorded_at = e.occurred_at;
        provenance = e.provenance;
        reverted_by_event_id = none;
        reverted_at = none;
        revert_reason = none;
      })
        ∷ []
  | _ ↦ []
]

abbrev pub about : EntityResolutionFilter → DomainEvent → Bool
about wanted e = elim e.body [
  | entity_merged surviving absorbed _ _ ↦
      absent_or wanted.entity_id (λ id. (surviving == id) || includes absorbed id)
  | _ ↦ false
]

abbrev pub surviving_id : DomainEvent → String
surviving_id e = elim e.body [ entity_merged surviving _ _ _ ↦ surviving | _ ↦ "" ]

-- The loop of `listMergeLineage`.
unfoldable pub lineages :
    EntityResolutionFilter
    → Dict String DomainEvent
    → Store
    → List DomainEvent
    → List EntityMergeLineage
lineages wanted reversals s [] = []
lineages wanted reversals s (e ∷ es) =
    let rest = lineages wanted reversals s es in
    if about wanted e
    then lineage_of wanted reversals e (get_entity (surviving_id e) s) ++ rest
    else rest

-- `collate a b` is `a.localeCompare(b) < 0`.
module _ (collate : String → String → Bool) where
  unfoldable pub list_proposals : EntityResolutionFilter → Store → List EntityResolutionProposal
  list_proposals wanted s =
      sort
        (λ left right.
          then_by (collate left.proposed_at right.proposed_at)
            (collate right.proposed_at left.proposed_at) (collate left.id right.id))
        (filter (λ proposal. proposal_matches proposal wanted) (proposals_of s.events))

  unfoldable pub list_decisions : Option String → Store → List EntityResolutionDecision
  list_decisions proposal_id s =
      sort
        (λ left right.
          then_by (collate left.decided_at right.decided_at)
            (collate right.decided_at left.decided_at) (collate left.id right.id))
        (filter (λ decision. absent_or proposal_id (λ id. decision.proposal_id == id))
          (decisions_of s.events))

  unfoldable pub list_merge_lineage : EntityResolutionFilter → Store → List EntityMergeLineage
  list_merge_lineage wanted s =
      lineages wanted (reversals_from s.events []) s
        (sort (event_order collate) (filter is_merge s.events))

  unfoldable pub resolve_canonical_entity_id : String → Store → Result Failure String
  resolve_canonical_entity_id entity_id s =
      canonical_entity_id_from_events collate s.events entity_id
