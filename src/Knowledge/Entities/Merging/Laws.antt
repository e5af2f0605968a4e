-- ===== src/Knowledge/Entities/Merging/Laws.antt =====
-- What a merge does to the log, and so to what is canonical.
use mathlib.Core.Path.{subst}
use kotowari.Base.{
  ◌+◌, String, [], ◌∷◌, Option, none, some, Bool, false, not, ◌&&◌, string_eq, ◌==◌, ==_iff, Result,
  ok, throw_if, ◌≡◌, ◌≢◌, ◌⊎◌, inl, inr, sym, ◌∙◌, ap, arith, All, find, get_last?, includes,
  if◌then◌else◌, Option-cases, Bool-cases,
}
use kotowari.Base.Exec.{continue-ok, pure-eq-ok}
use kotowari.Base.Sorting.{IsWeakOrder}
use kotowari.Kernel.Errors.{Failure}
use kotowari.Kernel.Ids.{as_event_id, as_entity_id}
use kotowari.Kernel.World.{World, now_iso, new_id}
use kotowari.Kernel.Provenance.{compact_provenance}
use kotowari.Kernel.Access.{entity_merge, Principal}
use kotowari.Kernel.Contracts.{MergeEntityInput}
use kotowari.Kernel.Entity.{
  Entity, EntityResolutionProposal, EntityResolutionDecision, EntityMergeLineage, approved,
}
use kotowari.Kernel.Events.{DomainEvent, entity_merged}
use kotowari.Kernel.Invariants.Entities.{build_entity_merged}
use kotowari.Kernel.Invariants.Entities.Laws.{build_entity_merged_iff}
use kotowari.PluginSdk.Store.{Store, get_entity, append_event, append_outbox}
use kotowari.PluginSdk.System.{System}
use kotowari.Decisions.Lifecycle.Lookup.{find-eq-some}
use kotowari.Knowledge.Merges.{reverted_merges, canonical_entity_id_from_events}
use kotowari.Knowledge.Merges.Canonical.{canonical_entity_id_from_events-merge}
use kotowari.Knowledge.ResolutionStore.{get_proposal, list_decisions, list_merge_lineage}
use kotowari.Knowledge.Entities.{
  resolution_purpose, found_proposal, writable_pair, resolution_metadata, assert_resolution_roots,
}
use kotowari.Knowledge.Entities.Proposals.{merges_proposal}
use kotowari.Knowledge.Entities.Steps.{
  writable_pair-IsWritable, as_event_id-eq, as_entity_id-eq, throw_if-eq, found_proposal-eq,
  resolution_metadata-state, MayWriteFrom, assert_resolution_roots-state,
  assert_resolution_roots-IsRoot,
}
use kotowari.Knowledge.Entities.Merging.{
  other_entity, approved_proposal, require_approved, require_unmerged, reason_or, read_lineage,
  store_merge, merge_approved_entity_resolution,
}

built_event :
    (i : MergeEntityInput) (surviving e : Entity) (w : World) (m : DomainEvent)
    → (build_entity_merged i surviving w).0 ≡ ok (e, m)
    → m.body
      ≡ entity_merged i.surviving_entity_id i.absorbed_entity_ids i.resolution_proposal_id i.reason
unfolding build_entity_merged now_iso new_id
built_event i surviving e w m h = ground arith

require_approved-eq :
    (id : String) (o : Option EntityResolutionDecision) (d : EntityResolutionDecision)
    → require_approved id o ≡ ok d
    → (o ≡ some d) × (d.outcome ≡ approved)
require_approved-eq id none d h = cc
require_approved-eq id (some c) d h = ground arith

abbrev Found : Type 0
Found = String × EntityResolutionProposal × EntityResolutionDecision × String

one_of : (a b c : String) → (not (a == b) && not (a == c)) ≡ false → (a ≡ b) ⊎ (a ≡ c)
one_of a b c h = elim (Bool-cases (a == b)) [
  | inl first ↦ inl ((==_iff a b).0 first)
  | inr other ↦ inr ((==_iff a c).0 (ground arith))
]

require_unmerged-eq : (o : Option DomainEvent) → require_unmerged o ≡ ok tt → o ≡ none
require_unmerged-eq o h = ground arith

module _ (collate : String → String → Bool) where
  pub read_lineage-state :
      (e : Entity) (id : String) (s : System) → (read_lineage collate e id s).1 ≡ s
  unfolding read_lineage
  read_lineage-state e id s = ground arith

  pub read_lineage-id :
      (e : Entity) (id : String) (s : System) (x : EntityMergeLineage)
      → (read_lineage collate e id s).0 ≡ ok x
      → x.merge_event_id ≡ id
  unfolding read_lineage
  read_lineage-id e id s x h =
      let test = λ (item : EntityMergeLineage). item.merge_event_id == id in
      let items =
        list_merge_lineage collate
          (record {
            tenant_id = e.tenant_id;
            namespace_id = some e.namespace_id;
            entity_id = some e.id;
          })
          s.store in
      elim (Option-cases (find test items)) [
        | inl lost ↦ absurd (ground arith)
        | inr (item, hit) ↦
            let same : item ≡ x = ground arith in
            (==_iff x.merge_event_id id).0 (rw same at ((find-eq-some test items item hit).1))
      ]

  store_merge_lem :
      (p : Principal) (id reason : String) (surviving absorbed : Entity) (s t : System)
      (x : EntityMergeLineage)
      → store_merge collate p id reason surviving absorbed s ≡ (ok x, t)
      → (m : DomainEvent) × (m.body
          ≡ entity_merged surviving.id (absorbed.id ∷ []) (some id) (some reason))
        × (x.merge_event_id ≡ m.event_id)
        × (surviving.id ≢ absorbed.id)
        × (t.store ≡ append_outbox m (append_event m s.store))
  unfolding store_merge now_iso compact_provenance
  store_merge_lem p id reason surviving absorbed s t x h =
      let both = surviving ∷ absorbed ∷ [] in
      let s1 : System = record s { world = record (s.world) { readings = s.world.readings + 1 } } in
      let s2 = (resolution_metadata collate p both s1).1 in
      let (metadata, e1, h1) = continue-ok _ (resolution_metadata collate p both s1).0 s2 h in
      let input : MergeEntityInput = record {
        metadata = metadata;
        surviving_entity_id = surviving.id;
        absorbed_entity_ids = absorbed.id ∷ [];
        resolution_proposal_id = some id;
        reason = some reason;
        provenance = some (record {
          source = resolution_purpose;
          source_version = none;
          actor = p.id;
          process = "entity.merge_resolution";
          model = none;
          prompt_version = none;
          extractor_version = none;
          timestamp = s.world.clock s.world.readings;
          parent_ids = [];
        });
      } in
      let s3 : System = record s2 { world = (build_entity_merged input surviving s2.world).1 } in
      let ((e, m), e2, h2) = continue-ok _ (build_entity_merged input surviving s2.world).0 s3 h1 in
      let after : Store → Store = λ u. append_outbox m (append_event m u) in
      let s4 : System = record s3 { store = after s3.store } in
      let answer : (read_lineage collate surviving m.event_id s4) ≡ (ok x, t) = h2 in
      (
        m,
        built_event input surviving e s2.world m e2,
        read_lineage-id surviving m.event_id s4 x
            (ap (λ (q : Result Failure EntityMergeLineage × System). q.0) answer),
        λ same. ((build_entity_merged_iff input surviving s2.world).0 ((e, m), e2)).2 (inl same),
        ap (λ (q : Result Failure EntityMergeLineage × System). q.1.store) (sym answer)
            ∙ ap (λ (u : System). u.store) (read_lineage-state surviving m.event_id s4)
            ∙ ap (λ (u : System). after u.store) (resolution_metadata-state collate p both s1),
      )

  approved_lem :
      (id surviving_id k v : String) (q : EntityResolutionProposal) (d : EntityResolutionDecision)
      (s t : System)
      → approved_proposal collate id surviving_id s ≡ (ok (k, q, d, v), t)
      → ((k ≡ id) × (v ≡ surviving_id) × (t ≡ s))
        × ((get_proposal id s.store ≡ some q)
            × (get_last? (list_decisions collate (some id) s.store) ≡ some d)
            × (d.outcome ≡ approved))
        × ((surviving_id ≡ q.source_entity_id) ⊎ (surviving_id ≡ q.candidate_entity_id))
  unfolding approved_proposal
  approved_lem id surviving_id k v q d s t h =
      let (pid, e1, h1) = continue-ok _ (as_event_id id) s h in
      let (q', e2, h2) = continue-ok _ (found_proposal id (get_proposal pid s.store)) s h1 in
      let (d', e3, h3) =
        continue-ok _ (require_approved pid (get_last? (list_decisions collate (some pid) s.store)))
          s h2 in
      let (sid, e4, h4) = continue-ok _ (as_entity_id surviving_id) s h3 in
      let (_, e5, h5) =
        continue-ok _
          (throw_if (not (sid == q'.source_entity_id) && not (sid == q'.candidate_entity_id)) _) s
          h4 in
      let (made, final) = pure-eq-ok (pid, q', d', sid) (k, q, d, v) s t h5 in
      let pid_same : pid ≡ id = as_event_id-eq id pid e1 in
      let sid_same : sid ≡ surviving_id = as_entity_id-eq surviving_id sid e4 in
      let is_q : q' ≡ q = ap (λ (z : Found). z.1) made in
      let is_d : d' ≡ d = ap (λ (z : Found). z.2) made in
      let (listed, passed) = require_approved-eq pid _ d' e3 in
      (
        (
          sym (ap (λ (z : Found). z.0) made) ∙ pid_same,
          sym (ap (λ (z : Found). z.3) made) ∙ sid_same,
          sym final,
        ),
        (
          ap (λ (z : String). get_proposal z s.store) (sym pid_same)
              ∙ found_proposal-eq id (get_proposal pid s.store) q' e2
              ∙ ap some is_q,
          ap (λ (z : String). get_last? (list_decisions collate (some z) s.store)) (sym pid_same)
              ∙ listed
              ∙ ap some is_d,
          ap (λ (z : EntityResolutionDecision). z.outcome) (sym is_d) ∙ passed,
        ),
        subst
            (λ (z : EntityResolutionProposal).
              (surviving_id ≡ z.source_entity_id) ⊎ (surviving_id ≡ z.candidate_entity_id))
            is_q
            (subst (λ (z : String). (z ≡ q'.source_entity_id) ⊎ (z ≡ q'.candidate_entity_id))
              sid_same
              (one_of sid q'.source_entity_id q'.candidate_entity_id (throw_if-eq _ _ e5))),
      )

-- What a merge that returns `x` has done.
pub record IsMerged (collate : String → String → Bool) (p : Principal) (id surviving_id : String)
    (reason : Option String) (s t : System) (x : EntityMergeLineage) : Type 0 where
  pub proposal : EntityResolutionProposal
  pub decision : EntityResolutionDecision
  pub surviving : Entity
  pub absorbed : Entity
  pub event : DomainEvent
  pub is_approved :
      (get_proposal id s.store ≡ some proposal)
      × (get_last? (list_decisions collate (some id) s.store) ≡ some decision)
      × (decision.outcome ≡ approved)
  pub is_first : find (merges_proposal id) s.store.events ≡ none
  pub one_of_both :
      (surviving_id ≡ proposal.source_entity_id) ⊎ (surviving_id ≡ proposal.candidate_entity_id)
  pub are_stored :
      (get_entity surviving_id s.store ≡ some surviving)
      × (get_entity (other_entity surviving_id proposal) s.store ≡ some absorbed)
      × (surviving.id ≢ absorbed.id)
  pub may :
      All (MayWriteFrom p entity_merge s.world.clock s.world.readings) (surviving ∷ absorbed ∷ [])
  pub are_roots :
      (canonical_entity_id_from_events collate s.store.events surviving.id ≡ ok surviving.id)
      × (canonical_entity_id_from_events collate s.store.events absorbed.id ≡ ok absorbed.id)
  pub body :
      event.body
      ≡ entity_merged surviving.id
          (absorbed.id ∷ [])
          (some id)
          (some (reason_or reason decision.reason))
  pub named : x.merge_event_id ≡ event.event_id
  pub appended : t.store ≡ append_outbox event (append_event event s.store)

-- A merge that returns is of a stored proposal whose last decision approves it, and which no merge of
-- the log names; the survivor is one of its two entities and the other is absorbed; both are stored and
-- different, the principal may merge both, and each was its own canonical entity; and the call has
-- appended one event to the log and to the outbox and changed nothing else of the store: the merge of
-- the absorbed entity into the survivor under the proposal, with the reason that is given or else that
-- of the decision.
pub merge_approved_entity_resolution-IsMerged :
    (collate : String → String → Bool) (p : Principal) (id surviving_id : String)
    (reason : Option String) (s t : System) (x : EntityMergeLineage)
    → merge_approved_entity_resolution collate p id surviving_id reason s ≡ (ok x, t)
    → IsMerged collate p id surviving_id reason s t x
unfolding merge_approved_entity_resolution append_event append_outbox
merge_approved_entity_resolution-IsMerged collate p id surviving_id reason s t x h =
    let found = approved_proposal collate id surviving_id s in
    let ((k, q, d, v), e1, h1) = continue-ok _ found.0 found.1 h in
    let (names, stored, one) =
      approved_lem collate id surviving_id k v q d s found.1 (λ i. (e1 i, found.1)) in
    let pair = writable_pair p entity_merge v (other_entity v q) found.1 in
    let ((surviving, absorbed), e2, h2) = continue-ok _ pair.0 pair.1 h1 in
    let both =
      writable_pair-IsWritable p entity_merge v (other_entity v q) found.1 pair.1 surviving absorbed
        (λ i. (e2 i, pair.1)) in
    let rooted = assert_resolution_roots collate (surviving ∷ absorbed ∷ []) pair.1 in
    let (_, e3, h3) = continue-ok _ rooted.0 rooted.1 h2 in
    let (_, e4, h4) =
      continue-ok _ (require_unmerged (find (merges_proposal k) rooted.1.store.events)) rooted.1
        h3 in
    let (m, body, lineage, apart, after) =
      store_merge_lem collate p k (reason_or reason d.reason) surviving absorbed rooted.1 t x h4 in
    let same_pair_store : pair.1.store ≡ s.store =
      both.kept ∙ ap (λ (u : System). u.store) names.2 in
    let same_store : rooted.1.store ≡ s.store =
      ap (λ (u : System). u.store)
        (assert_resolution_roots-state collate (surviving ∷ absorbed ∷ []) pair.1)
      ∙ same_pair_store in
    let after_s : t.store ≡ append_outbox m (append_event m s.store) =
      after ∙ ap (λ (u : Store). append_outbox m (append_event m u)) same_store in
    let roots =
      subst
        (λ (u : Store).
          All (λ (z : Entity). canonical_entity_id_from_events collate u.events z.id ≡ ok z.id)
            (surviving ∷ absorbed ∷ []))
        same_pair_store
        (assert_resolution_roots-IsRoot collate (surviving ∷ absorbed ∷ []) pair.1 e3) in
    record {
      proposal = q;
      decision = d;
      surviving = surviving;
      absorbed = absorbed;
      event = m;
      is_approved = stored;
      is_first =
          ap (λ (z : String). find (merges_proposal z) s.store.events) (sym names.0)
          ∙ ap (λ (u : Store). find (merges_proposal k) u.events) (sym same_store)
          ∙ require_unmerged-eq _ e4;
      one_of_both = one;
      are_stored = (
        ap (λ (z : String). get_entity z s.store) (sym names.1)
            ∙ ap (λ (u : System). get_entity v u.store) (sym names.2)
            ∙ both.first,
        ap (λ (z : String). get_entity (other_entity z q) s.store) (sym names.1)
            ∙ ap (λ (u : System). get_entity (other_entity v q) u.store) (sym names.2)
            ∙ both.second,
        apart,
      );
      may =
          subst
            (λ (u : System).
              All (MayWriteFrom p entity_merge u.world.clock u.world.readings)
                (surviving ∷ absorbed ∷ []))
            names.2 both.may;
      are_roots = (roots.0, roots.1.0);
      body =
          body
          ∙ ap
              (λ (z : String).
                entity_merged surviving.id (absorbed.id ∷ []) (some z)
                  (some (reason_or reason d.reason)))
              names.0;
      named = lineage;
      appended = after_s;
    }

-- Where no reversal of the log names the new event, the canonical entity of whatever led to the
-- absorbed one is the survivor after the merge, and that of anything else is as before.
pub IsMerged-canonical :
    (collate : String → String → Bool) (p : Principal) (id surviving_id : String)
    (reason : Option String) (s t : System) (x : EntityMergeLineage) (y c : String)
    (made : IsMerged collate p id surviving_id reason s t x)
    → IsWeakOrder collate
    → includes (reverted_merges s.store.events) x.merge_event_id ≡ false
    → canonical_entity_id_from_events collate s.store.events y ≡ ok c
    → canonical_entity_id_from_events collate t.store.events y
      ≡ ok (if made.absorbed.id == c then made.surviving.id else c)
unfolding append_event append_outbox
IsMerged-canonical collate p id surviving_id reason s t x y c made w fresh leads =
    ap (λ (u : Store). canonical_entity_id_from_events collate u.events y) made.appended
    ∙ canonical_entity_id_from_events-merge collate s.store.events made.event made.surviving.id
        made.absorbed.id y c (some id) (some (reason_or reason made.decision.reason)) w made.body
        (ap (includes (reverted_merges s.store.events)) (sym made.named) ∙ fresh) made.are_stored.2
        made.are_roots.0 made.are_roots.1 leads
