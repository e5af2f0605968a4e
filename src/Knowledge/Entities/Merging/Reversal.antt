-- ===== src/Knowledge/Entities/Merging/Reversal.antt =====
-- What the reversal of a merge does to the log, and so to what is canonical.
use mathlib.Core.List.{append_assoc}
use kotowari.Base.{
  ◌+◌, String, List, [], ◌∷◌, ◌++◌, map, Option, none, Bool, false, ◌&&◌, string_eq, ◌==◌, Result,
  ok, throw_if, ◌≡◌, ◌≢◌, refl, sym, ◌∙◌, ap, arith, In, find, any,
}
use kotowari.Base.Exec.{continue-ok, pure-eq-ok}
use kotowari.Base.Text.{is_blank, trim}
use kotowari.Kernel.Errors.{Failure}
use kotowari.Kernel.Ids.{as_event_id}
use kotowari.Kernel.World.{now_iso, new_id}
use kotowari.Kernel.Provenance.{compact_provenance}
use kotowari.Kernel.Access.{entity_merge, Principal}
use kotowari.Kernel.Entity.{Entity, EntityMergeLineage}
use kotowari.Kernel.Events.{DomainEvent, entity_merged, entity_merge_reverted}
use kotowari.PluginSdk.Store.{Store, append_event, append_outbox}
use kotowari.PluginSdk.System.{System}
use kotowari.Knowledge.Merges.{is_merge, canonical_entity_id_from_events}
use kotowari.Knowledge.Merges.Canonical.{canonical_entity_id_from_events-revert}
use kotowari.Knowledge.Entities.{
  require_entity, assert_same_scope, assert_entity_write, resolution_purpose,
}
use kotowari.Knowledge.Entities.Proposals.{reverts_merge}
use kotowari.Knowledge.Entities.Steps.{
  require_entity-state, assert_entity_write-store, as_event_id-eq, throw_if-eq,
}
use kotowari.Knowledge.Entities.Merging.{
  MergeParts, found_merge, require_entities, merge_to_revert, store_reversal, read_lineage,
  revert_entity_merge,
}
use kotowari.Knowledge.Entities.Merging.Laws.{read_lineage-state, read_lineage-id}

module _ (collate : String → String → Bool) where
  store_reversal_lem :
      (p : Principal) (id reason : String) (surviving : Entity) (restored : List Entity)
      (s t : System) (x : EntityMergeLineage)
      → store_reversal collate p id reason surviving restored s ≡ (ok x, t)
      → (r : DomainEvent) × (r.body
          ≡ entity_merge_reverted id surviving.id
              (map (λ (e : Entity). e.id) restored)
              (trim reason))
        × (x.merge_event_id ≡ id)
        × (t.store ≡ append_outbox r (append_event r s.store))
  unfolding store_reversal now_iso new_id compact_provenance
  store_reversal_lem p id reason surviving restored s t x h =
      let r : DomainEvent = record {
        event_id = s.world.uuid s.world.drawn;
        tenant_id = surviving.tenant_id;
        provenance = record {
          source = resolution_purpose;
          source_version = none;
          actor = p.id;
          process = "entity.revert_merge";
          model = none;
          prompt_version = none;
          extractor_version = none;
          timestamp = s.world.clock s.world.readings;
          parent_ids = [];
        };
        occurred_at = s.world.clock (s.world.readings + 1);
        body =
            entity_merge_reverted id surviving.id (map (λ (e : Entity). e.id) restored)
              (trim reason);
      } in
      let s1 : System = record {
        store = append_outbox r (append_event r s.store);
        world = record (s.world) { readings = s.world.readings + 1 + 1; drawn = s.world.drawn + 1 };
      } in
      let answer : (read_lineage collate surviving id s1) ≡ (ok x, t) = h in
      (
        r,
        refl,
        read_lineage-id collate surviving id s1 x
            (ap (λ (q : Result Failure EntityMergeLineage × System). q.0) answer),
        ap (λ (q : Result Failure EntityMergeLineage × System). q.1.store) (sym answer)
            ∙ ap (λ (u : System). u.store) (read_lineage-state collate surviving id s1),
      )

merge_to_revert_lem :
    (id reason k : String) (parts : MergeParts) (s t : System)
    → merge_to_revert id reason s ≡ (ok (k, parts), t)
    → ((is_blank reason ≡ false) × (k ≡ id) × (t ≡ s))
      × (any (reverts_merge id) s.store.events ≡ false)
unfolding merge_to_revert
merge_to_revert_lem id reason k parts s t h =
    let (_, e1, h1) = continue-ok _ (throw_if (is_blank reason) _) s h in
    let (pid, e2, h2) = continue-ok _ (as_event_id id) s h1 in
    let merge = find (λ (e : DomainEvent). is_merge e && (e.event_id == pid)) s.store.events in
    let (_, e3, h3) = continue-ok _ (found_merge pid merge) s h2 in
    let (_, e4, h4) = continue-ok _ (throw_if (any (reverts_merge pid) s.store.events) _) s h3 in
    let (made, final) = pure-eq-ok _ (k, parts) s t h4 in
    let named = as_event_id-eq id pid e2 in
    (
      (throw_if-eq _ _ e1, sym (ap (λ (z : String × MergeParts). z.0) made) ∙ named, sym final),
      ap (λ (z : String). any (reverts_merge z) s.store.events) (sym named) ∙ throw_if-eq _ _ e4,
    )

require_entities-state : (ids : List String) (s : System) → (require_entities ids s).1 ≡ s
unfolding require_entities
require_entities-state [] s = refl
require_entities-state (id ∷ ids) s = ground (
  arith,
  require_entity-state id s,
  require_entities-state ids s,
  require_entities-state ids (require_entity id s).1,
)

-- Where the identifier names a merge of the log, and no other event of it, a reversal that returns is
-- for a reason and no reversal of the log names the merge yet; the call has appended the reversal's
-- event, with the trimmed reason, to the log and to the outbox; and every entity then leads where it
-- leads in the log without the merge, whatever stands before and after it.
pub revert_entity_merge-Restores :
    (collate : String → String → Bool) (p : Principal) (reason y : String) (s t : System)
    (x : EntityMergeLineage) (before later : List DomainEvent) (m : DomainEvent)
    (surviving : String) (absorbed : List String) (proposal why : Option String)
    → m.body ≡ entity_merged surviving absorbed proposal why
    → s.store.events ≡ before ++ (m ∷ later)
    → ((e : DomainEvent) → In e (before ++ later) → e.event_id ≢ m.event_id)
    → revert_entity_merge collate p m.event_id reason s ≡ (ok x, t)
    → ((is_blank reason ≡ false) × (any (reverts_merge m.event_id) s.store.events ≡ false))
      × ((r : DomainEvent) × (undone : String) × (restored : List String) × (r.body
            ≡ entity_merge_reverted m.event_id undone restored (trim reason))
          × (x.merge_event_id ≡ m.event_id)
          × (t.store ≡ append_outbox r (append_event r s.store)))
      × (canonical_entity_id_from_events collate t.store.events y
          ≡ canonical_entity_id_from_events collate (before ++ later) y)
unfolding revert_entity_merge append_event append_outbox
revert_entity_merge-Restores collate p reason y s t x before later m surviving absorbed proposal why
      merges log unique h =
    let found = merge_to_revert m.event_id reason s in
    let ((k, parts), e1, h1) = continue-ok _ found.0 found.1 h in
    let (names, fresh) =
      merge_to_revert_lem m.event_id reason k parts s found.1 (λ i. (e1 i, found.1)) in
    let s2 = (require_entity parts.surviving_entity_id found.1).1 in
    let (survivor, e2, h2) =
      continue-ok _ (require_entity parts.surviving_entity_id found.1).0 s2 h1 in
    let s3 = (require_entities parts.absorbed_entity_ids s2).1 in
    let (restored, e3, h3) =
      continue-ok _ (require_entities parts.absorbed_entity_ids s2).0 s3 h2 in
    let (_, e4, h4) = continue-ok _ (assert_same_scope (survivor ∷ restored)) s3 h3 in
    let s5 = (assert_entity_write p entity_merge (survivor ∷ restored) s3).1 in
    let (_, e5, h5) =
      continue-ok _ (assert_entity_write p entity_merge (survivor ∷ restored) s3).0 s5 h4 in
    let (r, body, lineage, after) =
      store_reversal_lem collate p k reason survivor restored s5 t x h5 in
    let kept : s5.store ≡ s.store =
      assert_entity_write-store p entity_merge (survivor ∷ restored) s3
      ∙ ap (λ (u : System). u.store)
          (require_entities-state parts.absorbed_entity_ids s2
            ∙ require_entity-state parts.surviving_entity_id found.1
            ∙ names.2) in
    let after_s : t.store ≡ append_outbox r (append_event r s.store) =
      after ∙ ap (λ (u : Store). append_outbox r (append_event r u)) kept in
    let ids = map (λ (e : Entity). e.id) restored in
    let reverts : r.body ≡ entity_merge_reverted m.event_id survivor.id ids (trim reason) =
      body ∙ ap (λ (z : String). entity_merge_reverted z survivor.id ids (trim reason)) names.1 in
    let events : t.store.events ≡ before ++ (m ∷ (later ++ r ∷ [])) =
      ap (λ (u : Store). u.events) after_s
      ∙ ap (λ (l : List DomainEvent). l ++ r ∷ []) log
      ∙ append_assoc before (m ∷ later) (r ∷ []) in
    (
      (names.0, fresh),
      (r, survivor.id, ids, reverts, lineage ∙ names.1, after_s),
      ap (λ (l : List DomainEvent). canonical_entity_id_from_events collate l y) events
          ∙ canonical_entity_id_from_events-revert collate before later m r surviving absorbed
              proposal why survivor.id ids (trim reason) y merges reverts unique,
    )
