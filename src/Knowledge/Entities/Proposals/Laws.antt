-- ===== src/Knowledge/Entities/Proposals/Laws.antt =====
-- What a review of a proposal leaves behind.
use mathlib.Core.Path.{subst}
use kotowari.Base.{
  ◌+◌, String, List, [], ◌∷◌, ◌++◌, some, Bool, false, string_eq, ◌==◌, ==_iff, ok, throw_if, ◌≡◌,
  ◌≢◌, inl, inr, refl, sym, ◌∙◌, ap, arith, All, In, In-append, In-filter, length, ltb,
}
use kotowari.Base.Exec.{continue-ok, pure-eq-ok}
use kotowari.Base.Text.{is_blank, trim}
use kotowari.Kernel.Ids.{as_event_id}
use kotowari.Kernel.World.{now_iso, new_id}
use kotowari.Kernel.Provenance.{compact_provenance}
use kotowari.Kernel.Access.{entity_resolve, Principal}
use kotowari.Kernel.Entity.{
  Entity, EntityResolutionProposal, EntityResolutionDecision, ResolutionOutcome,
}
use kotowari.Base.Sorting.{In_sort_of}
use kotowari.Kernel.Events.{DomainEvent, EventBody, entity_resolution_decided}
use kotowari.PluginSdk.Store.{Store, get_entity, append_event, append_outbox}
use kotowari.PluginSdk.System.{System}
use kotowari.Decisions.Lifecycle.Lookup.{result_cases}
use kotowari.Knowledge.ResolutionStore.{
  get_proposal, list_decisions, decisions_of, put_decision, decision_event,
}
use kotowari.Knowledge.Entities.{found_proposal, writable_pair, resolution_metadata}
use kotowari.Knowledge.Entities.Steps.{
  writable_pair-IsWritable, as_event_id-eq, throw_if-eq, found_proposal-eq, no_more,
  resolution_metadata-state, MayWriteFrom,
}
use kotowari.Knowledge.Entities.Proposals.{
  open_proposal, store_decision, decide_entity_resolution_proposal,
}

module _ (collate : String → String → Bool) where
  open_proposal_lem :
      (id reason k : String) (q : EntityResolutionProposal) (s t : System)
      → open_proposal collate id reason s ≡ (ok (k, q), t)
      → ((k ≡ id) × (get_proposal id s.store ≡ some q))
        × ((is_blank reason ≡ false) × (list_decisions collate (some id) s.store ≡ []))
        × (t ≡ s)
  unfolding open_proposal
  open_proposal_lem id reason k q s t h =
      let (pid, e1, h1) = continue-ok _ (as_event_id id) s h in
      let (proposal, e2, h2) = continue-ok _ (found_proposal id (get_proposal pid s.store)) s h1 in
      let (_, e3, h3) = continue-ok _ (throw_if (is_blank reason) _) s h2 in
      let (_, e4, h4) =
        continue-ok _ (throw_if (ltb 0 (length (list_decisions collate (some pid) s.store))) _) s
          h3 in
      let (made, final) = pure-eq-ok (pid, proposal) (k, q) s t h4 in
      let named : pid ≡ id = as_event_id-eq id pid e1 in
      (
        (
          sym (ap (λ (z : String × EntityResolutionProposal). z.0) made) ∙ named,
          ap (λ (z : String). get_proposal z s.store) (sym named)
              ∙ found_proposal-eq id (get_proposal pid s.store) proposal e2
              ∙ ap (λ (z : String × EntityResolutionProposal). some z.1) made,
        ),
        (
          throw_if-eq (is_blank reason) _ e3,
          ap (λ (z : String). list_decisions collate (some z) s.store) (sym named)
              ∙ no_more (list_decisions collate (some pid) s.store) (throw_if-eq _ _ e4),
        ),
        sym final,
      )

  store_decision_lem :
      (p : Principal) (id : String) (outcome : ResolutionOutcome) (reason : String)
      (source candidate : Entity) (s t : System) (x : EntityResolutionDecision)
      → store_decision collate p id outcome reason source candidate s ≡ (ok x, t)
      → ((x.proposal_id ≡ id)
          × (x.outcome ≡ outcome)
          × (x.reason ≡ trim reason)
          × (x.decided_by ≡ p.id))
        × (t.store ≡ append_outbox (decision_event x) (append_event (decision_event x) s.store))
  unfolding store_decision put_decision now_iso new_id compact_provenance
  store_decision_lem p id outcome reason source candidate s t x h =
      let s1 : System = record s {
        world = record (s.world) { readings = s.world.readings + 1 + 1 };
      } in
      let both = source ∷ candidate ∷ [] in
      let same = resolution_metadata-state collate p both s1 in
      elim (result_cases (resolution_metadata collate p both s1).0) [
        | inr (f, e) ↦ absurd (ground arith)
        | inl (m, e) ↦
            ((ground arith, ground arith, ground arith, ground arith), ground (arith, same))
      ]

-- A review that returns is of a stored proposal that was not decided, for a reason; both entities are
-- stored and the principal may resolve both; the decision has the outcome, the trimmed reason and the
-- principal's name; and the call has appended the decision's event to the log and to the outbox.
pub decide_entity_resolution_proposal-Appends :
    (collate : String → String → Bool) (p : Principal) (id : String) (outcome : ResolutionOutcome)
    (reason : String) (s t : System) (x : EntityResolutionDecision)
    → decide_entity_resolution_proposal collate p id outcome reason s ≡ (ok x, t)
    → ((q : EntityResolutionProposal) × (source : Entity) × (candidate : Entity) × (get_proposal id
            s.store
          ≡ some q)
        × (get_entity q.source_entity_id s.store ≡ some source)
        × (get_entity q.candidate_entity_id s.store ≡ some candidate)
        × All
            (MayWriteFrom p entity_resolve s.world.clock s.world.readings)
            (source ∷ candidate ∷ []))
      × ((is_blank reason ≡ false) × (list_decisions collate (some id) s.store ≡ []))
      × ((x.proposal_id ≡ id)
          × (x.outcome ≡ outcome)
          × (x.reason ≡ trim reason)
          × (x.decided_by ≡ p.id))
      × (t.store ≡ append_outbox (decision_event x) (append_event (decision_event x) s.store))
unfolding decide_entity_resolution_proposal
decide_entity_resolution_proposal-Appends collate p id outcome reason s t x h =
    let s1 = (open_proposal collate id reason s).1 in
    let ((k, q), e1, h1) = continue-ok _ (open_proposal collate id reason s).0 s1 h in
    let (found, fresh, same) = open_proposal_lem collate id reason k q s s1 (λ i. (e1 i, s1)) in
    let pair = writable_pair p entity_resolve q.source_entity_id q.candidate_entity_id s1 in
    let ((source, candidate), e2, h2) = continue-ok _ pair.0 pair.1 h1 in
    let both =
      writable_pair-IsWritable p entity_resolve q.source_entity_id q.candidate_entity_id s1 pair.1
        source candidate (λ i. (e2 i, pair.1)) in
    let (fields, stored) =
      store_decision_lem collate p k outcome reason source candidate pair.1 t x h2 in
    (
      (
        q,
        source,
        candidate,
        found.1,
        ap (λ (u : System). get_entity q.source_entity_id u.store) (sym same) ∙ both.first,
        ap (λ (u : System). get_entity q.candidate_entity_id u.store) (sym same) ∙ both.second,
        subst
            (λ (u : System).
              All (MayWriteFrom p entity_resolve u.world.clock u.world.readings)
                (source ∷ candidate ∷ []))
            same both.may,
      ),
      fresh,
      (fields.0 ∙ found.0, fields.1, fields.2, fields.3),
      stored
          ∙ ap (λ (u : Store). append_outbox (decision_event x) (append_event (decision_event x) u))
              (both.kept ∙ ap (λ (u : System). u.store) same),
    )

In-decisions_of :
    (e : DomainEvent) (d : EntityResolutionDecision) (es : List DomainEvent)
    → In e es
    → e.body ≡ entity_resolution_decided d
    → In d (decisions_of es)
unfolding decisions_of
In-decisions_of e d [] m h = absurd m
In-decisions_of e d (c ∷ es) (inl here) h = rw (← here, h) (inl refl)
In-decisions_of e d (c ∷ es) (inr there) h =
    elim c.body
      as (λ (b : EventBody).
        In d (elim b [ entity_resolution_decided x ↦ x ∷ decisions_of es | _ ↦ decisions_of es ])) [
          | entity_resolution_decided x ↦ inr (In-decisions_of e d es there h)
          | _ ↦ In-decisions_of e d es there h
        ]

-- A proposal is decided at most once: after a review that returns, no review of the proposal returns,
-- whoever asks, in any state whose log has grown from the one that the review left.
pub decide_entity_resolution_proposal-once :
    (collate : String → String → Bool) (p p' : Principal) (id : String)
    (outcome outcome' : ResolutionOutcome) (reason reason' : String) (s t u v : System)
    (x y : EntityResolutionDecision) (more : List DomainEvent)
    → decide_entity_resolution_proposal collate p id outcome reason s ≡ (ok x, t)
    → u.store.events ≡ t.store.events ++ more
    → decide_entity_resolution_proposal collate p' id outcome' reason' u ≢ (ok y, v)
unfolding list_decisions append_outbox append_event
decide_entity_resolution_proposal-once collate p p' id outcome outcome' reason reason' s t u v x y
      more h grown again =
    let (_, _, fields, stored) =
      decide_entity_resolution_proposal-Appends collate p id outcome reason s t x h in
    let (_, fresh, _, _) =
      decide_entity_resolution_proposal-Appends collate p' id outcome' reason' u v y again in
    let log : t.store.events ≡ s.store.events ++ decision_event x ∷ [] =
      ap (λ (q : Store). q.events) stored in
    let logged : In (decision_event x) u.store.events =
      rw (grown, log)
        ((In-append _ (s.store.events ++ decision_event x ∷ []) more).1
          (inl ((In-append _ s.store.events _).1 (inr (inl refl))))) in
    let listed = (In-filter (λ (d : EntityResolutionDecision). d.proposal_id == id) x _).1 (
      In-decisions_of (decision_event x) x u.store.events logged refl,
      (==_iff x.proposal_id id).1 fields.0,
    ) in
    let found = In_sort_of _ x _ listed in subst (In x) fresh.1 found
