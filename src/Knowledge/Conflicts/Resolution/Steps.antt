-- ===== src/Knowledge/Conflicts/Resolution/Steps.antt =====
-- What the branches of a resolution check, and what they store.
use mathlib.Core.Path.{subst}
use kotowari.Base.{
  ◌+◌, String, List, [], ◌∷◌, none, some, Bool, true, false, not, any, includes, includes_iff,
  string_eq, ◌==◌, ok, throw_if, ◌≡◌, inl, inr, refl, sym, ◌∙◌, ap, arith, In, ltb, length,
}
use kotowari.Base.Exec.{continue-ok, continue-keeps, pure, pure-eq-ok, for_each}
use kotowari.Base.Text.{trim}
use kotowari.Kernel.Errors.{Failure}
use kotowari.Kernel.Ids.{as_claim_id}
use kotowari.Kernel.World.{World, new_id, now_iso}
use kotowari.Kernel.Provenance.{Provenance, assert_provenance, compact_provenance}
use kotowari.Kernel.Access.{Principal, knowledge_read, conflict_resolve}
use kotowari.Kernel.Authorization.{assert_allowed}
use kotowari.Kernel.Claim.{Claim}
use kotowari.Kernel.Contracts.{ResolveConflictInput}
use kotowari.Kernel.Entity.{Conflict, ConflictResolution, value, human_review}
use kotowari.Kernel.Events.{DomainEvent, conflict_resolved}
use kotowari.Kernel.Invariants.Conflicts.{build_conflict_resolved}
use kotowari.PluginSdk.Store.{
  Store, list_resolutions, put_conflict, put_resolution, append_event, append_outbox,
}
use kotowari.PluginSdk.System.{System, Run, on_world}
use kotowari.Decisions.Lifecycle.Lookup.{result_cases}
use kotowari.Knowledge.{call_context}
use kotowari.Knowledge.Conflicts.{claim_resource, claim_set_key, metadata_for_claims}
use kotowari.Knowledge.Conflicts.Resolution.{
  same_claim_set, as_claim_ids, stored_claims, found_claims, require_claims, conflict_resource,
  check_preferred, store_resolution, resolve_existing, resolve_new, curator_provenance,
}
use kotowari.Knowledge.Entities.Steps.{throw_if-eq}

pub as_claim_ids-eq : (xs ys : List String) → as_claim_ids xs ≡ ok ys → ys ≡ xs
unfolding as_claim_ids as_claim_id
as_claim_ids-eq [] ys h = ground arith
as_claim_ids-eq (x ∷ xs) ys h = elim (result_cases (as_claim_ids xs)) [
  | inl (zs, e) ↦ ground (arith, as_claim_ids-eq xs zs e)
  | inr (f, e) ↦ absurd (ground arith)
]

module _ (p : Principal) where
  abbrev may_read : List Claim → Run (Unit {0})
  may_read claims = for_each claims λ claim.
      on_world (assert_allowed p knowledge_read (claim_resource claim) (call_context p none))

  may_read-store : (claims : List Claim) (s : System) → (may_read claims s).1.store ≡ s.store
  unfolding for_each
  may_read-store [] s = refl
  may_read-store (c ∷ claims) s =
      let done = assert_allowed p knowledge_read (claim_resource c) (call_context p none) s.world in
      continue-keeps _ (λ u. u.store ≡ s.store) done.0 (record s { world = done.1 }) refl
        (λ _. may_read-store claims (record s { world = done.1 }))

  require_claims-store :
      (ids : List String) (s : System) → (require_claims p ids s).1.store ≡ s.store
  unfolding require_claims
  require_claims-store ids s = elim (result_cases (found_claims (stored_claims s.store ids))) [
    | inr (f, e) ↦ rw (e) refl
    | inl (claims, e) ↦ rw (e) (
        continue-keeps (λ _. pure claims) (λ (u : System). u.store ≡ s.store) (may_read claims s).0
          (may_read claims s).1 (may_read-store claims s) (λ _. may_read-store claims s))
  ]

check_preferred_lem :
    (collate : String → String → Bool) (c : Conflict) (ids : List String) (text preferred : String)
    → check_preferred collate c ids text ≡ ok preferred
    → (same_claim_set collate c.claim_ids ids ≡ true) × In preferred c.claim_ids
unfolding check_preferred as_claim_id
check_preferred_lem collate c ids text preferred h =
    (ground arith, ground (arith, includes_iff c.claim_ids text))

-- What a resolution of a conflict says, and that it is stored with its event, also in the outbox.
pub record IsResolution (p : Principal) (reason : String) (c : Conflict) (before after : Store)
    (r : ConflictResolution) : Type 0 where
  pub id : r.id ≡ c.id
  pub claims : r.claim_ids ≡ c.claim_ids
  pub preferred : In r.preferred_claim_id c.claim_ids
  pub why : r.reason ≡ trim reason
  pub written :
      (e : DomainEvent) × (e.body ≡ conflict_resolved c.id)
      × (after ≡ append_outbox e (append_event e (put_resolution r before)))

abbrev resolved_event : Conflict → ConflictResolution → String → DomainEvent
resolved_event c r event_id = record {
  event_id = event_id;
  tenant_id = c.tenant_id;
  provenance = r.provenance;
  occurred_at = r.recorded_at;
  body = conflict_resolved c.id;
}

store_resolution_lem :
    (collate : String → String → Bool) (p : Principal) (c : Conflict) (preferred reason : String)
    (s t : System) (r : ConflictResolution)
    → In preferred c.claim_ids
    → store_resolution collate p c preferred reason s ≡ (ok r, t)
    → IsResolution p reason c s.store t.store r
unfolding store_resolution compact_provenance now_iso new_id
store_resolution_lem collate p c preferred reason s t r m h = record {
  id = ground arith;
  claims = ground arith;
  preferred = subst (λ x. In x c.claim_ids) (ground arith) m;
  why = ground arith;
  written = (resolved_event c r (s.world.uuid s.world.drawn), refl, ground arith);
}

module _ (collate : String → String → Bool) (p : Principal) (reason : String) where
  pub resolve_existing_lem :
      (ids : List String) (text : String) (c : Conflict) (s t : System) (r : ConflictResolution)
      → resolve_existing collate p ids text reason c s ≡ (ok r, t)
      → ((same_claim_set collate c.claim_ids ids ≡ true)
          × (any (λ (q : ConflictResolution). q.id == c.id) (list_resolutions p.tenant_id s.store)
              ≡ false))
        × IsResolution p reason c s.store t.store r
  unfolding resolve_existing
  resolve_existing_lem ids text c s t r h =
      let (preferred, e1, h1) = continue-ok _ (check_preferred collate c ids text) s h in
      let asked =
        assert_allowed p conflict_resolve (conflict_resource c.id c.metadata) (call_context p none)
          s.world in
      let s2 : System = record s { world = asked.1 } in
      let (_, e2, h2) = continue-ok _ asked.0 s2 h1 in
      let (_, e3, h3) =
        continue-ok _
          (throw_if
            (any (λ (q : ConflictResolution). q.id == c.id) (list_resolutions p.tenant_id s.store))
            _)
          s2 h2 in
      let read = require_claims p c.claim_ids s2 in
      let (_, e4, h4) = continue-ok _ read.0 read.1 h3 in
      let (same, member) = check_preferred_lem collate c ids text preferred e1 in
      (
        (same, throw_if-eq _ _ e3),
        subst (λ (u : Store). IsResolution p reason c u t.store r)
            (require_claims-store p c.claim_ids s2)
            (store_resolution_lem collate p c preferred reason read.1 t r member h4),
      )

held : (b : Bool) → not b ≡ false → b ≡ true
held b h = ground arith

abbrev made_of :
    ResolveConflictInput → Provenance → World → Conflict × ConflictResolution × DomainEvent
made_of i p w = (
  record {
    metadata = i.metadata;
    id = w.uuid w.drawn;
    kind = i.kind;
    claim_ids = i.claim_ids;
    cause = none;
    provenance = none;
    recorded_at = w.clock w.readings;
  },
  record {
    metadata = i.metadata;
    id = w.uuid w.drawn;
    claim_ids = i.claim_ids;
    strategy = i.strategy;
    preferred_claim_id = i.preferred_claim_id;
    reason = i.reason;
    provenance = p;
    recorded_at = w.clock w.readings;
  },
  record {
    event_id = w.uuid (w.drawn + 1);
    tenant_id = i.metadata.tenant_id;
    provenance = p;
    occurred_at = w.clock w.readings;
    body = conflict_resolved (w.uuid w.drawn);
  },
)

built :
    (i : ResolveConflictInput) (p : Provenance) (w v u : World) (c : Conflict)
    (r : ConflictResolution) (e : DomainEvent)
    → In i.preferred_claim_id i.claim_ids
    → pure {E = Failure} (made_of i p w) u ≡ (ok (c, r, e), v)
    → ((r.id ≡ c.id)
        × (r.claim_ids ≡ c.claim_ids)
        × (c.claim_ids ≡ i.claim_ids)
        × (r.reason ≡ i.reason))
      × In r.preferred_claim_id c.claim_ids
      × (e.body ≡ conflict_resolved c.id)
built i p w v u c r e m h =
    let (made, _) = pure-eq-ok (made_of i p w) (c, r, e) u v h in
    subst
      (λ (q : Conflict × ConflictResolution × DomainEvent).
        ((q.1.id ≡ q.0.id)
          × (q.1.claim_ids ≡ q.0.claim_ids)
          × (q.0.claim_ids ≡ i.claim_ids)
          × (q.1.reason ≡ i.reason))
        × In q.1.preferred_claim_id q.0.claim_ids
        × (q.2.body ≡ conflict_resolved q.0.id))
      made ((refl, refl, refl, refl), m, refl)

-- What is built is a conflict with its resolution and the resolution's event.
build_conflict_resolved_lem :
    (i : ResolveConflictInput) (w v : World) (c : Conflict) (r : ConflictResolution)
    (e : DomainEvent)
    → build_conflict_resolved i w ≡ (ok (c, r, e), v)
    → ((r.id ≡ c.id)
        × (r.claim_ids ≡ c.claim_ids)
        × (c.claim_ids ≡ i.claim_ids)
        × (r.reason ≡ i.reason))
      × In r.preferred_claim_id c.claim_ids
      × (e.body ≡ conflict_resolved c.id)
unfolding build_conflict_resolved new_id now_iso
build_conflict_resolved_lem i w v c r e h =
    let (p, e1, h1) = continue-ok _ (assert_provenance i.provenance) w h in
    let (_, e2, h2) = continue-ok _ (throw_if (ltb (length i.claim_ids) 2) _) w h1 in
    let (_, e3, h3) =
      continue-ok _ (throw_if (not (includes i.claim_ids i.preferred_claim_id)) _) w h2 in
    let member : In i.preferred_claim_id i.claim_ids =
      (includes_iff i.claim_ids i.preferred_claim_id).0 (held _ (throw_if-eq _ _ e3)) in
    built i p w v _ c r e member h3

module _ (collate : String → String → Bool) (p : Principal) (reason : String) where
  pub resolve_new_lem :
      (ids : List String) (text : String) (s t : System) (r : ConflictResolution)
      → resolve_new collate p ids text reason s ≡ (ok r, t)
      → (c : Conflict) × (c.claim_ids ≡ ids)
        × IsResolution p reason c (put_conflict c s.store) t.store r
  unfolding resolve_new
  resolve_new_lem ids text s t r h =
      let read = require_claims p ids s in
      let (claims, e1, h1) = continue-ok _ read.0 read.1 h in
      let (metadata, e2, h2) = continue-ok _ (metadata_for_claims collate p claims) read.1 h1 in
      let asked =
        assert_allowed p conflict_resolve (conflict_resource (claim_set_key collate ids) metadata)
          (call_context p none) read.1.world in
      let s3 : System = record (read.1) { world = asked.1 } in
      let (_, e3, h3) = continue-ok _ asked.0 s3 h2 in
      let (preferred, e4, h4) = continue-ok _ (as_claim_id text) s3 h3 in
      let sourced = curator_provenance p s3 in
      let (provenance, e5, h5) = continue-ok _ sourced.0 sourced.1 h4 in
      let input : ResolveConflictInput = record {
        metadata = metadata;
        kind = value;
        claim_ids = ids;
        strategy = human_review;
        preferred_claim_id = preferred;
        reason = trim reason;
        provenance = some provenance;
      } in
      let b = build_conflict_resolved input sourced.1.world in
      let s6 : System = record (sourced.1) { world = b.1 } in
      let ((c, x, e), e6, h6) = continue-ok _ b.0 s6 h5 in
      let ((same_id, same_claims, given, why), member, body) =
        build_conflict_resolved_lem input sourced.1.world b.1 c x e (λ i. (e6 i, b.1)) in
      let (same, final) = pure-eq-ok x r _ t h6 in
      (
        c,
        given,
        record {
          id = sym (ap (λ (q : ConflictResolution). q.id) same) ∙ same_id;
          claims = sym (ap (λ (q : ConflictResolution). q.claim_ids) same) ∙ same_claims;
          preferred =
              subst (λ (q : ConflictResolution). In q.preferred_claim_id c.claim_ids) same member;
          why = sym (ap (λ (q : ConflictResolution). q.reason) same) ∙ why;
          written = (
            e,
            body,
            ap (λ (q : System). q.store) (sym final)
                ∙ ap
                    (λ (q : ConflictResolution).
                      append_outbox e
                        (append_event e (put_resolution q (put_conflict c read.1.store))))
                    same
                ∙ ap
                    (λ (u : Store).
                      append_outbox e (append_event e (put_resolution r (put_conflict c u))))
                    (require_claims-store p ids s),
          );
        },
      )
