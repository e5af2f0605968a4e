-- ===== src/Decisions/Audit/Laws.antt =====
-- What an audit bundle holds.
use mathlib.Core.Path.{subst}
use kotowari.Kernel.World.{now_iso, new_id}
use kotowari.Kernel.Authorization.Receipts.{assert_allowed_iff}
use kotowari.Base.{
  ◌+◌, String, List, [], ◌∷◌, map, some, Bool, true, false, ok, ◌≡◌, ◌≢◌, ◌↔◌, inl, inr, refl,
  arith, ap, sym, ◌∙◌, In, In-filter, In-append, includes, includes_iff, string_eq, Option-cases,
  Bool-cases, get_or,
}
use kotowari.Base.Number.{Number}
use kotowari.Base.Sorting.{IsWeakOrder}
use kotowari.Base.Text.{text_lt}
use kotowari.Kernel.Access.{Principal, decision_read, audit_read}
use kotowari.Kernel.Claim.{Claim, retracted}
use kotowari.Kernel.Claim.Laws.{claim_visible_at_iff}
use kotowari.Kernel.Decision.{Decision}
use kotowari.Kernel.Events.{DomainEvent}
use kotowari.PluginSdk.Store.{Store, get_decision}
use kotowari.PluginSdk.Store.Versions.{IsConsistent}
use kotowari.PluginSdk.Store.Answers.{list_claims-IsAnswer}
use kotowari.PluginSdk.System.{System}
use kotowari.Decisions.{call_context, decision_resource}
use kotowari.Decisions.Lifecycle.Lookup.{MayDo, result_cases}
use kotowari.Decisions.Replay.{DecisionReplay, replay_decision_capability, replay_of}
use kotowari.Decisions.Replay.Laws.{replayed, replayed-world}
use kotowari.Decisions.Audit.Touches.{
  IsAuditedWith, event_touches_decision_context_iff, lifecycle_event_touches_decision_iff,
}
use kotowari.Decisions.Audit.{
  DecisionAuditBundle, Hashed, lifecycle_event_touches_decision, context_events,
  with_lifecycle_events, audit_claims, base_bundle, build_base_bundle, with_lifecycle,
  build_decision_audit_bundle_capability,
}

-- An event identifier names one event of the log.
abbrev pub HasUniqueIds : List DomainEvent → Type 0
HasUniqueIds events =
    (a b : DomainEvent) → In a events → In b events → a.event_id ≡ b.event_id → a ≡ b

In-map :
    (f : DomainEvent → String) (x : String) (l : List DomainEvent)
    → In x (map f l)
    → (e : DomainEvent) × In e l × (f e ≡ x)
In-map f x [] m = absurd m
In-map f x (y ∷ l) (inl e) = (y, inl refl, sym e)
In-map f x (y ∷ l) (inr m) = let (e, n, q) = In-map f x l m in (e, inr n, q)

module _ (d : Decision) (s : Store) (unique : HasUniqueIds s.events) (e : DomainEvent) where
  known_or_new :
      In e s.events
      → lifecycle_event_touches_decision e d.id ≡ true
      → In e (with_lifecycle_events d.id (context_events d s) s)
  known_or_new m h =
      let base = context_events d s in
      let ids = map (λ (b : DomainEvent). b.event_id) base in
      elim (Bool-cases (includes ids e.event_id)) [
        | inl old ↦
            let (b, n, same) =
              In-map (λ (b : DomainEvent). b.event_id) e.event_id base
                ((includes_iff ids e.event_id).0 old) in
            let stored = (In-filter _ b s.events).0 n in
            (In-append e base _).1 (inl (rw (unique b e stored.0 m same) at n))
        | inr fresh ↦ (In-append e base _).1 (inr ((In-filter _ e s.events).1 (m, ground arith)))
      ]

  bundle_events_iff :
      In e (with_lifecycle_events d.id (context_events d s) s) ↔ (In e s.events × IsAuditedWith d e)
  bundle_events_iff =
      let names = event_touches_decision_context_iff e d in
      let life = lifecycle_event_touches_decision_iff e d in
      (
        λ m. elim ((In-append e (context_events d s) _).0 m) [
          | inl n ↦ let k = (In-filter _ e s.events).0 n in (k.0, inl (names.0 k.1))
          | inr n ↦
              let k = (In-filter _ e s.events).0 n in (k.0, inr (life.0 (ground (arith, k.1))))
        ],
        λ (m, h). elim h [
          | inl t ↦
              (In-append e (context_events d s) _).1
                (inl ((In-filter _ e s.events).1 (m, names.1 t)))
          | inr t ↦ known_or_new m (life.1 t)
        ],
      )

module _ (hash : Hashed → String) (collate : String → String → Bool) (text : Number → String)
    (num : String → Number) (p : Principal) (id : String) (s : System) where
  base_parts :
      (b : DecisionAuditBundle)
      → (build_base_bundle hash collate text num p id s).0 ≡ ok (some b)
      → ((get_decision id s.store ≡ some b.decision)
          × (b.context_snapshot ≡ b.decision.input_context_snapshot)
          × (b.claims ≡ audit_claims collate b.decision s.store)
          × (b.events ≡ context_events b.decision s.store))
        × MayDo (s.world.clock s.world.readings) p decision_read "decision-replay" b.decision
        × MayDo (s.world.clock (s.world.readings + 1)) p audit_read "decision-audit" b.decision
        × ((build_base_bundle hash collate text num p id s).1.store ≡ s.store)
  unfolding build_base_bundle base_bundle now_iso new_id replay_of
  base_parts b h = elim (result_cases (replay_decision_capability text num p id s).0) [
    | inr (f, e) ↦ absurd (ground arith)
    | inl (o, e) ↦ elim (Option-cases o) [
      | inl n ↦ absurd (ground arith)
      | inr (r, k) ↦
          let s1 = (replay_decision_capability text num p id s).1 in
          let ran : replay_decision_capability text num p id s ≡ (ok (some r), s1) =
            λ i. ((e ∙ ap ok k) i, s1) in
          let (found, may, made, same) = replayed text num p id s s1 r ran in
          let world = replayed-world text num p id s s1 r ran in
          let whose : b.decision ≡ r.decision = ground arith in
          let context : r.context_snapshot ≡ r.decision.input_context_snapshot =
            ap (λ (x : DecisionReplay). x.context_snapshot) made in
          let listed : b.claims ≡ audit_claims collate r.decision s1.store = ground arith in
          let logged : b.events ≡ context_events r.decision s1.store = ground arith in
          let shown : b.context_snapshot ≡ r.context_snapshot = ground arith in
          let audited =
            (assert_allowed_iff p audit_read (decision_resource r.decision)
                (call_context p (some "decision-audit")) s1.world).0
              (ground arith) in
          (
            (
              found ∙ ap some (sym whose),
              shown ∙ context ∙ ap (λ (x : Decision). x.input_context_snapshot) (sym whose),
              listed
                  ∙ ap (audit_claims collate r.decision) same
                  ∙ ap (λ (x : Decision). audit_claims collate x s.store) (sym whose),
              logged
                  ∙ ap (context_events r.decision) same
                  ∙ ap (λ (x : Decision). context_events x s.store) (sym whose),
            ),
            subst (MayDo (s.world.clock s.world.readings) p decision_read "decision-replay")
                (sym whose) may,
            subst (MayDo (s.world.clock (s.world.readings + 1)) p audit_read "decision-audit")
                (sym whose) (rw world at audited),
            ground (arith, same),
          )
    ]
  ]

  full_parts :
      (b : DecisionAuditBundle) (t : System)
      → build_decision_audit_bundle_capability hash collate text num p id s ≡ (ok (some b), t)
      → ((get_decision id s.store ≡ some b.decision)
          × (b.context_snapshot ≡ b.decision.input_context_snapshot)
          × (b.claims ≡ audit_claims collate b.decision s.store)
          × (b.events
              ≡ with_lifecycle_events b.decision.id (context_events b.decision s.store) s.store))
        × MayDo (s.world.clock s.world.readings) p decision_read "decision-replay" b.decision
        × MayDo (s.world.clock (s.world.readings + 1)) p audit_read "decision-audit" b.decision
        × (t.store ≡ s.store)
  unfolding build_decision_audit_bundle_capability with_lifecycle
  full_parts b t h = elim (result_cases (build_base_bundle hash collate text num p id s).0) [
    | inr (f, e) ↦ absurd (ground arith)
    | inl (o, e) ↦ elim (Option-cases o) [
      | inl n ↦ absurd (ground arith)
      | inr (c, k) ↦
          let u = (build_base_bundle hash collate text num p id s).1 in
          let (parts, may, audited, same) = base_parts c (e ∙ ap ok k) in
          let whose : c.decision ≡ b.decision = ground arith in
          let shown : b.context_snapshot ≡ c.context_snapshot = ground arith in
          let listed : b.claims ≡ c.claims = ground arith in
          let logged : b.events ≡ with_lifecycle_events c.decision.id c.events u.store =
            ground arith in
          (
            (
              parts.0 ∙ ap some whose,
              shown ∙ parts.1 ∙ ap (λ (x : Decision). x.input_context_snapshot) whose,
              listed ∙ parts.2 ∙ ap (λ (x : Decision). audit_claims collate x s.store) whose,
              logged
                  ∙ ap (with_lifecycle_events c.decision.id c.events) same
                  ∙ ap (λ (x : List DomainEvent). with_lifecycle_events c.decision.id x s.store)
                      parts.3
                  ∙ ap
                      (λ (x : Decision).
                        with_lifecycle_events x.id (context_events x s.store) s.store)
                      whose,
            ),
            subst (MayDo (s.world.clock s.world.readings) p decision_read "decision-replay") whose
                may,
            subst (MayDo (s.world.clock (s.world.readings + 1)) p audit_read "decision-audit") whose
                audited,
            ground (arith, same),
          )
    ]
  ]

-- In a log where an event's identifier names one event, an audit bundle is of the stored decision under
-- the identifier, which the principal may read and audit, with the decision's own snapshot, and the
-- call stores nothing. Its events are those of the log that are of the decision's tenant and name the
-- decision as their own, or a claim or an item of evidence of its snapshot; and those, of any tenant,
-- that relate another decision to it or it to another, or record an outcome, an approval or an
-- exception of it.
pub build_decision_audit_bundle_capability-events_iff :
    (hash : Hashed → String) (collate : String → String → Bool) (text : Number → String)
    (num : String → Number) (p : Principal) (id : String) (s t : System) (b : DecisionAuditBundle)
    → HasUniqueIds s.store.events
    → build_decision_audit_bundle_capability hash collate text num p id s ≡ (ok (some b), t)
    → ((get_decision id s.store ≡ some b.decision)
        × (b.context_snapshot ≡ b.decision.input_context_snapshot)
        × (t.store ≡ s.store))
      × (MayDo (s.world.clock s.world.readings) p decision_read "decision-replay" b.decision
          × MayDo (s.world.clock (s.world.readings + 1)) p audit_read "decision-audit" b.decision)
      × ((e : DomainEvent) → In e b.events ↔ (In e s.store.events × IsAuditedWith b.decision e))
build_decision_audit_bundle_capability-events_iff hash collate text num p id s t b unique h =
    let (parts, may, audited, same) = full_parts hash collate text num p id s b t h in
    (
      (parts.0, parts.1, same),
      (may, audited),
      λ e.
          subst
            (λ (l : List DomainEvent). In e l ↔ (In e s.store.events × IsAuditedWith b.decision e))
            (sym parts.3) (bundle_events_iff b.decision s.store unique e),
    )

-- In a consistent store, a claim of an audit bundle is one that the snapshot names, of the decision's
-- tenant and namespace, that was not retracted and was recorded by the snapshot's instant of
-- knowledge, or else by its capture.
pub build_decision_audit_bundle_capability-claims :
    (hash : Hashed → String) (collate : String → String → Bool) (text : Number → String)
    (num : String → Number) (p : Principal) (id : String) (s t : System) (b : DecisionAuditBundle)
    (c : Claim)
    → IsWeakOrder collate
    → IsConsistent s.store
    → build_decision_audit_bundle_capability hash collate text num p id s ≡ (ok (some b), t)
    → In c b.claims
    → In c.id b.decision.input_context_snapshot.claim_ids
      × ((c.tenant_id ≡ b.decision.tenant_id) × (c.namespace_id ≡ b.decision.namespace_id))
      × (c.status ≢ retracted)
      × (text_lt
            (get_or b.decision.input_context_snapshot.temporal.known_at
              b.decision.input_context_snapshot.captured_at)
            c.bitemporal.recorded_at
          ≡ false)
unfolding audit_claims
build_decision_audit_bundle_capability-claims hash collate text num p id s t b c order inv h m =
    let (parts, may, audited, same) = full_parts hash collate text num p id s b t h in
    let ids = b.decision.input_context_snapshot.claim_ids in
    let n = (In-filter (λ (x : Claim). includes ids x.id) c _).0 (rw parts.2 at m) in
    let answer = list_claims-IsAnswer collate order s.store inv _ c n.0 in
    let seen = (claim_visible_at_iff c _).0 answer.visible in
    (
      (includes_iff ids c.id).0 n.1,
      (answer.tenant, answer.namespace _ refl),
      seen.stands,
      seen.known _ refl,
    )
