-- ===== src/Decisions/Lifecycle/Observations.antt =====
-- What an observation of an outcome needs, and that a call which returns no record stores nothing.
use kotowari.Base.{
  sym, ◌∙◌, string_eq, ◌+◌, String, List, [], ◌∷◌, Option, some, ok, ◌≡◌, inl, inr, refl, arith, ap,
  Option-cases,
}
use kotowari.Kernel.World.{now_iso}
use kotowari.Kernel.Ids.{as_branded}
use kotowari.Kernel.Provenance.{compact_provenance}
use kotowari.Kernel.Access.{decision_observe, Principal}
use kotowari.Kernel.Authorization.{assert_allowed}
use kotowari.Kernel.Authorization.Permission.{IsPermitted}
use kotowari.Kernel.Authorization.Receipts.{assert_allowed_iff}
use kotowari.Kernel.Decision.{Decision}
use kotowari.PluginSdk.Store.{Store, get_decision}
use kotowari.PluginSdk.System.{System}
use kotowari.Decisions.{call_context}
use kotowari.Kernel.Entity.{Evidence}
use kotowari.Kernel.Access.{knowledge_read}
use kotowari.PluginSdk.Store.{get_evidence}
use kotowari.Base.Exec.{for_each}
use kotowari.Kernel.Decision.{OutcomeObservation, OutcomeMetricValue}
use kotowari.Kernel.Events.{decision_outcome_observed}
use kotowari.Kernel.Ids.{as_evidence_id}
use kotowari.PluginSdk.Lifecycle.{put_outcome_observation}
use kotowari.Kernel.Authorization.{allow_now}
use kotowari.Base.{Dict, get_or, suc, ℕ, length}
use kotowari.Decisions.Lifecycle.{
  evidence_resource, decision_for_lifecycle, persist_lifecycle_event,
  observe_decision_outcome_capability, create_outcome_observation, check_evidence, as_evidence_ids,
}
use kotowari.Decisions.Lifecycle.Lookup.{
  Appends, MayDo, result_cases, second_event, found_lem, found-world, found-cases,
}

abbrev pub Readable : Principal → Store → (ℕ → String) → ℕ → List String → Type 0
Readable p store clock n [] = Unit
Readable p store clock n (id ∷ ids) =
    ((v : Evidence) × (get_evidence id store ≡ some v)
      × IsPermitted (clock n) p knowledge_read (evidence_resource v)
          (call_context p (some "decision-observe")))
    × Readable p store clock (n + 1) ids

later : ℕ → System → System
later k s = record s { world = record (s.world) { readings = s.world.readings + k } }

one_checked :
    (p : Principal) (id : String) (s : System)
    → (check_evidence p id s).0 ≡ ok tt
    → (v : Evidence) × (get_evidence id s.store ≡ some v)
      × IsPermitted
          (s.world.clock s.world.readings)
          p
          knowledge_read
          (evidence_resource v)
          (call_context p (some "decision-observe"))
      × ((check_evidence p id s).1 ≡ later 1 s)
unfolding check_evidence later assert_allowed allow_now now_iso
one_checked p id s h = elim (Option-cases (get_evidence id s.store)) [
  | inl e ↦ absurd (ground arith)
  | inr (v, e) ↦ (
    v,
    e,
    (assert_allowed_iff p knowledge_read (evidence_resource v)
          (call_context p (some "decision-observe")) s.world).0
        (ground arith),
    ground arith,
  )
]

later-zero : (s : System) → later 0 s ≡ s
unfolding later
later-zero s = ground arith

later-later : (k : ℕ) (s : System) → later k (later 1 s) ≡ later (suc k) s
unfolding later
later-later k s = ground arith

all_checked :
    (p : Principal) (ids : List String) (s : System)
    → (for_each ids (check_evidence p) s).0 ≡ ok tt
    → Readable p s.store s.world.clock s.world.readings ids
      × ((for_each ids (check_evidence p) s).1 ≡ later (length ids) s)
unfolding for_each later
all_checked p [] s h = (tt, sym (later-zero s))
all_checked p (id ∷ ids) s h = elim (result_cases (check_evidence p id s).0) [
  | inr (f, e) ↦ absurd (ground arith)
  | inl (_, e) ↦
      let (v, found, may, after) = one_checked p id s e in
      let (rest, last) = all_checked p ids (later 1 s) (ground arith) in
      (((v, found, may), rest), ground (arith, later-later (length ids) s))
]

as_evidence_ids-eq-ok : (xs ys : List String) → as_evidence_ids xs ≡ ok ys → xs ≡ ys
unfolding as_evidence_ids as_evidence_id as_branded
as_evidence_ids-eq-ok [] ys h = cc
as_evidence_ids-eq-ok (x ∷ xs) ys h = elim (result_cases (as_evidence_ids xs)) [
  | inr (f, e) ↦ absurd (ground arith)
  | inl (rest, e) ↦ let same = as_evidence_ids-eq-ok xs rest e in ground arith
]

-- An observation that is returned is of a stored decision that the principal may observe; each piece
-- of evidence that it names is stored, and the principal may read it; and the call has appended the
-- observation's event to the log and to the outbox.
pub observe_decision_outcome_capability-Appends :
    (p : Principal) (id outcome : String) (metrics : Option (Dict String OutcomeMetricValue))
    (evidence : Option (List String)) (s t : System) (x : OutcomeObservation)
    → observe_decision_outcome_capability p id outcome metrics evidence s ≡ (ok (some x), t)
    → (d : Decision) × ((get_decision id s.store ≡ some d)
        × (x.decision_id ≡ d.id)
        × (x.outcome ≡ outcome)
        × (x.evidence_ids ≡ get_or evidence []))
      × MayDo (s.world.clock s.world.readings) p decision_observe "decision-observe" d
      × Readable p s.store s.world.clock (s.world.readings + 1) x.evidence_ids
      × Appends s.store t.store (decision_outcome_observed d.id x.id x)
unfolding second_event observe_decision_outcome_capability persist_lifecycle_event
    put_outcome_observation create_outcome_observation compact_provenance later
observe_decision_outcome_capability-Appends p id outcome metrics evidence s t x h =
    elim (found-cases p id decision_observe "decision-observe" s) [
      | inr (inl e) ↦ absurd (ground arith)
      | inr (inr (f, e)) ↦ absurd (ground arith)
      | inl (d, e) ↦
          let (found, may, same) = found_lem p id decision_observe "decision-observe" s d e in
          let world = found-world p id decision_observe "decision-observe" s d e in
          let s1 = (decision_for_lifecycle p id decision_observe "decision-observe" s).1 in
          elim (result_cases (as_evidence_ids (get_or evidence []))) [
            | inr (f, refused) ↦ absurd (ground arith)
            | inl (ids, named) ↦ elim (result_cases (for_each ids (check_evidence p) s1).0) [
              | inr (f, refused) ↦ absurd (ground arith)
              | inl (_, checked) ↦
                  let (readable, after) = all_checked p ids s1 checked in
                  let kept : (for_each ids (check_evidence p) s1).1.store ≡ s.store =
                    ap (λ (u : System). u.store) after ∙ same in
                  let listed : x.evidence_ids ≡ ids = ground arith in
                  (
                    d,
                    (
                      found,
                      ground arith,
                      ground arith,
                      listed ∙ sym (as_evidence_ids-eq-ok _ ids named),
                    ),
                    may,
                    rw listed (rw (same, world) at readable),
                    (
                      second_event d.tenant_id x.provenance x.observed_at
                          (decision_outcome_observed d.id x.id x)
                          (for_each ids (check_evidence p) s1).1,
                      refl,
                      ground arith,
                    ),
                  )
            ]
          ]
    ]
