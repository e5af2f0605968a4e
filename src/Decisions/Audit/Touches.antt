-- ===== src/Decisions/Audit/Touches.antt =====
-- Which events an audit bundle is to hold, by their kinds.
use kotowari.Base.{
  String, Bool, true, false, ◌||◌, ◌≡◌, ◌↔◌, ◌⊎◌, inl, inr, arith, In, includes, includes_iff,
  string_eq, ◌==◌, ==_iff, Bool-cases,
}
use kotowari.Kernel.Decision.{Decision}
use kotowari.Kernel.Events.{
  DomainEvent, EventBody, claim_asserted, claim_retracted, evidence_inserted,
  entity_resolution_proposed, entity_resolution_decided, entity_merged, entity_merge_reverted,
  decision_recorded, decision_related, decision_outcome_observed, decision_approval_recorded,
  policy_exception_recorded, policy_evaluated, conflict_detected, conflict_resolved,
  context_accessed,
}
use kotowari.Decisions.Audit.{
  has_and, decision_id_of, claim_id_of, evidence_id_of, event_touches_decision_context,
  lifecycle_event_touches_decision,
}

-- The event names the decision as its own, or a claim or an item of evidence of its snapshot.
abbrev pub NamesContext : Decision → EventBody → Type 0
NamesContext d (claim_asserted id) = In id d.input_context_snapshot.claim_ids
NamesContext d (claim_retracted id) = In id d.input_context_snapshot.claim_ids
NamesContext d (evidence_inserted id) = In id d.input_context_snapshot.evidence_ids
NamesContext d (decision_recorded id) = id ≡ d.id
NamesContext d (decision_related from _ _ _) = from ≡ d.id
NamesContext d (decision_outcome_observed id _ _) = id ≡ d.id
NamesContext d (decision_approval_recorded id _ _) = id ≡ d.id
NamesContext d (policy_exception_recorded id _ _ _) = id ≡ d.id
NamesContext d _ = ⊥

-- The event is of the decision's later life: a relation from or to it, an outcome, an approval or an
-- exception of it.
abbrev pub IsLifeOf : Decision → EventBody → Type 0
IsLifeOf d (decision_related from to _ _) = (from ≡ d.id) ⊎ (to ≡ d.id)
IsLifeOf d (decision_outcome_observed id _ _) = id ≡ d.id
IsLifeOf d (decision_approval_recorded id _ _) = id ≡ d.id
IsLifeOf d (policy_exception_recorded id _ _ _) = id ≡ d.id
IsLifeOf d _ = ⊥

abbrev pub IsAuditedWith : Decision → DomainEvent → Type 0
IsAuditedWith d e = ((e.tenant_id ≡ d.tenant_id) × NamesContext d e.body) ⊎ IsLifeOf d e.body

-- What the three tests of the code say of an event's body.
abbrev names_context : Decision → EventBody → Bool
names_context d b =
    has_and (decision_id_of b) (λ id. id == d.id)
    || has_and (claim_id_of b) (λ id. includes d.input_context_snapshot.claim_ids id)
    || has_and (evidence_id_of b) (λ id. includes d.input_context_snapshot.evidence_ids id)

same_iff : (id : String) (d : Decision) → ((id == d.id) || false || false) ≡ true ↔ (id ≡ d.id)
same_iff id d =
    (λ h. (==_iff id d.id).0 (ground arith), λ e. let k = (==_iff id d.id).1 e in ground arith)

claim_iff :
    (id : String) (d : Decision)
    → (includes d.input_context_snapshot.claim_ids id || false) ≡ true
      ↔ In id d.input_context_snapshot.claim_ids
claim_iff id d = (
  λ h. (includes_iff d.input_context_snapshot.claim_ids id).0 (ground arith),
  λ m. let k = (includes_iff d.input_context_snapshot.claim_ids id).1 m in ground arith,
)

never : false ≡ true ↔ ⊥
never = (λ h. cc, λ h. absurd h)

names_context_iff : (d : Decision) (b : EventBody) → names_context d b ≡ true ↔ NamesContext d b
names_context_iff d (claim_asserted id) = claim_iff id d
names_context_iff d (claim_retracted id) = claim_iff id d
names_context_iff d (evidence_inserted id) = includes_iff d.input_context_snapshot.evidence_ids id
names_context_iff d (decision_recorded id) = same_iff id d
names_context_iff d (decision_related from _ _ _) = same_iff from d
names_context_iff d (decision_outcome_observed id _ _) = same_iff id d
names_context_iff d (decision_approval_recorded id _ _) = same_iff id d
names_context_iff d (policy_exception_recorded id _ _ _) = same_iff id d
names_context_iff d (entity_resolution_proposed _) = never
names_context_iff d (entity_resolution_decided _) = never
names_context_iff d (entity_merged _ _ _ _) = never
names_context_iff d (entity_merge_reverted _ _ _ _) = never
names_context_iff d (policy_evaluated _) = never
names_context_iff d (conflict_detected _) = never
names_context_iff d (conflict_resolved _) = never
names_context_iff d (context_accessed _) = never

pub event_touches_decision_context_iff :
    (e : DomainEvent) (d : Decision)
    → event_touches_decision_context e d ≡ true
      ↔ ((e.tenant_id ≡ d.tenant_id) × NamesContext d e.body)
unfolding event_touches_decision_context
event_touches_decision_context_iff e d = elim (Bool-cases (e.tenant_id == d.tenant_id)) [
  | inl same ↦
      let names = names_context_iff d e.body in
      (
        λ h. ((==_iff e.tenant_id d.tenant_id).0 same, names.0 (ground arith)),
        λ (_, n). let k = names.1 n in ground arith,
      )
  | inr other ↦ (
    λ h. absurd (ground arith),
    λ (t, n). let k = (==_iff e.tenant_id d.tenant_id).1 t in absurd (ground arith),
  )
]

life_iff :
    (e : DomainEvent) (d : Decision) (b : EventBody)
    → lifecycle_event_touches_decision (record e { body = b }) d.id ≡ true ↔ IsLifeOf d b
unfolding lifecycle_event_touches_decision
life_iff e d (decision_related from to _ _) = (
  λ h. elim (Bool-cases (from == d.id)) [
    | inl same ↦ inl ((==_iff from d.id).0 same)
    | inr other ↦ inr ((==_iff to d.id).0 (ground arith))
  ],
  λ k. elim k [
    | inl same ↦ let m = (==_iff from d.id).1 same in ground arith
    | inr same ↦ let m = (==_iff to d.id).1 same in ground arith
  ],
)
life_iff e d (decision_outcome_observed id _ _) = ==_iff id d.id
life_iff e d (decision_approval_recorded id _ _) = ==_iff id d.id
life_iff e d (policy_exception_recorded id _ _ _) = ==_iff id d.id
life_iff e d (claim_asserted _) = never
life_iff e d (claim_retracted _) = never
life_iff e d (evidence_inserted _) = never
life_iff e d (decision_recorded _) = never
life_iff e d (entity_resolution_proposed _) = never
life_iff e d (entity_resolution_decided _) = never
life_iff e d (entity_merged _ _ _ _) = never
life_iff e d (entity_merge_reverted _ _ _ _) = never
life_iff e d (policy_evaluated _) = never
life_iff e d (conflict_detected _) = never
life_iff e d (conflict_resolved _) = never
life_iff e d (context_accessed _) = never

pub lifecycle_event_touches_decision_iff :
    (e : DomainEvent) (d : Decision)
    → lifecycle_event_touches_decision e d.id ≡ true ↔ IsLifeOf d e.body
unfolding lifecycle_event_touches_decision
lifecycle_event_touches_decision_iff e d = life_iff e d e.body
