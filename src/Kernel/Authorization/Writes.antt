-- ===== src/Kernel/Authorization/Writes.antt =====
-- Which actions write.
use mathlib.Core.Bool.{decide}
use kotowari.Base.{true, ◌≡◌, ◌↔◌, refl, includes}
use kotowari.Kernel.Access.{
  Action, Action-discrete, action_eq, knowledge_read, knowledge_write, entity_resolve, entity_merge,
  memory_read, memory_write, decision_read, decision_record, decision_relate, decision_observe,
  decision_approve, ingestion_write, policy_evaluate, policy_manage, policy_exception,
  conflict_detect, conflict_resolve, audit_read, admin,
}
use kotowari.Kernel.Authorization.{write_actions}

-- Every action but the four that only read.
abbrev pub IsWrite : Action → Type 0
IsWrite knowledge_read = ⊥
IsWrite memory_read = ⊥
IsWrite decision_read = ⊥
IsWrite audit_read = ⊥
IsWrite _ = Unit

pub write_actions_iff : (a : Action) → (includes write_actions a ≡ true) ↔ IsWrite a
unfolding includes Action-discrete decide
write_actions_iff knowledge_read = (λ h. cc, λ h. absurd h)
write_actions_iff knowledge_write = (λ h. tt, λ h. refl)
write_actions_iff entity_resolve = (λ h. tt, λ h. refl)
write_actions_iff entity_merge = (λ h. tt, λ h. refl)
write_actions_iff memory_read = (λ h. cc, λ h. absurd h)
write_actions_iff memory_write = (λ h. tt, λ h. refl)
write_actions_iff decision_read = (λ h. cc, λ h. absurd h)
write_actions_iff decision_record = (λ h. tt, λ h. refl)
write_actions_iff decision_relate = (λ h. tt, λ h. refl)
write_actions_iff decision_observe = (λ h. tt, λ h. refl)
write_actions_iff decision_approve = (λ h. tt, λ h. refl)
write_actions_iff ingestion_write = (λ h. tt, λ h. refl)
write_actions_iff policy_evaluate = (λ h. tt, λ h. refl)
write_actions_iff policy_manage = (λ h. tt, λ h. refl)
write_actions_iff policy_exception = (λ h. tt, λ h. refl)
write_actions_iff conflict_detect = (λ h. tt, λ h. refl)
write_actions_iff conflict_resolve = (λ h. tt, λ h. refl)
write_actions_iff audit_read = (λ h. cc, λ h. absurd h)
write_actions_iff admin = (λ h. tt, λ h. refl)
