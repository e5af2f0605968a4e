-- ===== src/Kernel/Authorization/Reasons.antt =====
-- The reasons that `allow` gives.
use kotowari.Base.{
  String, ◌≡◌, ◌≢◌, ◌↔◌, refl, Option, none, some, Bool, true, false, string_eq, if◌then◌else◌,
}
use kotowari.Kernel.Errors
use kotowari.Kernel.Errors.{
  KernelErrorCode, cross_tenant_denied, classification_denied, action_denied, delegation_denied,
  visibility_denied, namespace_denied,
}
use kotowari.Kernel.Metadata.{visibility_eq}
use kotowari.Kernel.Access.{
  Action, action_eq, Resource, Delegation, Principal, AuthContext, AuthDecision, allowed,
}
use kotowari.Kernel.Authorization.{
  acting_for, deny_if_cross_tenant, deny_if_classification_insufficient, deny_if_not_admin,
  deny_if_agent_delegation_invalid, deny_if_private_visibility, deny_if_outside_namespace,
  deny_if_viewer_cannot_write, delegation_invalid, delegation_test, denial, deny, ◌or_else◌,
  allow_decision, allow,
}
use kotowari.Kernel.Authorization.Permission.{same_tenant_iff}

-- What holds of a guard's denial and of the later guards' answer holds of the chain's.
or_else_keeps :
    (P : AuthDecision → Type 0) (b : Bool) (k : KernelErrorCode) (rest : AuthDecision)
    → P (denial k)
    → P rest
    → P ((if b then deny k else none) or_else rest)
or_else_keeps P true k rest here later = here
or_else_keeps P false k rest here later = later

delegation_test_keeps :
    (P : AuthDecision → Type 0) (wall : String) (from : Option String) (a : Action)
    (c : AuthContext) (given : Option Delegation) (rest : AuthDecision)
    → P (denial delegation_denied)
    → P rest
    → P (delegation_test wall from a c given or_else rest)
delegation_test_keeps P wall none a c given rest here later = later
delegation_test_keeps P wall (some from) a c given rest here later =
    or_else_keeps P (delegation_invalid wall from a c given) delegation_denied rest here later

cross_tenant_iff :
    (b : Bool) (rest : AuthDecision) {Same : Type 0}
    → ((if b then deny cross_tenant_denied else none) ≡ none) ↔ Same
    → rest.reason ≢ cross_tenant_denied
    → (((if b then deny cross_tenant_denied else none) or_else rest).reason ≡ cross_tenant_denied)
      ↔ ¬ Same
cross_tenant_iff true rest f h = (λ _ s. cc (f.1 s), λ _. refl)
cross_tenant_iff false rest f h = (λ e. absurd (h e), λ g. absurd (g (f.0 refl)))

abbrev IsOther : AuthDecision → Type 0
IsOther d = d.reason ≢ cross_tenant_denied

abbrev IsCoherent : AuthDecision → Type 0
IsCoherent d = (d.effect ≡ allowed) ↔ (d.reason ≡ Errors.allow)

-- A request across tenants is answered with CROSS_TENANT_DENIED, whatever else is wrong with it, and
-- that reason is given for nothing else.
allow-cross_tenant_iff :
    (wall : String) (p : Principal) (a : Action) (r : Resource) (c : AuthContext)
    → ((allow wall p a r c).reason ≡ cross_tenant_denied)
      ↔ ¬ ((p.tenant_id ≡ c.tenant_id) × (r.metadata.tenant_id ≡ c.tenant_id))
unfolding allow deny_if_cross_tenant deny_if_classification_insufficient deny_if_not_admin
    deny_if_agent_delegation_invalid deny_if_private_visibility deny_if_outside_namespace
    deny_if_viewer_cannot_write
allow-cross_tenant_iff wall p a r c = cross_tenant_iff _ _ (same_tenant_iff p a r c) (
    or_else_keeps IsOther _ classification_denied _ (λ e. cc)
      (or_else_keeps IsOther _ action_denied _ (λ e. cc)
        (delegation_test_keeps IsOther wall (acting_for p.kind) a c c.delegation _ (λ e. cc)
          (or_else_keeps IsOther _ visibility_denied _ (λ e. cc)
            (or_else_keeps IsOther _ namespace_denied _ (λ e. cc)
              (or_else_keeps IsOther _ action_denied allow_decision (λ e. cc) (λ e. cc)))))))

-- The decision's effect is `allow` exactly if its reason is ALLOW.
allow-reason_iff :
    (wall : String) (p : Principal) (a : Action) (r : Resource) (c : AuthContext)
    → ((allow wall p a r c).effect ≡ allowed) ↔ ((allow wall p a r c).reason ≡ Errors.allow)
unfolding allow deny_if_cross_tenant deny_if_classification_insufficient deny_if_not_admin
    deny_if_agent_delegation_invalid deny_if_private_visibility deny_if_outside_namespace
    deny_if_viewer_cannot_write
allow-reason_iff wall p a r c =
    or_else_keeps IsCoherent _ cross_tenant_denied _ (λ e. cc, λ e. cc)
      (or_else_keeps IsCoherent _ classification_denied _ (λ e. cc, λ e. cc)
        (or_else_keeps IsCoherent _ action_denied _ (λ e. cc, λ e. cc)
          (delegation_test_keeps IsCoherent wall (acting_for p.kind) a c c.delegation _
            (λ e. cc, λ e. cc)
            (or_else_keeps IsCoherent _ visibility_denied _ (λ e. cc, λ e. cc)
              (or_else_keeps IsCoherent _ namespace_denied _ (λ e. cc, λ e. cc)
                (or_else_keeps IsCoherent _ action_denied allow_decision (λ e. cc, λ e. cc)
                  (λ _. refl, λ _. refl)))))))
