-- ===== src/Kernel/Authorization.antt =====
-- packages/kernel/src/authorization.ts: who may do what to which resource, and the receipt of it.
-- `wall` is what the system clock shows where the context gives no `now`.
pub mod Writes
pub mod Permission
pub mod Reasons
pub mod Order
pub mod Receipts
use Prim.Native.String
use kotowari.Base.{
  ℕ, String, List, [], ◌∷◌, Option, none, some, Bool, true, false, not, ◌&&◌, ◌||◌, string_eq, ◌==◌,
  get_or, includes, ltb, Result, ok, err, if◌then◌else◌,
}
use kotowari.Base.Exec.{Exec, ◌>>=◌, pure, lift}
use kotowari.Base.Text.{text_lt}
use kotowari.Kernel.Errors
use kotowari.Kernel.Errors.{
  KernelErrorCode, Failure, kernel_error, cross_tenant_denied, classification_denied,
  visibility_denied, delegation_denied, namespace_denied, action_denied,
}
use kotowari.Kernel.Access.{
  Action, knowledge_write, entity_resolve, entity_merge, memory_write, decision_record,
  decision_relate, decision_observe, decision_approve, ingestion_write, policy_evaluate,
  policy_manage, policy_exception, conflict_detect, conflict_resolve, admin, Action-discrete,
  action_eq, Resource, Delegation, PrincipalKind, human, agent, Principal, AuthContext, allowed,
  denied, AuthDecision, AuthorizationReceipt, action_text, kind_text,
}
use kotowari.Kernel.World.{World, now_iso}
use kotowari.Kernel.Metadata.{
  ScopedMetadata, Classification, Visibility, visibility_eq, tlp_red, internal, workspace, private,
  classification_rank,
}

abbrev pub write_actions : List Action
write_actions =
    knowledge_write ∷ entity_resolve ∷ entity_merge ∷ memory_write ∷ decision_record
    ∷ decision_relate ∷ decision_observe ∷ decision_approve ∷ ingestion_write ∷ policy_evaluate
    ∷ policy_manage ∷ policy_exception ∷ conflict_detect ∷ conflict_resolve ∷ admin ∷ []

-- `principal.kind === 'agent' ? principal.actingFor : undefined`
abbrev pub acting_for : PrincipalKind → Option String
acting_for human = none
acting_for (agent delegator) = delegator

abbrev pub denial : KernelErrorCode → AuthDecision
denial reason = record { effect = denied; reason = reason }

abbrev pub deny : KernelErrorCode → Option AuthDecision
deny reason = some (denial reason)

unfoldable pub is_expired : String → Delegation → Option String → Bool
is_expired wall delegation now = text_lt delegation.expires_at (get_or now wall)

unfoldable pub deny_if_cross_tenant : Principal → Resource → AuthContext → Option AuthDecision
deny_if_cross_tenant principal resource context =
    if not (principal.tenant_id == context.tenant_id)
      || not (resource.metadata.tenant_id == context.tenant_id)
    then deny cross_tenant_denied
    else none

unfoldable pub deny_if_classification_insufficient : Principal → Resource → Option AuthDecision
deny_if_classification_insufficient principal resource =
    if ltb (classification_rank principal.clearance)
      (classification_rank resource.metadata.classification)
    then deny classification_denied
    else none

-- Both texts are there and differ.
abbrev pub purposes_differ : Option String → Option String → Bool
purposes_differ (some p) (some q) = not (p == q)
purposes_differ _ _ = false

abbrev pub delegation_invalid : String → String → Action → AuthContext → Option Delegation → Bool
delegation_invalid wall delegator action context none = true
delegation_invalid wall delegator action context (some d) =
    not (d.delegator_id == delegator)
    || not (includes d.scope action)
    || is_expired wall d context.now
    || purposes_differ context.purpose d.purpose

abbrev pub delegation_test :
    String → Option String → Action → AuthContext → Option Delegation → Option AuthDecision
delegation_test wall none action context given = none
delegation_test wall (some delegator) action context given =
    if delegation_invalid wall delegator action context given then deny delegation_denied else none

unfoldable pub deny_if_agent_delegation_invalid :
    String → Principal → Action → AuthContext → Option AuthDecision
unfolding is_expired
deny_if_agent_delegation_invalid wall principal action context =
    delegation_test wall (acting_for principal.kind) action context context.delegation

-- Whom the principal acts as.
abbrev pub acting_as : Principal → String
acting_as principal = get_or (acting_for principal.kind) principal.id

abbrev pub owned_by_other : Option String → String → Bool
owned_by_other none actor = false
owned_by_other (some owner) actor = not (owner == actor)

unfoldable pub deny_if_private_visibility : Principal → Resource → Option AuthDecision
deny_if_private_visibility principal resource =
    if (resource.metadata.visibility == private)
      && owned_by_other resource.metadata.principal_id (acting_as principal)
    then deny visibility_denied
    else none

unfoldable pub deny_if_viewer_cannot_write : Principal → Action → Option AuthDecision
deny_if_viewer_cannot_write principal action =
    if includes write_actions action
      && includes principal.roles "viewer"
      && not (includes principal.roles "admin")
    then deny action_denied
    else none

unfoldable pub deny_if_not_admin : Principal → Action → Option AuthDecision
deny_if_not_admin principal action =
    if (action == admin) && not (includes principal.roles "admin") then deny action_denied else none

unfoldable pub deny_if_outside_namespace : Principal → Resource → Option AuthDecision
deny_if_outside_namespace principal resource =
    if not (includes principal.namespace_ids resource.metadata.namespace_id)
    then deny namespace_denied
    else none

-- `if (d !== undefined) return d;`
infixr 30 ◌or_else◌
abbrev pub ◌or_else◌ : Option AuthDecision → AuthDecision → AuthDecision
none or_else rest = rest
(some d) or_else rest = d

abbrev pub allow_decision : AuthDecision
allow_decision = record { effect = allowed; reason = Errors.allow }

unfoldable pub allow : String → Principal → Action → Resource → AuthContext → AuthDecision
allow wall principal action resource context =
    deny_if_cross_tenant principal resource context
    or_else deny_if_classification_insufficient principal resource
    or_else deny_if_not_admin principal action
    or_else deny_if_agent_delegation_invalid wall principal action context
    or_else deny_if_private_visibility principal resource
    or_else deny_if_outside_namespace principal resource
    or_else deny_if_viewer_cannot_write principal action
    or_else allow_decision

-- `allow` with the clock that it may read.
unfoldable pub allow_now :
    Principal → Action → Resource → AuthContext → Exec World Failure AuthDecision
unfolding now_iso
allow_now principal action resource context = do
  wall ← now_iso
  pure (allow wall principal action resource context)

unfoldable pub allow_with_receipt :
    Principal
    → Action
    → Resource
    → AuthContext
    → Exec World Failure (AuthDecision × AuthorizationReceipt)
unfolding now_iso
allow_with_receipt principal action resource context = do
  decision ← allow_now principal action resource context
  wall ← now_iso
  pure (
    decision,
    record {
      principal_id = principal.id;
      acting_for = acting_for principal.kind;
      action = action;
      resource_kind = resource.kind;
      resource_id = resource.id;
      effect = decision.effect;
      reason = decision.reason;
      purpose = context.purpose;
      delegation = context.delegation;
      evaluated_at = get_or context.now wall;
    },
  )

-- Throws the reason of a denial.
abbrev pub throw_denial : AuthDecision → String → Result Failure (Unit {0})
throw_denial decision message = elim decision.effect [
  | denied ↦ err (kernel_error decision.reason message)
  | allowed ↦ ok tt
]

-- `Denied ${action} on ${resource.kind} ${resource.id}`
pub denial_text : Action → Resource → String
unfolding action_text kind_text
denial_text action resource = String.◌++◌ "Denied " (
    String.◌++◌ (action_text action)
      (String.◌++◌ " on " (String.◌++◌ (kind_text resource.kind) (String.◌++◌ " " resource.id))))

unfoldable pub assert_allowed :
    Principal → Action → Resource → AuthContext → Exec World Failure (Unit {0})
assert_allowed principal action resource context = do
  decision ← allow_now principal action resource context
  lift (throw_denial decision (denial_text action resource))

unfoldable pub local_standalone_principal : Principal
local_standalone_principal = record {
  kind = human;
  id = "local-user";
  tenant_id = "local";
  clearance = tlp_red;
  namespace_ids = "local-workspace" ∷ [];
  roles = "member" ∷ "curator" ∷ [];
}

unfoldable pub local_standalone_metadata : Option String → ScopedMetadata
local_standalone_metadata principal_id = record {
  tenant_id = "local";
  namespace_id = "local-workspace";
  principal_id = some (get_or principal_id "local-user");
  classification = internal;
  visibility = workspace;
  policy_tags = [];
}
