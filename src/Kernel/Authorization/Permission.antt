-- ===== src/Kernel/Authorization/Permission.antt =====
-- What `allow` decides, described without its order of tests.
use kotowari.Base.{
  ℕ, String, ◌≤◌, ◌≡◌, ◌↔◌, refl, Option, none, some, Bool, true, false, not, ◌&&◌, ◌||◌, ◌==◌, In,
  includes, includes_iff, get_or, arith, string_eq, ltb, iff_trans, if◌then◌else◌, ==_iff,
}
use kotowari.Base.Text.{text_lt}
use kotowari.Kernel.Errors.{KernelErrorCode}
use kotowari.Kernel.Metadata.{private, visibility_eq, classification_rank}
use kotowari.Kernel.Access.{
  Action, admin, action_eq, Resource, Delegation, Principal, AuthContext, AuthDecision, allowed,
  denied,
}
use kotowari.Kernel.Authorization.Writes.{IsWrite, write_actions_iff}
use kotowari.Kernel.Authorization.{
  acting_for, acting_as, write_actions, deny_if_cross_tenant, deny_if_classification_insufficient,
  deny_if_not_admin, deny_if_agent_delegation_invalid, deny_if_private_visibility,
  deny_if_outside_namespace, deny_if_viewer_cannot_write, is_expired, owned_by_other,
  purposes_differ, delegation_invalid, delegation_test, deny, ◌or_else◌, allow,
}

-- A delegation covers an action of an agent on behalf of `from` at an instant.
pub record Covers (now : String) (why : Option String) (from : String) (action : Action)
    (d : Delegation) : Type 0 where
  pub delegator : d.delegator_id ≡ from
  pub scope : In action d.scope
  pub unexpired : text_lt d.expires_at now ≡ false
  pub purpose : (p q : String) → why ≡ some p → d.purpose ≡ some q → p ≡ q

-- Whoever acts for another has a delegation that covers the action.
abbrev pub IsDelegated :
    String → Option String → Action → Option String → Option Delegation → Type 0
IsDelegated now purpose action none delegation = Unit
IsDelegated now purpose action (some delegator) none = ⊥
IsDelegated now purpose action (some delegator) (some d) = Covers now purpose delegator action d

pub record IsPermitted (wall : String) (p : Principal) (a : Action) (r : Resource) (c : AuthContext)
    : Type 0 where
  pub principal_tenant : p.tenant_id ≡ c.tenant_id
  pub resource_tenant : r.metadata.tenant_id ≡ c.tenant_id
  pub cleared : classification_rank r.metadata.classification ≤ classification_rank p.clearance
  pub administers : a ≡ admin → In "admin" p.roles
  pub delegated : IsDelegated (get_or c.now wall) c.purpose a (acting_for p.kind) c.delegation
  pub owns :
      r.metadata.visibility ≡ private
      → (owner : String) → r.metadata.principal_id ≡ some owner
      → owner ≡ acting_as p
  pub in_namespace : In r.metadata.namespace_id p.namespace_ids
  pub writes : IsWrite a → In "viewer" p.roles → In "admin" p.roles

one_test_iff : (x : Bool) (d : AuthDecision) → ((if x then some d else none) ≡ none) ↔ (x ≡ false)
one_test_iff x d = ground arith

three_tests_iff :
    (x y z : Bool) (d : AuthDecision)
    → ((if x && y && not z then some d else none) ≡ none) ↔ (x ≡ true → y ≡ true → z ≡ true)
three_tests_iff x y z d = ground arith

two_tests_iff :
    (x y : Bool) (d : AuthDecision)
    → ((if x && y then some d else none) ≡ none) ↔ (x ≡ true → y ≡ false)
two_tests_iff x y d = ground arith

module _ (p : Principal) (a : Action) (r : Resource) (c : AuthContext) where
  pub same_tenant_iff :
      (deny_if_cross_tenant p r c ≡ none)
      ↔ ((p.tenant_id ≡ c.tenant_id) × (r.metadata.tenant_id ≡ c.tenant_id))
  unfolding deny_if_cross_tenant
  same_tenant_iff =
      ground (arith, ==_iff p.tenant_id c.tenant_id, ==_iff r.metadata.tenant_id c.tenant_id)

  administers_iff : (deny_if_not_admin p a ≡ none) ↔ (a ≡ admin → In "admin" p.roles)
  unfolding deny_if_not_admin
  administers_iff = ground (arith, ==_iff a admin, includes_iff p.roles "admin")

  in_namespace_iff :
      (deny_if_outside_namespace p r ≡ none) ↔ In r.metadata.namespace_id p.namespace_ids
  unfolding deny_if_outside_namespace
  in_namespace_iff = ground (arith, includes_iff p.namespace_ids r.metadata.namespace_id)

  writes_iff :
      (deny_if_viewer_cannot_write p a ≡ none)
      ↔ (IsWrite a → In "viewer" p.roles → In "admin" p.roles)
  unfolding deny_if_viewer_cannot_write
  writes_iff =
      iff_trans
        (three_tests_iff (includes write_actions a) (includes p.roles "viewer")
          (includes p.roles "admin") _)
        (
          λ f x y.
              (includes_iff p.roles "admin").0
                (f ((write_actions_iff a).1 x) ((includes_iff p.roles "viewer").1 y)),
          λ g x y.
              (includes_iff p.roles "admin").1
                (g ((write_actions_iff a).0 x) ((includes_iff p.roles "viewer").0 y)),
        )

rank_iff : (m n : ℕ) (d : AuthDecision) → ((if ltb m n then some d else none) ≡ none) ↔ (n ≤ m)
rank_iff m n d = ground arith

cleared_iff :
    (p : Principal) (r : Resource)
    → (deny_if_classification_insufficient p r ≡ none)
      ↔ (classification_rank r.metadata.classification ≤ classification_rank p.clearance)
unfolding deny_if_classification_insufficient
cleared_iff p r = rank_iff (classification_rank p.clearance) _ _

owned_by_other_iff :
    (o : Option String) (actor : String)
    → (owned_by_other o actor ≡ false) ↔ ((owner : String) → o ≡ some owner → owner ≡ actor)
owned_by_other_iff none actor = (λ _ owner e. cc, λ _. refl)
owned_by_other_iff (some owner) actor = (
  λ h other e. ground (arith, ==_iff owner actor),
  λ h. ground (arith, ==_iff owner actor, h owner refl),
)

owns_iff :
    (p : Principal) (r : Resource)
    → (deny_if_private_visibility p r ≡ none) ↔ (
        r.metadata.visibility ≡ private
        → (owner : String) → r.metadata.principal_id ≡ some owner
        → owner ≡ acting_as p)
unfolding deny_if_private_visibility
owns_iff p r =
    iff_trans
      (two_tests_iff (r.metadata.visibility == private)
        (owned_by_other r.metadata.principal_id (acting_as p)) _)
      (
        λ f v.
            (owned_by_other_iff r.metadata.principal_id (acting_as p)).0
              (f ((==_iff r.metadata.visibility private).1 v)),
        λ g e.
            (owned_by_other_iff r.metadata.principal_id (acting_as p)).1
              (g ((==_iff r.metadata.visibility private).0 e)),
      )

purposes_differ_iff :
    (o q : Option String)
    → (purposes_differ o q ≡ false) ↔ ((x y : String) → o ≡ some x → q ≡ some y → x ≡ y)
purposes_differ_iff none q = (λ _ x y e _. cc, λ _. refl)
purposes_differ_iff (some x) none = (λ _ x y _ e. cc, λ _. refl)
purposes_differ_iff (some x) (some y) =
    (λ h x' y' e f. ground (arith, ==_iff x y), λ h. ground (arith, ==_iff x y, h x y refl refl))

four_tests_iff :
    (x y z w : Bool)
    → ((not x || not y || z || w) ≡ false) ↔ ((x ≡ true) × (y ≡ true) × (z ≡ false) × (w ≡ false))
four_tests_iff x y z w = ground arith

Covers-iff :
    (wall from : String) (a : Action) (c : AuthContext) (d : Delegation)
    → (delegation_invalid wall from a c (some d) ≡ false)
      ↔ Covers (get_or c.now wall) c.purpose from a d
unfolding is_expired
Covers-iff wall from a c d =
    let same = ==_iff d.delegator_id from in
    let listed = includes_iff d.scope a in
    let agree = purposes_differ_iff c.purpose d.purpose in
    let parts =
      four_tests_iff (d.delegator_id == from) (includes d.scope a)
        (text_lt d.expires_at (get_or c.now wall)) (purposes_differ c.purpose d.purpose) in
    (
      λ h. record {
        delegator = same.0 (parts.0 h).0;
        scope = listed.0 (parts.0 h).1;
        unexpired = (parts.0 h).2;
        purpose = agree.0 (parts.0 h).3;
      },
      λ k. parts.1 (same.1 k.delegator, listed.1 k.scope, k.unexpired, agree.1 k.purpose),
    )

-- The delegation test, once it is known whether the principal acts for someone.
IsDelegated-for_iff :
    (wall : String) (from : Option String) (a : Action) (c : AuthContext)
    (given : Option Delegation)
    → (delegation_test wall from a c given ≡ none)
      ↔ IsDelegated (get_or c.now wall) c.purpose a from given
IsDelegated-for_iff wall none a c given = (λ _. tt, λ _. refl)
IsDelegated-for_iff wall (some from) a c none = (λ h. cc, λ h. absurd h)
IsDelegated-for_iff wall (some from) a c (some d) =
    iff_trans (one_test_iff (delegation_invalid wall from a c (some d)) _)
      (Covers-iff wall from a c d)

IsDelegated-iff :
    (wall : String) (p : Principal) (a : Action) (c : AuthContext)
    → (deny_if_agent_delegation_invalid wall p a c ≡ none)
      ↔ IsDelegated (get_or c.now wall) c.purpose a (acting_for p.kind) c.delegation
unfolding deny_if_agent_delegation_invalid
IsDelegated-iff wall p a c = IsDelegated-for_iff wall (acting_for p.kind) a c c.delegation

-- A guard lets the request pass, or denies it.
abbrev IsDenial : Option AuthDecision → Type 0
IsDenial none = Unit
IsDenial (some d) = d.effect ≡ denied

IsDenial-deny : (b : Bool) (k : KernelErrorCode) → IsDenial (if b then deny k else none)
IsDenial-deny true k = refl
IsDenial-deny false k = tt

IsDenial-delegation_test :
    (wall : String) (from : Option String) (a : Action) (c : AuthContext)
    (given : Option Delegation)
    → IsDenial (delegation_test wall from a c given)
IsDenial-delegation_test wall none a c given = tt
IsDenial-delegation_test wall (some from) a c given = IsDenial-deny _ _

or_else_iff :
    (o : Option AuthDecision) (rest : AuthDecision) {Pass Rest : Type 0}
    → IsDenial o
    → (o ≡ none) ↔ Pass
    → (rest.effect ≡ allowed) ↔ Rest
    → ((o or_else rest).effect ≡ allowed) ↔ (Pass × Rest)
or_else_iff none rest d f g = (λ h. (f.0 refl, g.0 h), λ h. g.1 h.1)
or_else_iff (some x) rest d f g = (λ h. cc, λ h. cc (f.1 h.0))

-- `allow` allows exactly the requests that are permitted: principal and resource stand in the
-- tenant of the context; the clearance reaches the classification; only an admin does `admin`; an
-- agent that acts for someone has a delegation from that person that covers the action, is not over
-- and fits the purpose; a private resource with an owner is the actor's own; its namespace is the
-- principal's; and a viewer who is no admin does nothing but read knowledge, memories, decisions and
-- audits.
pub allow_iff :
    (wall : String) (p : Principal) (a : Action) (r : Resource) (c : AuthContext)
    → ((allow wall p a r c).effect ≡ allowed) ↔ IsPermitted wall p a r c
unfolding allow deny_if_cross_tenant deny_if_classification_insufficient deny_if_not_admin
    deny_if_agent_delegation_invalid deny_if_private_visibility deny_if_outside_namespace
    deny_if_viewer_cannot_write
allow_iff wall p a r c =
    iff_trans
      (or_else_iff _ _ (IsDenial-deny _ _) (same_tenant_iff p a r c) (
        or_else_iff _ _ (IsDenial-deny _ _) (cleared_iff p r) (
          or_else_iff _ _ (IsDenial-deny _ _) (administers_iff p a r c) (
            or_else_iff _ _ (IsDenial-delegation_test wall (acting_for p.kind) a c c.delegation)
              (IsDelegated-iff wall p a c)
              (or_else_iff _ _ (IsDenial-deny _ _) (owns_iff p r) (
                or_else_iff _ _ (IsDenial-deny _ _) (in_namespace_iff p a r c) (
                  or_else_iff _ _ (IsDenial-deny _ _) (writes_iff p a r c)
                    (λ _. tt, λ _. refl))))))))
      (
        λ h. record {
          principal_tenant = h.0.0;
          resource_tenant = h.0.1;
          cleared = h.1.0;
          administers = h.1.1.0;
          delegated = h.1.1.1.0;
          owns = h.1.1.1.1.0;
          in_namespace = h.1.1.1.1.1.0;
          writes = h.1.1.1.1.1.1.0;
        },
        λ k. (
          (k.principal_tenant, k.resource_tenant),
          (k.cleared, (k.administers, (k.delegated, (k.owns, (k.in_namespace, (k.writes, tt)))))),
        ),
      )
