-- ===== src/Kernel/Authorization/Order.antt =====
-- What keeps a permission: more clearance, more namespaces, an earlier instant.
use kotowari.Base.{String, ◌≤◌, ◌≡◌, ◌∙◌, Option, none, some, false, In, get_or, arith, string_eq}
use native.Mathlib.Nat.{le_trans}
use kotowari.Base.Text.{text_lt, text_lt_le_trans}
use kotowari.Kernel.Metadata.{visibility_eq, classification_rank}
use kotowari.Kernel.Access.{
  Action, action_eq, Resource, Delegation, Principal, AuthContext, allowed,
}
use kotowari.Kernel.Authorization.{acting_for, allow}
use kotowari.Kernel.Authorization.Permission.{IsDelegated, allow_iff}

-- A principal who differs from another only in a clearance at least as high and in further
-- namespaces is allowed whatever the other is allowed.
pub allow_mono :
    (wall : String) (p q : Principal) (a : Action) (r : Resource) (c : AuthContext)
    → q.kind ≡ p.kind
    → q.id ≡ p.id
    → q.tenant_id ≡ p.tenant_id
    → q.roles ≡ p.roles
    → classification_rank p.clearance ≤ classification_rank q.clearance
    → ((n : String) → In n p.namespace_ids → In n q.namespace_ids)
    → (allow wall p a r c).effect ≡ allowed
    → (allow wall q a r c).effect ≡ allowed
allow_mono wall p q a r c kind id tenant roles higher more h =
    let k = (allow_iff wall p a r c).0 h in
    (allow_iff wall q a r c).1 (record {
      principal_tenant = tenant ∙ k.principal_tenant;
      resource_tenant = k.resource_tenant;
      cleared = le_trans k.cleared higher;
      administers = λ e. rw roles (k.administers e);
      delegated = rw kind k.delegated;
      owns = λ v owner e. rw (kind, id) (k.owns v owner e);
      in_namespace = more _ k.in_namespace;
      writes = λ w. rw roles (k.writes w);
    })

IsDelegated-earlier :
    (earlier later : String) (now why : Option String) (a : Action) (from : Option String)
    (given : Option Delegation)
    → text_lt later earlier ≡ false
    → IsDelegated (get_or now later) why a from given
    → IsDelegated (get_or now earlier) why a from given
IsDelegated-earlier earlier later (some now) why a from given order k = k
IsDelegated-earlier earlier later none why a none given order k = tt
IsDelegated-earlier earlier later none why a (some from) none order k = k
IsDelegated-earlier earlier later none why a (some from) (some d) order k = record {
  delegator = k.delegator;
  scope = k.scope;
  unexpired = ground (arith, text_lt_le_trans d.expires_at earlier later, k.unexpired);
  purpose = k.purpose;
}

-- What is allowed at an instant of the clock is allowed at every earlier one: delegations only run
-- out.
pub allow_earlier :
    (earlier later : String) (p : Principal) (a : Action) (r : Resource) (c : AuthContext)
    → text_lt later earlier ≡ false
    → (allow later p a r c).effect ≡ allowed
    → (allow earlier p a r c).effect ≡ allowed
allow_earlier earlier later p a r c order h =
    let k = (allow_iff later p a r c).0 h in
    (allow_iff earlier p a r c).1 (record {
      principal_tenant = k.principal_tenant;
      resource_tenant = k.resource_tenant;
      cleared = k.cleared;
      administers = k.administers;
      delegated =
          IsDelegated-earlier earlier later c.now c.purpose a (acting_for p.kind) c.delegation order
            k.delegated;
      owns = k.owns;
      in_namespace = k.in_namespace;
      writes = k.writes;
    })
