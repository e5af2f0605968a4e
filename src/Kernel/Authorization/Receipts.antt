-- ===== src/Kernel/Authorization/Receipts.antt =====
-- Denials that throw, and the receipts of decisions.
use kotowari.Base.{
  String, Option, none, some, false, ◌≡◌, ◌↔◌, refl, arith, ok, iff_trans, get_or, ◌+◌,
}
use kotowari.Base.Text.{text_lt}
use kotowari.Kernel.World.{World}
use kotowari.Kernel.Access.{
  Action, Resource, Principal, AuthContext, allowed, AuthDecision, AuthorizationReceipt,
}
use kotowari.Kernel.Authorization.{
  allow, allow_now, allow_with_receipt, assert_allowed, throw_denial, denial_text, acting_for,
}
use kotowari.Kernel.Authorization.Permission.{IsPermitted, allow_iff}
use kotowari.Kernel.Authorization.Order.{allow_earlier}

throw_denial_iff :
    (d : AuthDecision) (m : String) → (throw_denial d m ≡ ok tt) ↔ (d.effect ≡ allowed)
throw_denial_iff d m = ground arith

-- `assertAllowed` returns exactly if the request is permitted at the instant that the clock shows.
pub assert_allowed_iff :
    (p : Principal) (a : Action) (r : Resource) (c : AuthContext) (w : World)
    → ((assert_allowed p a r c w).0 ≡ ok tt) ↔ IsPermitted (w.clock w.readings) p a r c
unfolding assert_allowed allow_now
assert_allowed_iff p a r c w =
    iff_trans (throw_denial_iff (allow (w.clock w.readings) p a r c) (denial_text a r))
      (allow_iff (w.clock w.readings) p a r c)

-- Two readings of the clock with one effective instant permit the same.
same_instant :
    (x y : String) (p : Principal) (a : Action) (r : Resource) (c : AuthContext)
    → get_or c.now y ≡ get_or c.now x
    → IsPermitted x p a r c
    → IsPermitted y p a r c
same_instant x y p a r c e k = record {
  principal_tenant = k.principal_tenant;
  resource_tenant = k.resource_tenant;
  cleared = k.cleared;
  administers = k.administers;
  delegated = rw e k.delegated;
  owns = k.owns;
  in_namespace = k.in_namespace;
  writes = k.writes;
}

allow-same_instant :
    (x y : String) (p : Principal) (a : Action) (r : Resource) (c : AuthContext)
    → get_or c.now y ≡ get_or c.now x
    → (allow x p a r c).effect ≡ allowed
    → (allow y p a r c).effect ≡ allowed
allow-same_instant x y p a r c e h =
    (allow_iff y p a r c).1 (same_instant x y p a r c e ((allow_iff x p a r c).0 h))

-- At the instant that a receipt names, `later` on the clock unless the context gives one.
allowed_before :
    (now : Option String) (sooner later : String) (p : Principal) (a : Action) (r : Resource)
    (c : AuthContext)
    → c.now ≡ now
    → text_lt later sooner ≡ false
    → (allow (get_or now later) p a r c).effect ≡ allowed
    → (allow sooner p a r c).effect ≡ allowed
allowed_before none sooner later p a r c e order h = allow_earlier sooner later p a r c order h
allowed_before (some t) sooner later p a r c e order h =
    allow-same_instant t sooner p a r c (rw e) h

-- A receipt names the principal, whom it acts for, the action and the resource; its effect and reason
-- are the decision's; and where the clock does not run backwards, what is allowed at the instant that
-- the receipt names the receipt says is allowed.
allow_with_receipt-IsSound :
    (p : Principal) (a : Action) (r : Resource) (c : AuthContext) (w : World) (d : AuthDecision)
    (receipt : AuthorizationReceipt)
    → text_lt (w.clock (w.readings + 1)) (w.clock w.readings) ≡ false
    → (allow_with_receipt p a r c w).0 ≡ ok (d, receipt)
    → ((d.effect ≡ allowed) ↔ IsPermitted (w.clock w.readings) p a r c)
      × ((receipt.effect ≡ d.effect) × (receipt.reason ≡ d.reason))
      × ((receipt.principal_id ≡ p.id)
          × (receipt.acting_for ≡ acting_for p.kind)
          × (receipt.action ≡ a)
          × (receipt.resource_kind ≡ r.kind)
          × (receipt.resource_id ≡ r.id))
      × ((allow receipt.evaluated_at p a r c).effect ≡ allowed → receipt.effect ≡ allowed)
unfolding allow_with_receipt allow_now
allow_with_receipt-IsSound p a r c w d receipt order h =
    let same : d ≡ allow (w.clock w.readings) p a r c = cc in
    let effect : receipt.effect ≡ d.effect = cc in
    let reason : receipt.reason ≡ d.reason = cc in
    let at : receipt.evaluated_at ≡ get_or c.now (w.clock (w.readings + 1)) = cc in
    (
      rw same (allow_iff (w.clock w.readings) p a r c),
      (effect, reason),
      (cc, cc, cc, cc, cc),
      λ k.
          rw (effect, same)
            (allowed_before c.now (w.clock w.readings) (w.clock (w.readings + 1)) p a r c refl order
              (rw (← at) k)),
    )
