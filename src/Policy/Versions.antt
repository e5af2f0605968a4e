-- ===== src/Policy/Versions.antt =====
-- What `putPolicyVersion` stores, and when it refuses.
use kotowari.Base.{
  ◌<◌, String, some, true, ◌≡◌, ◌≢◌, arith, ok, head?, lookup-insert, string_eq, ==_self, ==_iff,
}
use kotowari.Base.Text.{text_lt}
use kotowari.Kernel.World.{new_id}
use kotowari.Kernel.Access.{Principal}
use kotowari.Kernel.Context.{PolicyRecord}
use kotowari.PluginSdk.Store.{get_policy}
use kotowari.PluginSdk.System.{System}
use kotowari.Policy.{VersionInput, policy_version_ref, put_policy_version}

-- The version that a call has stored.
pub record IsStoredVersion (p : Principal) (i : VersionInput) (before after : System)
    (policy : PolicyRecord) : Type 0 where
  pub drawn :
      (policy.id ≡ before.world.uuid before.world.drawn)
      × (before.world.drawn < after.world.drawn)
      × (after.world.uuid ≡ before.world.uuid)
  pub stored : get_policy policy.id after.store ≡ some policy
  pub others : (k : String) → policy.id ≢ k → get_policy k after.store ≡ get_policy k before.store
  pub exact : (policy_version_ref policy).policy_version_id ≡ policy.id
  pub family : (id : String) → i.policy_id ≡ some id → (policy_version_ref policy).policy_id ≡ id
  pub tenant : policy.tenant_id ≡ p.tenant_id
  pub namespace : head? p.namespace_ids ≡ some policy.namespace_id
  pub window :
      (from to : String)
      → i.effective_from ≡ some from
      → i.effective_to ≡ some to
      → text_lt from to ≡ true

-- A call that returns has stored the returned version under the next identifier of the random source,
-- drawn for the version in the call and not left for a later one, whatever family is asked for; it has
-- changed the policy of no other identifier. The version is its own exact reference, belongs to the
-- family that was asked for, to the principal's tenant and first namespace, and its window, where it has
-- two ends, is not empty.
pub put_policy_version-IsStoredVersion :
    (p : Principal) (i : VersionInput) (before after : System) (policy : PolicyRecord)
    → put_policy_version p i before ≡ (ok policy, after)
    → IsStoredVersion p i before after policy
unfolding put_policy_version policy_version_ref get_policy new_id
put_policy_version-IsStoredVersion p i before after policy h = record {
  drawn = (ground arith, ground arith, ground arith);
  stored =
      ground
        (arith, lookup-insert policy.id policy.id policy before.store.policies, ==_self policy.id);
  others = λ k ne.
      ground (arith, lookup-insert policy.id k policy before.store.policies, ==_iff policy.id k);
  exact = ground arith;
  family = λ id e. ground arith;
  tenant = ground arith;
  namespace = ground arith;
  window = λ from to e f. ground (arith);
}
