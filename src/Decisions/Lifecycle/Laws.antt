-- ===== src/Decisions/Lifecycle/Laws.antt =====
-- What the lifecycle capabilities leave behind: one event, also in the outbox, or nothing.
use kotowari.Base.{
  In, ==_iff, string_eq, ◌+◌, String, Option, some, Result, ok, ◌≡◌, inl, inr, refl, arith,
  Option-cases, find,
}
use kotowari.Kernel.Errors.{Failure}
use kotowari.Kernel.World.{World}
use kotowari.Kernel.Ids.{as_decision_id, as_policy_version_id, as_branded}
use kotowari.Kernel.Provenance.{compact_provenance}
use kotowari.Kernel.Access.{
  decision_read, decision_relate, decision_approve, policy_exception, Principal,
}
use kotowari.Kernel.Authorization.{assert_allowed}
use kotowari.Kernel.Authorization.Permission.{IsPermitted}
use kotowari.Kernel.Authorization.Receipts.{assert_allowed_iff}
use kotowari.Kernel.Decision.{
  Decision, DecisionRelation, DecisionRelationKind, PolicyException, ApprovalRecord, ApprovalStatus,
}
use kotowari.Kernel.Events.{decision_related, decision_approval_recorded, policy_exception_recorded}
use kotowari.PluginSdk.Store.{get_decision, list_policies}
use kotowari.PluginSdk.System.{System}
use kotowari.PluginSdk.Lifecycle.{put_decision_relation, put_approval_record, put_policy_exception}
use kotowari.Kernel.Context.{PolicyRecord}
use kotowari.Policy.{policy_version_ref}
use kotowari.Decisions.{call_context, decision_resource}
use kotowari.Decisions.Lifecycle.{
  decision_for_lifecycle, persist_lifecycle_event, create_decision_relation, create_approval_record,
  relate_decision_capability, record_decision_approval_capability,
  record_policy_exception_capability, create_policy_exception, policy_resource, is_version,
}
use kotowari.Decisions.Lifecycle.Lookup.{
  Appends, MayDo, second_event, find-eq-some, found_lem, found-world, found-cases,
}

-- An approval that is returned is of a stored decision that the principal may approve, and the call
-- has appended the approval's event to the log and to the outbox.
pub record_decision_approval_capability-Appends :
    (p : Principal) (id : String) (status : ApprovalStatus) (method about : Option String)
    (s t : System) (x : ApprovalRecord)
    → record_decision_approval_capability p id status method about s ≡ (ok (some x), t)
    → (d : Decision) × ((get_decision id s.store ≡ some d)
        × (x.decision_id ≡ d.id)
        × (x.approver ≡ p.id))
      × MayDo (s.world.clock s.world.readings) p decision_approve "decision-approve" d
      × Appends s.store t.store (decision_approval_recorded d.id x.id x)
unfolding second_event record_decision_approval_capability persist_lifecycle_event
    put_approval_record create_approval_record compact_provenance
record_decision_approval_capability-Appends p id status method about s t x h =
    elim (found-cases p id decision_approve "decision-approve" s) [
      | inr (inl e) ↦ absurd (ground arith)
      | inr (inr (f, e)) ↦ absurd (ground arith)
      | inl (d, e) ↦
          let (found, may, same) = found_lem p id decision_approve "decision-approve" s d e in
          (
            d,
            (found, ground arith, ground arith),
            may,
            (
              second_event d.tenant_id x.provenance x.recorded_at
                  (decision_approval_recorded d.id x.id x)
                  (decision_for_lifecycle p id decision_approve "decision-approve" s).1,
              refl,
              ground arith,
            ),
          )
    ]

-- A relation that is returned joins two stored decisions; the principal may relate the first and read
-- the second; and the call has appended the relation's event to the log and to the outbox.
pub relate_decision_capability-Appends :
    (p : Principal) (from to : String) (kind : DecisionRelationKind) (s t : System)
    (x : DecisionRelation)
    → relate_decision_capability p from to kind s ≡ (ok (some x), t)
    → (c : Decision) × (d : Decision) × ((get_decision from s.store ≡ some c)
        × (get_decision to s.store ≡ some d)
        × (x.from_decision_id ≡ c.id)
        × (x.to_decision_id ≡ d.id)
        × (x.kind ≡ kind))
      × MayDo (s.world.clock s.world.readings) p decision_relate "decision-relate" c
      × MayDo (s.world.clock (s.world.readings + 1)) p decision_read "decision-relate" d
      × Appends s.store t.store (decision_related c.id d.id x.id x)
unfolding second_event relate_decision_capability persist_lifecycle_event put_decision_relation
    create_decision_relation compact_provenance as_decision_id as_branded
relate_decision_capability-Appends p from to kind s t x h =
    elim (found-cases p from decision_relate "decision-relate" s) [
      | inr (inl e) ↦ absurd (ground arith)
      | inr (inr (f, e)) ↦ absurd (ground arith)
      | inl (c, e) ↦
          let (found, may, same) = found_lem p from decision_relate "decision-relate" s c e in
          let s1 = (decision_for_lifecycle p from decision_relate "decision-relate" s).1 in
          elim (Option-cases (get_decision to s1.store)) [
            | inl missing ↦ absurd (ground arith)
            | inr (d, target) ↦
                let checked : Result Failure (Unit {0}) × World =
                  assert_allowed p decision_read (decision_resource d)
                    (call_context p (some "decision-relate")) s1.world in
                (
                  c,
                  d,
                  (found, rw same at target, ground arith, ground arith, ground arith),
                  may,
                  rw (found-world p from decision_relate "decision-relate" s c e) at (
                      (assert_allowed_iff p decision_read (decision_resource d)
                          (call_context p (some "decision-relate")) s1.world).0
                        (ground arith)),
                  (
                    second_event c.tenant_id x.provenance x.recorded_at
                        (decision_related c.id d.id x.id x) (record s1 { world = checked.1 }),
                    refl,
                    ground arith,
                  ),
                )
          ]
    ]

-- An exception that is returned is to a policy version of the principal's tenant that is stored; the
-- principal may except the decision and the policy; and the call has appended the exception's event
-- to the log and to the outbox.
pub record_policy_exception_capability-Appends :
    (p : Principal) (id version reason : String) (s t : System) (x : PolicyException)
    → record_policy_exception_capability p id version reason s ≡ (ok (some x), t)
    → (d : Decision) × (policy : PolicyRecord) × ((get_decision id s.store ≡ some d)
        × (x.decision_id ≡ d.id)
        × (x.reason ≡ reason))
      × (In policy (list_policies p.tenant_id s.store)
          × ((policy_version_ref policy).policy_version_id ≡ version)
          × (x.policy_version_id ≡ version))
      × MayDo (s.world.clock s.world.readings) p policy_exception "policy-exception" d
      × IsPermitted
          (s.world.clock (s.world.readings + 1))
          p
          policy_exception
          (policy_resource policy)
          (call_context p (some "policy-exception"))
      × Appends s.store t.store (policy_exception_recorded d.id x.id version x)
unfolding second_event record_policy_exception_capability persist_lifecycle_event
    put_policy_exception create_policy_exception compact_provenance as_policy_version_id as_branded
record_policy_exception_capability-Appends p id version reason s t x h =
    elim (found-cases p id policy_exception "policy-exception" s) [
      | inr (inl e) ↦ absurd (ground arith)
      | inr (inr (f, e)) ↦ absurd (ground arith)
      | inl (d, e) ↦
          let (found, may, same) = found_lem p id policy_exception "policy-exception" s d e in
          let s1 = (decision_for_lifecycle p id policy_exception "policy-exception" s).1 in
          elim (Option-cases (find (is_version version) (list_policies p.tenant_id s1.store))) [
            | inl missing ↦ absurd (ground arith)
            | inr (policy, hit) ↦
                let (listed, named) =
                  find-eq-some (is_version version) (list_policies p.tenant_id s1.store) policy
                    hit in
                let checked : Result Failure (Unit {0}) × World =
                  assert_allowed p policy_exception (policy_resource policy)
                    (call_context p (some "policy-exception")) s1.world in
                (
                  d,
                  policy,
                  (found, ground arith, ground arith),
                  (rw same at listed, (==_iff _ _).0 named, ground arith),
                  may,
                  rw (found-world p id policy_exception "policy-exception" s d e) at (
                      (assert_allowed_iff p policy_exception (policy_resource policy)
                          (call_context p (some "policy-exception")) s1.world).0
                        (ground arith)),
                  (
                    second_event d.tenant_id x.provenance x.recorded_at
                        (policy_exception_recorded d.id x.id version x)
                        (record s1 { world = checked.1 }),
                    refl,
                    ground arith,
                  ),
                )
          ]
    ]
