-- ===== src/Decisions/Replay.antt =====
-- `replayDecisionCapability` of packages/capability-decision/src/decision.ts: a decision with the
-- receipt and the exact policy versions that its snapshot names, and what of these is missing.
pub mod References
pub mod Laws
use Prim.Native.Char.{code}
use Prim.Native.String
use kotowari.Base.{
  ℕ, String, List, [], ◌∷◌, ◌++◌, Option, none, some, Bool, true, false, not, ◌&&◌, ◌||◌, string_eq,
  ◌==◌, nat_eq, length, get_or, find, is_some, if◌then◌else◌, ltb,
}
use kotowari.Base.Exec.{◌>>=◌, ◌>>◌, pure, lift}
use kotowari.Base.Number.{Number, num_eq, is_integer}
use kotowari.Kernel.Ids.{as_decision_id}
use kotowari.Kernel.Access.{Principal, decision_read}
use kotowari.Kernel.Authorization.{assert_allowed}
use kotowari.Kernel.Context.{ContextSnapshot, PolicyRecord, PolicyVersionRef, RetrievalReceipt}
use kotowari.Kernel.Decision.{Decision}
use kotowari.PluginSdk.Store.{Store, get_decision, get_retrieval_receipt, list_policies}
use kotowari.PluginSdk.System.{Run, on_world, read}
use kotowari.Policy.{policy_version_ref}
use kotowari.Decisions.{call_context, decision_resource}
use kotowari.Decisions.Lifecycle.{when_found}

pub record DecisionReplay : Type 0 where
  pub decision : Decision
  pub context_snapshot : ContextSnapshot
  pub retrieval_receipt : Option RetrievalReceipt
  pub policy_versions : List PolicyRecord
  pub complete : Bool
  pub missing : List String

-- The parts before and after the last `@`.
unfoldable pub split_last : String → Option (String × String)
split_last String.[] = none
split_last (String.◌∷◌ c rest) = elim (split_last rest) [
  | some (before, after) ↦ some (String.◌∷◌ c before, after)
  | none ↦ if nat_eq (code c) b'@' then some ("", rest) else none
]

pub record LegacyKey : Type 0 where
  pub id : String
  pub version : Number

-- What the policies of a snapshot are, and which of them a store has.
pub record LoadedPolicies : Type 0 where
  pub policies : List PolicyRecord
  pub missing : List String

-- `candidate.policyVersionId === ref.policyVersionId && candidate.version === ref.version`
abbrev pub is_exactly : PolicyVersionRef → PolicyRecord → Bool
is_exactly ref policy =
    let candidate = policy_version_ref policy in
    (candidate.policy_version_id == ref.policy_version_id) && num_eq candidate.version ref.version

-- `retrieval:${id}`, where the snapshot names a receipt that the store lacks.
abbrev pub missing_receipt : Option String → Option RetrievalReceipt → List String
missing_receipt none found = []
missing_receipt (some id) (some receipt) = []
missing_receipt (some id) none = String.◌++◌ "retrieval:" id ∷ []

abbrev pub receipt_of : Option String → Store → Option RetrievalReceipt
receipt_of none s = none
receipt_of (some id) s = get_retrieval_receipt id s

-- `to_number` is `Number` on texts.
module _ (number_text : Number → String) (to_number : String → Number) where
  abbrev pub legacy_key : Option (String × String) → Option LegacyKey
  legacy_key none = none
  legacy_key (some (before, after)) =
      if before == ""
      then none
      else if not (is_integer (to_number after))
      then none
      else some (record { id = before; version = to_number after })

  unfoldable pub parse_legacy_policy_version_key : String → Option LegacyKey
  unfolding split_last
  parse_legacy_policy_version_key value = legacy_key (split_last value)

  abbrev pub ref_of_legacy : Option LegacyKey → List PolicyVersionRef
  ref_of_legacy none = []
  ref_of_legacy (some parsed) =
      record { policy_id = parsed.id; policy_version_id = parsed.id; version = parsed.version } ∷ []

  -- `flatMap`
  pub legacy_refs : List String → List PolicyVersionRef
  legacy_refs [] = []
  legacy_refs (key ∷ keys) = ref_of_legacy (parse_legacy_policy_version_key key) ++ legacy_refs keys

  unfoldable pub refs_from_snapshot : ContextSnapshot → List PolicyVersionRef
  unfolding legacy_refs
  refs_from_snapshot snapshot =
      if ltb 0 (length snapshot.policy_versions)
      then snapshot.policy_versions
      else legacy_refs (get_or snapshot.policy_version_ids [])

  abbrev pub missing_policy : PolicyVersionRef → String
  missing_policy ref =
      String.◌++◌ "policy:"
        (String.◌++◌ ref.policy_version_id (String.◌++◌ "@" (number_text ref.version)))

  -- A reference that was looked up, with those that come after it.
  abbrev pub add_match : PolicyVersionRef → Option PolicyRecord → LoadedPolicies → LoadedPolicies
  add_match ref none rest = record rest { missing = missing_policy ref ∷ rest.missing }
  add_match ref (some match) rest = record rest { policies = match ∷ rest.policies }

  -- The loop of `loadPolicyVersions` over the references.
  unfoldable pub match_refs : List PolicyRecord → List PolicyVersionRef → LoadedPolicies
  match_refs records [] = record { policies = []; missing = [] }
  match_refs records (ref ∷ refs) =
      add_match ref (find (is_exactly ref) records) (match_refs records refs)

  unfoldable pub load_policy_versions : ContextSnapshot → Store → LoadedPolicies
  load_policy_versions snapshot s =
      match_refs (list_policies snapshot.tenant_id s) (refs_from_snapshot snapshot)

  -- What replay returns for a decision, read from a store.
  unfoldable pub replay_of : Decision → Store → DecisionReplay
  replay_of decision s =
      let snapshot = decision.input_context_snapshot in
      let receipt = receipt_of snapshot.retrieval_receipt_id s in
      let loaded = load_policy_versions snapshot s in
      let missing = missing_receipt snapshot.retrieval_receipt_id receipt ++ loaded.missing in
      record {
        decision = decision;
        context_snapshot = snapshot;
        retrieval_receipt = receipt;
        policy_versions = loaded.policies;
        complete = nat_eq (length missing) 0;
        missing = missing;
      }

  unfoldable pub replay_decision_capability : Principal → String → Run (Option DecisionReplay)
  replay_decision_capability principal decision_id = do
    id ← lift (as_decision_id decision_id)
    found ← read (get_decision id)
    when_found found λ decision. do
      on_world (
          assert_allowed principal decision_read (decision_resource decision)
            (call_context principal (some "decision-replay")))
      replay ← read (replay_of decision)
      pure (some replay)
