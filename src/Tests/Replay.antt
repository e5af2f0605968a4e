-- ===== src/Tests/Replay.antt =====
-- The properties of replay at a decision whose snapshot names one policy version.
use mathlib.Core.Bool.{decide}
use kotowari.Base.{
  String, [], ◌∷◌, none, some, true, ◌≡◌, ◌↔◌, refl, ok, All, In, lookup, includes, filter, values,
  find,
}
use kotowari.Base.Number.{Number, nan, integer, num_lt}
use kotowari.Base.Text.{is_blank}
use kotowari.Kernel.World.{now_iso}
use kotowari.Kernel.Metadata.{Visibility-discrete}
use kotowari.Kernel.Ids.{as_decision_id}
use kotowari.Kernel.Access.{Action-discrete, decision_read}
use kotowari.Kernel.Authorization.{
  allow, allow_now, assert_allowed, deny_if_cross_tenant, deny_if_classification_insufficient,
  deny_if_not_admin, deny_if_agent_delegation_invalid, deny_if_private_visibility,
  deny_if_outside_namespace, deny_if_viewer_cannot_write,
}
use kotowari.Kernel.Context.{PolicyVersionRef}
use kotowari.Kernel.Decision.{Decision}
use kotowari.PluginSdk.Store.{empty_store, get_decision, list_policies}
use kotowari.PluginSdk.System.{System}
use kotowari.Policy.{policy_version_ref}
use kotowari.Decisions.Lifecycle.Lookup.{MayDo}
use kotowari.Decisions.Replay.{
  DecisionReplay, refs_from_snapshot, match_refs, load_policy_versions, replay_of,
  replay_decision_capability,
}
use kotowari.Decisions.Replay.References.{NamesVersion}
use kotowari.Decisions.Replay.Laws.{
  IsStored, Restores, HasReceipt, replay_decision_capability-complete_iff,
  replay_decision_capability-Restores,
}
use kotowari.Tests.Data.{day_2, world, ada, policy, snapshot, decision_of}

abbrev pub number_text : Number → String
number_text n = "number"

abbrev pub to_number : String → Number
to_number s = nan

abbrev governed : Decision
governed = record (decision_of "d1") {
  input_context_snapshot = record snapshot {
    policy_versions =
        record { policy_id = "p1"; policy_version_id = "v1"; version = integer 1 } ∷ [];
  };
}

abbrev archive : System
archive = record {
  store = record empty_store { decisions = ("d1", governed) ∷ []; policies = ("v1", policy) ∷ [] };
  world = world;
}

abbrev replay : DecisionReplay
replay = record {
  decision = governed;
  context_snapshot = governed.input_context_snapshot;
  retrieval_receipt = none;
  policy_versions = policy ∷ [];
  complete = true;
  missing = [];
}

abbrev after_replay : System
after_replay = (replay_decision_capability number_text to_number ada "d1" archive).1

replay_given :
    replay_decision_capability number_text to_number ada "d1" archive
    ≡ (ok (some replay), after_replay)
unfolding replay_decision_capability as_decision_id is_blank get_decision lookup assert_allowed
    allow_now now_iso allow deny_if_cross_tenant deny_if_classification_insufficient
    deny_if_not_admin deny_if_agent_delegation_invalid deny_if_private_visibility
    deny_if_outside_namespace deny_if_viewer_cannot_write includes Visibility-discrete
    Action-discrete decide replay_of load_policy_versions refs_from_snapshot match_refs find
    list_policies filter values policy_version_ref num_lt
replay_given = refl

replay_decision_capability-complete_iff_example :
    ((get_decision "d1" archive.store ≡ some governed)
      × (replay.context_snapshot ≡ governed.input_context_snapshot)
      × (after_replay.store ≡ archive.store))
    × MayDo day_2 ada decision_read "decision-replay" governed
    × ((replay.complete ≡ true) ↔ (
        HasReceipt none archive.store
        × All
            (IsStored (list_policies "acme" archive.store))
            (refs_from_snapshot number_text to_number replay.context_snapshot)))
    × ((ref : PolicyVersionRef)
        → In ref (refs_from_snapshot number_text to_number replay.context_snapshot)
          ↔ NamesVersion number_text to_number replay.context_snapshot ref)
replay_decision_capability-complete_iff_example =
    replay_decision_capability-complete_iff number_text to_number ada "d1" archive after_replay
      replay replay_given

replay_decision_capability-Restores_example :
    Restores
      (list_policies "acme" archive.store)
      (refs_from_snapshot number_text to_number replay.context_snapshot)
      replay.policy_versions
replay_decision_capability-Restores_example =
    replay_decision_capability-Restores number_text to_number ada "d1" archive after_replay replay
      replay_given refl
