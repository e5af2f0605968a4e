-- ===== src/Tests/Conflicts.antt =====
-- The properties of conflicts at two claims on the colour of a car.
use mathlib.Core.Bool.{decide}
use kotowari.Base.{
  String, List, [], ◌∷◌, none, some, true, false, ◌≡◌, ◌≢◌, inl, refl, ok, In, lookup, insert,
  values, filter, any, all, find, includes, ltb, length, add_all,
}
use kotowari.Base.Exec.{for_each}
use kotowari.Base.Number.{integer, num_lt}
use kotowari.Base.Sorting.{sort}
use kotowari.Base.Text.{text_lt, is_blank, join, trim}
use kotowari.Kernel.World.{now_iso, new_id}
use kotowari.Kernel.Metadata.{Visibility-discrete}
use kotowari.Kernel.Ids.{as_claim_id, as_conflict_id}
use kotowari.Kernel.Provenance.{compact_provenance}
use kotowari.Kernel.Access.{Action-discrete}
use kotowari.Kernel.Authorization.{
  allow, allow_now, assert_allowed, deny_if_cross_tenant, deny_if_classification_insufficient,
  deny_if_not_admin, deny_if_agent_delegation_invalid, deny_if_private_visibility,
  deny_if_outside_namespace, deny_if_viewer_cannot_write,
}
use kotowari.Kernel.Claim.{Claim, ClaimStatus-discrete}
use kotowari.Kernel.Entity.{Conflict, ConflictResolution, value, human_review}
use kotowari.PluginSdk.Store.{Store, empty_store, get_claim, list_conflicts, list_resolutions}
use kotowari.PluginSdk.System.{System}
use kotowari.Knowledge.Conflicts.{claim_set_key, active_for_detection, active_at}
use kotowari.Knowledge.Conflicts.Sets.{
  ClaimGroup, is_within, keep_maximal, canonical_object_key, representatives_from, candidate_sets,
  start_times, maximal_violating_sets,
}
use kotowari.Knowledge.Conflicts.Sets.Laws.{IsViolating, maximal_violating_sets-IsViolating}
use kotowari.Knowledge.Conflicts.Resolution.{
  same_claim_set, as_claim_ids, stored_claims, require_claims, choose_conflict, check_preferred,
  store_resolution, resolve_existing, resolve_claim_conflict,
}
use kotowari.Knowledge.Conflicts.Resolution.Steps.{IsResolution}
use kotowari.Knowledge.Conflicts.Resolution.Laws.{
  Resolves, resolve_claim_conflict-Resolves, resolve_claim_conflict-once,
}
use kotowari.Tests.Data.{day_1, day_2, world, metadata, provenance, ada, red_claim, blue_claim}
use kotowari.Tests.Store.{collate}

abbrev both : List String
both = "c1" ∷ "c2" ∷ []

abbrev colours : Conflict
colours = record {
  metadata = metadata;
  id = "k1";
  kind = value;
  claim_ids = both;
  cause = none;
  provenance = none;
  recorded_at = day_1;
}

abbrev disputed : System
disputed = record {
  store = record empty_store {
    claims = ("c1", red_claim) ∷ ("c2", blue_claim) ∷ [];
    conflicts = ("k1", colours) ∷ [];
  };
  world = world;
}

abbrev settled_for : ConflictResolution
settled_for = record {
  metadata = metadata;
  id = "k1";
  claim_ids = both;
  strategy = human_review;
  preferred_claim_id = "c1";
  reason = "newer";
  provenance = record provenance {
    source = "curator";
    process = "conflict.resolve";
    timestamp = day_2;
  };
  recorded_at = day_2;
}

abbrev settled : System
settled = (resolve_claim_conflict collate ada none both "c1" " newer " disputed).1

settles :
    resolve_claim_conflict collate ada none both "c1" " newer " disputed ≡ (ok settled_for, settled)
unfolding resolve_claim_conflict is_blank trim as_claim_ids as_claim_id as_conflict_id
    list_conflicts choose_conflict same_claim_set claim_set_key sort join find filter values
    resolve_existing check_preferred includes list_resolutions any require_claims stored_claims
    get_claim lookup for_each store_resolution compact_provenance now_iso new_id assert_allowed
    allow_now allow deny_if_cross_tenant deny_if_classification_insufficient deny_if_not_admin
    deny_if_agent_delegation_invalid deny_if_private_visibility deny_if_outside_namespace
    deny_if_viewer_cannot_write Visibility-discrete Action-discrete decide text_lt
settles = refl

resolve_claim_conflict-Resolves_example :
    (is_blank " newer " ≡ false)
    × ((c : Conflict) × (base : Store) × Resolves collate ada none both disputed.store c base
        × IsResolution ada " newer " c base settled.store settled_for)
resolve_claim_conflict-Resolves_example =
    resolve_claim_conflict-Resolves collate ada none both "c1" " newer " disputed settled
      settled_for settles

abbrev resolved_before : System
resolved_before = record disputed {
  store = record (disputed.store) { resolutions = ("k1", settled_for) ∷ [] };
}

kept : In settled_for (list_resolutions "acme" resolved_before.store)
unfolding list_resolutions values filter
kept = inl refl

resolve_claim_conflict-once_example :
    resolve_claim_conflict collate ada (some "k1") both "c2" "older" resolved_before
    ≢ (ok settled_for, settled)
resolve_claim_conflict-once_example =
    resolve_claim_conflict-once collate ada both "c2" "older" resolved_before settled settled_for
      settled_for kept

-- A car has one colour.
abbrev car_colours : ClaimGroup
car_colours = record {
  subject = "car";
  rule = record { predicate = "colour"; max = integer 1; terms = []; source = none };
  claims = red_claim ∷ blue_claim ∷ [];
}

abbrev red_and_blue : List Claim
red_and_blue = red_claim ∷ blue_claim ∷ []

found : maximal_violating_sets collate [] car_colours ≡ ok (red_and_blue ∷ [])
unfolding maximal_violating_sets candidate_sets start_times sort text_lt filter active_at
    active_for_detection representatives_from canonical_object_key lookup insert values
    claim_set_key join keep_maximal any all ClaimStatus-discrete decide add_all includes num_lt
found = refl

maximal_violating_sets-IsViolating_example :
    IsViolating collate [] car_colours red_and_blue
    × ((b : List Claim)
        → In b (red_and_blue ∷ [])
        → ltb (length red_and_blue) (length b) ≡ true
        → is_within red_and_blue b ≡ false)
maximal_violating_sets-IsViolating_example =
    maximal_violating_sets-IsViolating collate [] car_colours (red_and_blue ∷ []) red_and_blue found
      (inl refl)
