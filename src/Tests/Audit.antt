-- ===== src/Tests/Audit.antt =====
-- The properties of audit bundles at a decision with one claim in its snapshot.
use mathlib.Core.Bool.{decide, false≢true}
use kotowari.Base.{
  String, [], ◌∷◌, some, ap, string_eq, ◌==◌, ==_iff, false, ◌≡◌, ◌≢◌, ◌↔◌, inl, inr, refl, sym,
  ◌∙◌, ok, In, lookup, includes, filter, values, get_or,
}
use kotowari.Base.Sorting.{sort}
use kotowari.Base.Text.{text_lt, is_blank}
use kotowari.Kernel.World.{now_iso, new_id}
use kotowari.Kernel.Metadata.{Visibility-discrete}
use kotowari.Kernel.Ids.{as_decision_id}
use kotowari.Kernel.Access.{Action-discrete, decision_read, audit_read}
use kotowari.Kernel.Authorization.{
  allow, allow_now, assert_allowed, deny_if_cross_tenant, deny_if_classification_insufficient,
  deny_if_not_admin, deny_if_agent_delegation_invalid, deny_if_private_visibility,
  deny_if_outside_namespace, deny_if_viewer_cannot_write,
}
use kotowari.Kernel.Claim.{retracted, claim_visible_at, ClaimStatus-discrete}
use kotowari.Kernel.Decision.{supersedes}
use kotowari.Kernel.Events.{DomainEvent, claim_asserted, decision_related}
use kotowari.PluginSdk.Store.{empty_store, get_decision, list_claims, latest_claim_known_at}
use kotowari.PluginSdk.Store.Versions.{IsConsistent}
use kotowari.PluginSdk.System.{System}
use kotowari.Decisions.Lifecycle.Lookup.{MayDo}
use kotowari.Decisions.Replay.{replay_of, replay_decision_capability}
use kotowari.Decisions.Audit.{
  event_touches_decision_context, lifecycle_event_touches_decision, DecisionAuditBundle, Hashed,
  base_bundle, build_base_bundle, with_lifecycle, audit_claims,
  build_decision_audit_bundle_capability,
}
use kotowari.Decisions.Audit.Touches.{IsAuditedWith}
use kotowari.Decisions.Audit.Laws.{
  HasUniqueIds, build_decision_audit_bundle_capability-events_iff,
  build_decision_audit_bundle_capability-claims,
}
use kotowari.Tests.Data.{day_1, day_2, world, provenance, metadata, ada, red_claim, decision_of}
use kotowari.Tests.Store.{collate, collate_order}
use kotowari.Tests.Replay.{number_text, to_number}

abbrev hash : Hashed → String
hash x = "digest"

abbrev event : DomainEvent
event = record {
  event_id = "a";
  tenant_id = "acme";
  provenance = provenance;
  occurred_at = day_1;
  body = claim_asserted "c1";
}

-- Another tenant's event with a claim's identifier of the snapshot, which the bundle leaves out.
abbrev foreign : DomainEvent
foreign = record event { event_id = "b"; tenant_id = "other" }

-- A later decision that supersedes the one that is audited.
abbrev superseded : DomainEvent
superseded = record event {
  event_id = "c";
  body = decision_related "d0" "d1" "r1" (record {
    metadata = metadata;
    id = "r1";
    from_decision_id = "d0";
    to_decision_id = "d1";
    kind = supersedes;
    recorded_at = day_2;
    provenance = provenance;
  });
}

abbrev archive : System
archive = record {
  store = record empty_store {
    claims = ("c1", red_claim) ∷ [];
    decisions = ("d1", decision_of "d1") ∷ [];
    events = event ∷ foreign ∷ superseded ∷ [];
  };
  world = world;
}

abbrev bundle : DecisionAuditBundle
bundle =
    with_lifecycle hash collate number_text to_number
      (base_bundle hash collate number_text to_number day_2 "fresh"
        (replay_of number_text to_number (decision_of "d1") archive.store) archive.store)
      archive.store

abbrev after_audit : System
after_audit =
    (build_decision_audit_bundle_capability hash collate number_text to_number ada "d1" archive).1

audited :
    build_decision_audit_bundle_capability hash collate number_text to_number ada "d1" archive
    ≡ (ok (some bundle), after_audit)
unfolding build_decision_audit_bundle_capability build_base_bundle replay_decision_capability
    as_decision_id is_blank get_decision lookup assert_allowed allow_now now_iso new_id allow
    deny_if_cross_tenant deny_if_classification_insufficient deny_if_not_admin
    deny_if_agent_delegation_invalid deny_if_private_visibility deny_if_outside_namespace
    deny_if_viewer_cannot_write includes Visibility-discrete Action-discrete decide replay_of
    base_bundle with_lifecycle
audited = refl

differ :
    (a b x y : DomainEvent)
    → (x.event_id == y.event_id) ≡ false
    → a ≡ x
    → b ≡ y
    → a.event_id ≢ b.event_id
differ a b x y apart e f same =
    let k = (==_iff x.event_id y.event_id).1 (
      ap (λ (z : DomainEvent). z.event_id) (sym e)
      ∙ same
      ∙ ap (λ (z : DomainEvent). z.event_id) f) in
    false≢true (sym apart ∙ k)

unique_ids : HasUniqueIds archive.store.events
unique_ids a b (inl e) (inl f) same = e ∙ sym f
unique_ids a b (inl e) (inr (inl f)) same = absurd (differ a b event foreign refl e f same)
unique_ids a b (inl e) (inr (inr (inl f))) same = absurd (differ a b event superseded refl e f same)
unique_ids a b (inr (inl e)) (inl f) same = absurd (differ a b foreign event refl e f same)
unique_ids a b (inr (inl e)) (inr (inl f)) same = e ∙ sym f
unique_ids a b (inr (inl e)) (inr (inr (inl f))) same =
    absurd (differ a b foreign superseded refl e f same)
unique_ids a b (inr (inr (inl e))) (inl f) same = absurd (differ a b superseded event refl e f same)
unique_ids a b (inr (inr (inl e))) (inr (inl f)) same =
    absurd (differ a b superseded foreign refl e f same)
unique_ids a b (inr (inr (inl e))) (inr (inr (inl f))) same = e ∙ sym f
unique_ids a b (inr (inr (inr m))) k same = absurd m
unique_ids a b (inl e) (inr (inr (inr m))) same = absurd m
unique_ids a b (inr (inl e)) (inr (inr (inr m))) same = absurd m
unique_ids a b (inr (inr (inl e))) (inr (inr (inr m))) same = absurd m

build_decision_audit_bundle_capability-events_iff_example :
    ((get_decision "d1" archive.store ≡ some bundle.decision)
      × (bundle.context_snapshot ≡ bundle.decision.input_context_snapshot)
      × (after_audit.store ≡ archive.store))
    × (MayDo day_2 ada decision_read "decision-replay" bundle.decision
        × MayDo day_2 ada audit_read "decision-audit" bundle.decision)
    × ((e : DomainEvent)
        → In e bundle.events ↔ (In e archive.store.events × IsAuditedWith bundle.decision e))
build_decision_audit_bundle_capability-events_iff_example =
    build_decision_audit_bundle_capability-events_iff hash collate number_text to_number ada "d1"
      archive after_audit bundle unique_ids audited

archive-IsConsistent : IsConsistent archive.store
unfolding lookup
archive-IsConsistent = record {
  keyed = (refl, tt);
  distinct = (refl, tt);
  no_orphans = λ k e. refl;
  scoped = λ k c e. tt;
}

red_held : In red_claim bundle.claims
unfolding with_lifecycle base_bundle replay_of audit_claims list_claims latest_claim_known_at
    claim_visible_at lookup values filter sort text_lt ClaimStatus-discrete decide includes
red_held = inl refl

build_decision_audit_bundle_capability-claims_example :
    In red_claim.id bundle.decision.input_context_snapshot.claim_ids
    × ((red_claim.tenant_id ≡ bundle.decision.tenant_id)
        × (red_claim.namespace_id ≡ bundle.decision.namespace_id))
    × (red_claim.status ≢ retracted)
    × (text_lt
          (get_or bundle.decision.input_context_snapshot.temporal.known_at
            bundle.decision.input_context_snapshot.captured_at)
          red_claim.bitemporal.recorded_at
        ≡ false)
build_decision_audit_bundle_capability-claims_example =
    build_decision_audit_bundle_capability-claims hash collate number_text to_number ada "d1"
      archive after_audit bundle red_claim collate_order archive-IsConsistent audited red_held

-- The event of the other tenant is left out.
bundle_events : bundle.events ≡ event ∷ superseded ∷ []
unfolding with_lifecycle base_bundle replay_of event_touches_decision_context
    lifecycle_event_touches_decision filter includes
bundle_events = refl
