-- ===== src/Tests/Merges.antt =====
-- The properties of redirects and of canonical entities at a merge of two entities and its reversal.
use kotowari.Base.{
  String, [], ◌∷◌, ◌++◌, none, some, false, ◌≡◌, ◌≢◌, ◌↔◌, refl, ok, err, Dict, lookup, suc, Result,
  length, includes, filter, string_eq,
}
use kotowari.Base.Sorting.{sort}
use kotowari.Kernel.Errors.{Failure}
use kotowari.Kernel.Events.{DomainEvent, entity_merged, entity_merge_reverted}
use kotowari.Knowledge.Merges.{
  follow, follow_redirects, cycle_error, reverted_merges, canonical_entity_id_from_events,
  active_entity_merge_events, redirects_of, redirects_from,
}
use kotowari.Knowledge.Merges.Follow.{
  LeadsTo, LeadsBack, follow-terminates, follow_redirects-LeadsTo_iff, follow_redirects-LeadsBack,
}
use kotowari.Knowledge.Merges.Canonical.{
  canonical_entity_id_from_events-merge, canonical_entity_id_from_events-revert,
}
use kotowari.Tests.Data.{day_1, provenance}
use kotowari.Tests.Store.{collate, collate_order}

-- Two redirects that lead back to each other.
abbrev ring : Dict String String
ring = ("a", "b") ∷ ("b", "a") ∷ []

follow-terminates_example :
    (r : Result Failure String) × (follow (suc (length ring)) ring "a" [] ≡ some r)
follow-terminates_example = follow-terminates ring "a"

-- Two redirects in a row.
abbrev chain : Dict String String
chain = ("a", "b") ∷ ("b", "c") ∷ []

follow_redirects-LeadsTo_iff_example : (follow_redirects chain "a" ≡ ok "c") ↔ LeadsTo chain "a" "c"
follow_redirects-LeadsTo_iff_example = follow_redirects-LeadsTo_iff chain "a" "c"

ring_fails : follow_redirects ring "a" ≡ err (cycle_error "a")
unfolding follow_redirects follow lookup includes
ring_fails = refl

follow_redirects-LeadsBack_example :
    (at : String) × (cycle_error "a" ≡ cycle_error at) × LeadsBack ring at
follow_redirects-LeadsBack_example =
    follow_redirects-LeadsBack ring "a" (cycle_error "a") ring_fails

-- The merge of the one into the other, and its reversal.
abbrev event_of : String → DomainEvent
event_of id = record {
  event_id = id;
  tenant_id = "acme";
  provenance = provenance;
  occurred_at = day_1;
  body = entity_merged "berlin" ("berlin-2" ∷ []) none none;
}

abbrev pub merge : DomainEvent
merge = event_of "m1"

abbrev reversal : DomainEvent
reversal = record (event_of "m2") {
  body = entity_merge_reverted "m1" "berlin" ("berlin-2" ∷ []) "not the same";
}

alone : (id : String) → canonical_entity_id_from_events collate [] id ≡ ok id
unfolding canonical_entity_id_from_events follow_redirects follow redirects_of
    active_entity_merge_events redirects_from reverted_merges filter sort lookup
alone id = refl

apart : ◌≢◌ {A = String} "berlin" "berlin-2"
apart h = cc

not_reverted : includes (reverted_merges []) "m1" ≡ false
unfolding includes reverted_merges
not_reverted = refl

canonical_entity_id_from_events-merge_example :
    canonical_entity_id_from_events collate ([] ++ merge ∷ []) "berlin-2" ≡ ok "berlin"
canonical_entity_id_from_events-merge_example =
    canonical_entity_id_from_events-merge collate [] merge "berlin" "berlin-2" "berlin-2" "berlin-2"
      none none collate_order refl not_reverted apart (alone "berlin") (alone "berlin-2")
      (alone "berlin-2")

canonical_entity_id_from_events-revert_example :
    canonical_entity_id_from_events collate ([] ++ (merge ∷ ([] ++ reversal ∷ []))) "berlin-2"
    ≡ canonical_entity_id_from_events collate ([] ++ []) "berlin-2"
canonical_entity_id_from_events-revert_example =
    canonical_entity_id_from_events-revert collate [] [] merge reversal "berlin" ("berlin-2" ∷ [])
      none none "berlin" ("berlin-2" ∷ []) "not the same" "berlin-2" refl refl (λ e i. absurd i)
