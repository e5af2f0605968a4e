-- ===== src/Kernel/Ids.antt =====
-- packages/kernel/src/branded-ids.ts: an identifier is a text that is not blank.
use Prim.Native.String
use kotowari.Base.{String, Bool, Result, ok, err, not, if◌then◌else◌}
use kotowari.Base.Text.{is_blank}
use kotowari.Kernel.Errors.{Failure, kernel_error, invalid_id}

unfoldable pub as_branded : String → String → Result Failure String
as_branded value brand =
    if is_blank value
    then err (kernel_error invalid_id (String.◌++◌ brand " must not be empty"))
    else ok value

unfoldable pub as_claim_id : String → Result Failure String
unfolding as_branded
as_claim_id value = as_branded value "ClaimId"

unfoldable pub as_evidence_id : String → Result Failure String
unfolding as_branded
as_evidence_id value = as_branded value "EvidenceId"

unfoldable pub as_decision_id : String → Result Failure String
unfolding as_branded
as_decision_id value = as_branded value "DecisionId"

unfoldable pub as_policy_version_id : String → Result Failure String
unfolding as_branded
as_policy_version_id value = as_branded value "PolicyVersionId"

unfoldable pub as_conflict_id : String → Result Failure String
unfolding as_branded
as_conflict_id value = as_branded value "ConflictId"

unfoldable pub as_event_id : String → Result Failure String
unfolding as_branded
as_event_id value = as_branded value "EventId"

unfoldable pub as_entity_id : String → Result Failure String
unfolding as_branded
as_entity_id value = as_branded value "EntityId"

-- `asIsoTimestamp`; `parses` says whether `Date.parse` gives a number for a text.
unfoldable pub as_iso_timestamp : (String → Bool) → String → Result Failure String
as_iso_timestamp parses value =
    if not (parses value)
    then err (kernel_error invalid_id "IsoTimestamp must be a valid ISO-8601 instant")
    else ok value
