-- ===== src/Kernel/Claim.antt =====
-- packages/kernel/src/claim.ts: bitemporal claims.
pub mod Laws
use Prim.Native.String
use kotowari.Base.{
  String, List, Option, none, some, Bool, true, false, not, ◌&&◌, ◌||◌, Eq, eq_of, string_eq, ◌==◌,
  option_eq, absent_or, get_or, if◌then◌else◌,
}
use kotowari.Base.Text.{text_lt, text_le}
use kotowari.Base.Number.{Number}
use kotowari.Kernel.Metadata.{ScopedMetadata, TemporalPerspective}
use kotowari.Kernel.Provenance.{Provenance}

pub data ClaimStatus : Type 0 where
  asserted retracted superseded conflicted : ClaimStatus

unfoldable pub ClaimStatus-discrete : Discrete ClaimStatus
ClaimStatus-discrete = hlevel

instance abbrev pub claim_status_eq : Eq ClaimStatus
claim_status_eq = eq_of ClaimStatus-discrete

pub data ClaimObject : Type 0 where
  entity : (entity_id : String) → ClaimObject
  literal : (value : String) (datatype : Option String) → ClaimObject

pub record Bitemporal : Type 0 where
  pub valid_from : String
  pub valid_to : Option String
  pub recorded_at : String
  pub asserted_at : String

pub record Claim : Type 0 where
  pub metadata : ScopedMetadata
  pub open metadata use *
  pub id : String
  pub subject : String
  pub predicate : String
  pub object : ClaimObject
  pub bitemporal : Bitemporal
  pub confidence : Number
  pub status : ClaimStatus
  pub evidence_ids : List String
  pub provenance : Provenance
  pub extractor : Option String
  pub model : Option String
  pub extraction_version : Option String

unfoldable pub claim_objects_equal : ClaimObject → ClaimObject → Bool
claim_objects_equal (entity a) (entity b) = a == b
claim_objects_equal (literal v s) (literal w t) = v == w && option_eq s t
claim_objects_equal (entity a) (literal w t) = false
claim_objects_equal (literal v s) (entity b) = false

abbrev pub object_text : ClaimObject → String
object_text (literal value datatype) = value
object_text (entity entity_id) = entity_id

unfoldable pub claim_text : Claim → String
claim_text claim = String.◌++◌ claim.predicate (String.◌++◌ " " (object_text claim.object))

unfoldable pub claim_valid_at : Claim → Option String → Bool
claim_valid_at claim none = true
claim_valid_at claim (some as_of) =
    text_le claim.bitemporal.valid_from as_of
    && absent_or claim.bitemporal.valid_to (λ valid_to. text_lt as_of valid_to)

unfoldable pub claim_known_at : Claim → Option String → Bool
claim_known_at claim known_at = absent_or known_at (λ at. text_le claim.bitemporal.recorded_at at)

abbrev pub is_retracted : ClaimStatus → Bool
is_retracted status = status == retracted

unfoldable pub claim_visible_at : Claim → TemporalPerspective → Bool
unfolding claim_valid_at claim_known_at
claim_visible_at claim temporal =
    if is_retracted claim.status
    then false
    else claim_valid_at claim temporal.valid_at && claim_known_at claim temporal.known_at

abbrev pub max_timestamp : String
max_timestamp = "9999-12-31T23:59:59.999Z"

unfoldable pub validity_overlaps : Bitemporal → Bitemporal → Bool
validity_overlaps left right =
    let left_end = get_or left.valid_to max_timestamp in
    let right_end = get_or right.valid_to max_timestamp in
    text_lt left.valid_from right_end && text_lt right.valid_from left_end

unfoldable pub detect_claim_overlap : Claim → Claim → Bool
detect_claim_overlap left right =
    if left.id == right.id
    then false
    else if is_retracted left.status || is_retracted right.status
    then false
    else if not (left.subject == right.subject) || not (left.predicate == right.predicate)
    then false
    else if claim_objects_equal left.object right.object
    then false
    else validity_overlaps left.bitemporal right.bitemporal
