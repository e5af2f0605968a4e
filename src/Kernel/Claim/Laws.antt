-- ===== src/Kernel/Claim/Laws.antt =====
-- When two claims contradict each other, and when a claim is visible (packages/kernel/src/claim.ts).
use kotowari.Base.{
  String, Option, none, some, Bool, true, false, ◌&&◌, ◌≡◌, ◌≢◌, ◌↔◌, refl, arith, string_eq, ◌==◌,
  ==_iff, ==_comm, option_eq_iff, absent_or, get_or, Bool-cases, inl, inr, if◌then◌else◌,
}
use kotowari.Base.Text.{text_lt, text_le, text_lt_irrefl, text_lt_asym, text_le_lt_trans}
use kotowari.Kernel.Metadata.{TemporalPerspective}
use kotowari.Kernel.Claim.{
  retracted, claim_status_eq, ClaimObject, entity, literal, Bitemporal, Claim, claim_objects_equal,
  claim_valid_at, claim_known_at, claim_visible_at, max_timestamp, validity_overlaps,
  detect_claim_overlap,
}

claim_objects_equal_iff : (a b : ClaimObject) → (claim_objects_equal a b ≡ true) ↔ (a ≡ b)
unfolding claim_objects_equal
claim_objects_equal_iff (entity a) (entity b) = ground (arith, ==_iff a b)
claim_objects_equal_iff (literal v s) (literal w t) = ground (arith, ==_iff v w, option_eq_iff s t)
claim_objects_equal_iff (entity a) (literal w t) = ground arith
claim_objects_equal_iff (literal v s) (entity b) = ground arith

-- The half-open window in which a fact holds; without an end it ends with the year 9999.
abbrev pub InWindow : Bitemporal → String → Type 0
InWindow b t =
    (text_lt t b.valid_from ≡ false) × (text_lt t (get_or b.valid_to max_timestamp) ≡ true)

-- Two windows that are not empty overlap exactly when an instant lies in both.
validity_overlaps_iff :
    (l r : Bitemporal)
    → text_lt l.valid_from (get_or l.valid_to max_timestamp) ≡ true
    → text_lt r.valid_from (get_or r.valid_to max_timestamp) ≡ true
    → (validity_overlaps l r ≡ true) ↔ ((t : String) × InWindow l t × InWindow r t)
unfolding validity_overlaps
validity_overlaps_iff l r full_l full_r = (
  λ h. elim (Bool-cases (text_lt l.valid_from r.valid_from)) [
    | inl first ↦ (
      r.valid_from,
      (text_lt_asym l.valid_from r.valid_from first, ground arith),
      (text_lt_irrefl r.valid_from, full_r),
    )
    | inr second ↦ (l.valid_from, (text_lt_irrefl l.valid_from, full_l), (second, ground arith))
  ],
  λ (t, in_l, in_r).
      let one = text_le_lt_trans l.valid_from t (get_or r.valid_to max_timestamp) in_l.0 in_r.1 in
      let two = text_le_lt_trans r.valid_from t (get_or l.valid_to max_timestamp) in_r.0 in_l.1 in
      ground (arith, one, two),
)

-- Two claims that cannot both hold at some instant.
pub record Contradicts (l r : Claim) : Type 0 where
  pub distinct : l.id ≢ r.id
  pub left_stands : l.status ≢ retracted
  pub right_stands : r.status ≢ retracted
  pub subject : l.subject ≡ r.subject
  pub predicate : l.predicate ≡ r.predicate
  pub object : l.object ≢ r.object
  pub instant : String
  pub in_left : InWindow l.bitemporal instant
  pub in_right : InWindow r.bitemporal instant

detect_parts :
    (l r : Claim)
    → (detect_claim_overlap l r ≡ true) ↔ (
        (l.id ≢ r.id)
        × (l.status ≢ retracted)
        × (r.status ≢ retracted)
        × (l.subject ≡ r.subject)
        × (l.predicate ≡ r.predicate)
        × (l.object ≢ r.object)
        × (validity_overlaps l.bitemporal r.bitemporal ≡ true))
unfolding detect_claim_overlap
detect_parts l r = ground (
  arith,
  ==_iff l.id r.id,
  ==_iff l.status retracted,
  ==_iff r.status retracted,
  ==_iff l.subject r.subject,
  ==_iff l.predicate r.predicate,
  claim_objects_equal_iff l.object r.object,
)

-- For claims whose windows are not empty, `detectClaimOverlap` holds exactly if the two are
-- different claims, neither retracted, that say different objects of one subject and predicate, and
-- some instant lies in both windows; a window without an end reaches to the last instant of the
-- year 9999.
detect_claim_overlap_iff :
    (l r : Claim)
    → text_lt l.bitemporal.valid_from (get_or l.bitemporal.valid_to max_timestamp) ≡ true
    → text_lt r.bitemporal.valid_from (get_or r.bitemporal.valid_to max_timestamp) ≡ true
    → (detect_claim_overlap l r ≡ true) ↔ Contradicts l r
detect_claim_overlap_iff l r full_l full_r =
    let window = validity_overlaps_iff l.bitemporal r.bitemporal full_l full_r in
    (
      λ h.
          let parts = (detect_parts l r).0 h in
          let (t, in_l, in_r) = window.0 parts.6 in
          record {
            distinct = parts.0;
            left_stands = parts.1;
            right_stands = parts.2;
            subject = parts.3;
            predicate = parts.4;
            object = parts.5;
            instant = t;
            in_left = in_l;
            in_right = in_r;
          },
      λ c. (detect_parts l r).1 (
        c.distinct,
        c.left_stands,
        c.right_stands,
        c.subject,
        c.predicate,
        c.object,
        window.1 (c.instant, c.in_left, c.in_right),
      ),
    )

claim_objects_equal_comm : (a b : ClaimObject) → claim_objects_equal a b ≡ claim_objects_equal b a
unfolding claim_objects_equal
claim_objects_equal_comm (entity a) (entity b) = ==_comm a b
claim_objects_equal_comm (literal v none) (literal w none) = ground (arith, ==_comm v w)
claim_objects_equal_comm (literal v (some s)) (literal w none) = ground arith
claim_objects_equal_comm (literal v none) (literal w (some t)) = ground arith
claim_objects_equal_comm (literal v (some s)) (literal w (some t)) =
    ground (arith, ==_comm v w, ==_comm s t)
claim_objects_equal_comm (entity a) (literal w t) = refl
claim_objects_equal_comm (literal v s) (entity b) = refl

-- Whether two claims contradict does not depend on their order.
detect_claim_overlap_comm : (l r : Claim) → detect_claim_overlap l r ≡ detect_claim_overlap r l
unfolding detect_claim_overlap validity_overlaps
detect_claim_overlap_comm l r = ground (
  arith,
  ==_comm l.id r.id,
  ==_comm l.subject r.subject,
  ==_comm l.predicate r.predicate,
  claim_objects_equal_comm l.object r.object,
)

-- Exactly the claims that are not retracted, valid at the instant asked for (in the half-open
-- window) and recorded by the knowledge time asked for are visible.
pub record IsVisible (c : Claim) (t : TemporalPerspective) : Type 0 where
  pub stands : c.status ≢ retracted
  pub begun : (at : String) → t.valid_at ≡ some at → text_lt at c.bitemporal.valid_from ≡ false
  pub not_over :
      (at end : String)
      → t.valid_at ≡ some at
      → c.bitemporal.valid_to ≡ some end
      → text_lt at end ≡ true
  pub known : (at : String) → t.known_at ≡ some at → text_lt at c.bitemporal.recorded_at ≡ false

and_right : (x y : Bool) → (x && y) ≡ true → y ≡ true
and_right x y h = ground arith

and_intro : (x y : Bool) → x ≡ true → y ≡ true → (x && y) ≡ true
and_intro x y h k = ground arith

visible_parts :
    (x y z : Bool)
    → ((if x then false else y && z) ≡ true) ↔ ((x ≡ false) × (y ≡ true) × (z ≡ true))
visible_parts x y z = ground arith

absent_or_iff :
    (o : Option String) (p : String → Bool)
    → (absent_or o p ≡ true) ↔ ((x : String) → o ≡ some x → p x ≡ true)
absent_or_iff none p = (λ _ x e. cc, λ _. refl)
absent_or_iff (some x) p = (λ h y e. ground arith, λ h. h x refl)

abbrev IsValidAt : Claim → Option String → Type 0
IsValidAt c o =
    ((at : String) → o ≡ some at → text_lt at c.bitemporal.valid_from ≡ false)
    × ((at end : String) → o ≡ some at → c.bitemporal.valid_to ≡ some end → text_lt at end ≡ true)

claim_valid_at_iff : (c : Claim) (o : Option String) → (claim_valid_at c o ≡ true) ↔ IsValidAt c o
unfolding claim_valid_at
claim_valid_at_iff c none = (λ _. (λ at e. cc, λ at end e _. cc), λ _. refl)
claim_valid_at_iff c (some at) =
    let ends = absent_or_iff c.bitemporal.valid_to (λ end. text_lt at end) in
    (
      λ h.
          let over =
            and_right (text_le c.bitemporal.valid_from at)
              (absent_or c.bitemporal.valid_to (λ end. text_lt at end)) h in
          (λ at' e. ground arith, λ at' end e f. ground (arith, ends.0 over end f)),
      λ k. and_intro _ _ (ground (arith, k.0 at refl)) (ends.1 (λ end f. k.1 at end refl f)),
    )

-- A claim is visible at a perspective exactly if it is not retracted, an instant of validity that
-- is given lies in its window, which holds its start and not its end, and it was recorded by the
-- instant of knowledge that is given.
pub claim_visible_at_iff :
    (c : Claim) (t : TemporalPerspective) → (claim_visible_at c t ≡ true) ↔ IsVisible c t
unfolding claim_visible_at claim_known_at
claim_visible_at_iff c t =
    let valid = claim_valid_at_iff c t.valid_at in
    let known = absent_or_iff t.known_at (λ at. text_le c.bitemporal.recorded_at at) in
    let parts =
      visible_parts (c.status == retracted) (claim_valid_at c t.valid_at)
        (absent_or t.known_at (λ at. text_le c.bitemporal.recorded_at at)) in
    let stands = ==_iff c.status retracted in
    (
      λ h. record {
        stands = λ e. cc ((parts.0 h).0, stands.1 e);
        begun = (valid.0 (parts.0 h).1).0;
        not_over = (valid.0 (parts.0 h).1).1;
        known = λ at e. ground (arith, known.0 (parts.0 h).2 at e);
      },
      λ k. parts.1 (
        ground (arith, stands, k.stands),
        valid.1 (k.begun, k.not_over),
        known.1 (λ at e. ground (arith, k.known at e)),
      ),
    )
