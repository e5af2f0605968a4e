-- ===== src/Kernel/Invariants/Claims/Laws.antt =====
-- What the builders for claims accept, and what they build.
use kotowari.Base.{
  ◌<◌, String, List, some, ◌≡◌, ◌≢◌, ◌↔◌, refl, arith, ok, throw_if, length, nat_eq, get_or,
  iff_trans, ==_iff,
}
use kotowari.Kernel.Errors.{Failure}
use kotowari.Kernel.World.{World}
use kotowari.Kernel.Claim.{Claim, asserted, retracted, claim_status_eq}
use kotowari.Kernel.Events.{DomainEvent, claim_asserted, claim_retracted}
use kotowari.Kernel.Contracts.{AssertClaimInput, RetractClaimInput}
use kotowari.Kernel.Invariants.Checks.{
  Succeeds, sourced_iff, guarded_iff, IsComplete, IsFreeOfThought, IsConfidence, IsWindow,
  assert_provenance_iff, assert_no_chain_of_thought_iff, assert_confidence_iff,
  assert_bitemporal_iff,
}
use kotowari.Kernel.Invariants.Claims.{build_claim_asserted, build_claim_retracted}

-- What makes an assertion acceptable.
pub record IsAcceptable (i : AssertClaimInput) : Type 0 where
  pub sourced : IsComplete i.provenance
  pub plain : IsFreeOfThought i.extra
  pub evident : 0 < length i.evidence_ids
  pub confident : IsConfidence i.confidence
  pub bounded : IsWindow i.valid_from i.valid_to

evident_iff :
    (ids : List String) (e : Failure)
    → (throw_if (nat_eq (length ids) 0) e ≡ ok tt) ↔ (0 < length ids)
evident_iff ids e = ground arith

-- `buildClaimAsserted` returns a claim exactly if the input has a complete provenance, no hidden
-- chain of thought, some evidence, a confidence between 0 and 1 and a window that ends after it
-- begins.
pub build_claim_asserted_iff :
    (i : AssertClaimInput) (w : World) → Succeeds (build_claim_asserted i w).0 ↔ IsAcceptable i
unfolding build_claim_asserted
build_claim_asserted_iff i w =
    iff_trans
      (sourced_iff i.provenance _ w (λ p.
        guarded_iff _ _ w (assert_no_chain_of_thought_iff i.extra) (
          guarded_iff _ _ w (evident_iff i.evidence_ids _) (
            guarded_iff _ _ w (assert_confidence_iff i.confidence) (
              guarded_iff _ _ w (assert_bitemporal_iff i.valid_from i.valid_to)
                (λ _. tt, λ _. (_, refl)))))))
      (
        λ h. record {
          sourced = h.0;
          plain = h.1.0;
          evident = h.1.1.0;
          confident = h.1.1.1.0;
          bounded = h.1.1.1.1.0;
        },
        λ k. (k.sourced, (k.plain, (k.evident, (k.confident, (k.bounded, tt))))),
      )

-- What is built is knowledge: it has evidence and a complete provenance, its confidence lies between
-- 0 and 1 and its window is not empty. It is the input's statement, recorded at the instant of its
-- event, which names it, and its status is `asserted` unless the input gives one.
record IsRecordOf (i : AssertClaimInput) (c : Claim) (e : DomainEvent) : Type 0 where
  pub acceptable : IsAcceptable i
  pub sourced : i.provenance ≡ some c.provenance
  pub scope : c.metadata ≡ i.metadata
  pub evidence : c.evidence_ids ≡ i.evidence_ids
  pub confidence : c.confidence ≡ i.confidence
  pub status : c.status ≡ get_or i.status asserted
  pub window : (c.bitemporal.valid_from ≡ i.valid_from) × (c.bitemporal.valid_to ≡ i.valid_to)
  pub statement : (c.subject ≡ i.subject) × (c.predicate ≡ i.predicate) × (c.object ≡ i.object)
  pub event : e.body ≡ claim_asserted c.id
  pub tenant : e.tenant_id ≡ c.tenant_id
  pub instant : e.occurred_at ≡ c.bitemporal.recorded_at
  pub source : e.provenance ≡ c.provenance

-- A claim that `buildClaimAsserted` returns comes from an acceptable input and keeps its scope, its
-- statement, its evidence, its confidence, its window and its provenance; its status is the input's
-- or `asserted`; and its event names the claim, its tenant, its provenance and the instant of
-- recording.
build_claim_asserted-IsRecordOf :
    (i : AssertClaimInput) (w : World) (c : Claim) (e : DomainEvent)
    → (build_claim_asserted i w).0 ≡ ok (c, e)
    → IsRecordOf i c e
unfolding build_claim_asserted
build_claim_asserted-IsRecordOf i w c e h = record {
  acceptable = (build_claim_asserted_iff i w).0 ((c, e), h);
  sourced = ((assert_provenance_iff i.provenance c.provenance).0 (ground arith)).0;
  scope = ground arith;
  evidence = ground arith;
  confidence = ground arith;
  status = ground arith;
  window = ground arith;
  statement = ground arith;
  event = ground arith;
  tenant = ground arith;
  instant = ground arith;
  source = ground arith;
}

-- A retraction that returns was made with a complete provenance on a claim that was not retracted;
-- it changes the claim's status, its instant of recording and its provenance, and nothing else; and
-- its event names the claim.
build_claim_retracted-retracted :
    (i : RetractClaimInput) (existing c : Claim) (w : World) (e : DomainEvent)
    → (build_claim_retracted i existing w).0 ≡ ok (c, e)
    → (existing.status ≢ retracted)
      × IsComplete i.provenance
      × (e.body ≡ claim_retracted existing.id)
      × (c ≡ record existing {
        status = retracted;
        bitemporal = record existing.bitemporal { recorded_at = e.occurred_at };
        provenance = e.provenance;
      })
unfolding build_claim_retracted
build_claim_retracted-retracted i existing c w e h = (
  ground (arith, ==_iff existing.status retracted),
  ((assert_provenance_iff i.provenance c.provenance).0 (ground arith)).1,
  ground arith,
  ground arith,
)
