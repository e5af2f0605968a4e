-- ===== src/Kernel/Invariants/Claims.antt =====
-- The builders for claims and evidence of packages/kernel/src/invariants.ts.
pub mod Laws
use kotowari.Base.{
  ℕ, String, List, [], Option, none, some, Bool, Result, ok, err, throw_if, get_or, nat_eq, length,
  string_eq, ◌==◌,
}
use kotowari.Base.Exec.{Exec, ◌>>=◌, ◌>>◌, pure, lift}
use kotowari.Kernel.Errors.{Failure, kernel_error, evidence_required, invalid_status_transition}
use kotowari.Kernel.World.{World, new_id, now_iso}
use kotowari.Kernel.Provenance.{assert_provenance, assert_no_chain_of_thought}
use kotowari.Kernel.Claim.{Claim, asserted, retracted, claim_status_eq, is_retracted}
use kotowari.Kernel.Entity.{Evidence}
use kotowari.Kernel.Events.{DomainEvent, claim_asserted, claim_retracted, evidence_inserted}
use kotowari.Kernel.Contracts.{AssertClaimInput, RetractClaimInput, InsertEvidenceInput}
use kotowari.Kernel.Invariants.{assert_confidence, assert_bitemporal}

unfoldable pub build_claim_asserted : AssertClaimInput → Exec World Failure (Claim × DomainEvent)
unfolding new_id now_iso
build_claim_asserted input = do
  provenance ← lift (assert_provenance input.provenance)
  lift (assert_no_chain_of_thought input.extra)
  lift (
      throw_if (nat_eq (length input.evidence_ids) 0)
        (kernel_error evidence_required "A claim without evidence is not knowledge"))
  lift (assert_confidence input.confidence)
  lift (assert_bitemporal input.valid_from input.valid_to)
  recorded_at ← now_iso
  id ← new_id
  event_id ← new_id
  pure (
    record {
      metadata = input.metadata;
      id = id;
      subject = input.subject;
      predicate = input.predicate;
      object = input.object;
      bitemporal = record {
        valid_from = input.valid_from;
        valid_to = input.valid_to;
        recorded_at = recorded_at;
        asserted_at = input.asserted_at;
      };
      confidence = input.confidence;
      status = get_or input.status asserted;
      evidence_ids = input.evidence_ids;
      provenance = provenance;
      extractor = input.extractor;
      model = input.model;
      extraction_version = input.extraction_version;
    },
    record {
      event_id = event_id;
      tenant_id = input.metadata.tenant_id;
      provenance = provenance;
      occurred_at = recorded_at;
      body = claim_asserted id;
    },
  )

unfoldable pub build_claim_retracted :
    RetractClaimInput → Claim → Exec World Failure (Claim × DomainEvent)
unfolding new_id now_iso
build_claim_retracted input existing = do
  provenance ← lift (assert_provenance input.provenance)
  lift (
      throw_if (is_retracted existing.status)
        (kernel_error invalid_status_transition "Claim is already retracted"))
  occurred_at ← now_iso
  event_id ← new_id
  pure (
    record existing {
      status = retracted;
      bitemporal = record existing.bitemporal { recorded_at = occurred_at };
      provenance = provenance;
    },
    record {
      event_id = event_id;
      tenant_id = existing.tenant_id;
      provenance = provenance;
      occurred_at = occurred_at;
      body = claim_retracted existing.id;
    },
  )

unfoldable pub build_evidence_inserted :
    InsertEvidenceInput → Exec World Failure (Evidence × DomainEvent)
unfolding new_id now_iso
build_evidence_inserted input = do
  provenance ← lift (assert_provenance input.provenance)
  recorded_at ← now_iso
  id ← new_id
  event_id ← new_id
  pure (
    record {
      metadata = input.metadata;
      id = id;
      uri = input.uri;
      content_hash = input.content_hash;
      mime_type = input.mime_type;
      title = input.title;
      recorded_at = recorded_at;
      provenance = provenance;
    },
    record {
      event_id = event_id;
      tenant_id = input.metadata.tenant_id;
      provenance = provenance;
      occurred_at = recorded_at;
      body = evidence_inserted id;
    },
  )
