-- ===== src/Kernel/Invariants.antt =====
-- packages/kernel/src/invariants.ts: the builders of semantic writes, one child for each part, and
-- the checks that they share.
pub mod Checks
pub mod Claims
pub mod Entities
pub mod Policies
pub mod Conflicts
pub mod Decisions
use kotowari.Base.{
  String, Option, none, some, Bool, ◌||◌, Result, ok, err, throw_if, absent_or, is_some, not,
}
use kotowari.Base.Number.{Number, num_lt, is_nan, integer}
use kotowari.Base.Text.{text_le}
use kotowari.Kernel.Errors.{
  Failure, kernel_error, invalid_confidence, bitemporal_invalid, missing_context_snapshot,
}
use kotowari.Kernel.Context.{ContextSnapshot}

unfoldable pub assert_confidence : Number → Result Failure (Unit {0})
assert_confidence confidence =
    throw_if (num_lt confidence (integer 0) || num_lt (integer 1) confidence || is_nan confidence)
      (kernel_error invalid_confidence "Confidence must be between 0 and 1")

-- `validTo !== undefined && validTo <= validFrom`
abbrev pub ends_too_early : String → Option String → Bool
ends_too_early valid_from valid_to = not (absent_or valid_to (λ end. not (text_le end valid_from)))

unfoldable pub assert_bitemporal : String → Option String → Result Failure (Unit {0})
assert_bitemporal valid_from valid_to =
    throw_if (ends_too_early valid_from valid_to)
      (kernel_error bitemporal_invalid "validTo must be greater than validFrom")

unfoldable pub require_context_snapshot : Option ContextSnapshot → Result Failure ContextSnapshot
require_context_snapshot none =
    err (kernel_error missing_context_snapshot "ADR-0008 requires a context snapshot on a decision")
require_context_snapshot (some snapshot) = ok snapshot
