-- ===== src/Kernel/Provenance.antt =====
-- packages/kernel/src/provenance.ts.
use Prim.Native.String
use kotowari.Base.{
  String, List, [], ◌∷◌, Option, none, some, Bool, true, false, Result, ok, err, Dict, lookup,
  string_eq, if◌then◌else◌, any, get_or,
}
use kotowari.Base.Text.{is_blank}
use kotowari.Base.Exec.{Exec, ◌>>=◌, pure}
use kotowari.Kernel.Errors.{
  Failure, kernel_error, provenance_required, provenance_invalid, chain_of_thought_rejected,
}
use kotowari.Kernel.World.{World, now_iso}

pub record Provenance : Type 0 where
  pub source : String
  pub source_version : Option String
  pub actor : String
  pub process : String
  pub model : Option String
  pub prompt_version : Option String
  pub extractor_version : Option String
  pub timestamp : String
  pub parent_ids : List String

abbrev pub required_fields : Provenance → List String
required_fields p = p.source ∷ p.actor ∷ p.process ∷ p.timestamp ∷ []

unfoldable pub compact_provenance :
    String → String → String → Option (List String) → Exec World Failure Provenance
unfolding now_iso
compact_provenance source actor process parent_ids = do
  timestamp ← now_iso
  pure (record {
    source = source;
    source_version = none;
    actor = actor;
    process = process;
    model = none;
    prompt_version = none;
    extractor_version = none;
    timestamp = timestamp;
    parent_ids = get_or parent_ids [];
  })

-- Returns the provenance that the assertion has narrowed.
unfoldable pub assert_provenance : Option Provenance → Result Failure Provenance
assert_provenance none =
    err (kernel_error provenance_required "ADR-0007 rejects a semantic write without provenance")
assert_provenance (some p) =
    if any is_blank (required_fields p)
    then err (
        kernel_error provenance_invalid "Provenance requires source, actor, process, and timestamp")
    else ok p

abbrev pub forbidden_cot_keys : List String
forbidden_cot_keys =
    "chainOfThought" ∷ "hiddenCoT" ∷ "privateReasoning" ∷ "hiddenChainOfThought" ∷ []

-- The properties of an object beyond those that its type names, each with its value as a text;
-- `none` is the value `undefined`.
abbrev pub Payload : Type 0
Payload = Dict String (Option String)

-- `key in payload && payload[key] !== undefined`
abbrev pub holds_value : Option (Option String) → Bool
holds_value (some (some v)) = true
holds_value _ = false

-- The loop of `assertNoChainOfThought` over the keys.
unfoldable pub reject_keys : List String → Payload → Result Failure (Unit {0})
reject_keys [] payload = ok tt
reject_keys (key ∷ keys) payload =
    if holds_value (lookup key payload)
    then err (
        kernel_error chain_of_thought_rejected
          (String.◌++◌ "ADR-0008 rejects hidden chain-of-thought field " key))
    else reject_keys keys payload

unfoldable pub assert_no_chain_of_thought : Payload → Result Failure (Unit {0})
unfolding reject_keys
assert_no_chain_of_thought payload = reject_keys forbidden_cot_keys payload
