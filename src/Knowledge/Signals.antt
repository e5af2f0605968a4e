-- ===== src/Knowledge/Signals.antt =====
-- The identity signals of packages/capability-knowledge/src/entity-resolution.ts: what speaks for two
-- entities being one.
use Prim.Native.String
use kotowari.Base.{
  ℕ, String, List, [], ◌∷◌, ◌++◌, map, Option, none, some, Bool, false, not, ◌&&◌, ◌||◌, string_eq,
  ◌==◌, nat_eq, leb, length, get_or, filter, includes, set_of, Dict, lookup, insert, values,
  if◌then◌else◌,
}
use kotowari.Base.Number.{Number, pos, integer, num_lt, num_le}
use kotowari.Base.Sorting.{sort, then_by}
use kotowari.Base.Text.{trim, is_space, replace_runs, split_spaces, includes_text, units}
use kotowari.Kernel.Entity.{
  EntityExternalId, Entity, EntityResolutionSignal, SignalKind, external_id_exact, label_exact,
  alias_exact, strong_token_overlap, partial_token_overlap, substring,
}

-- What Unicode's tables and floating point give: `normalize('NFKC')`, `toLocaleLowerCase`,
-- `/[\p{L}\p{N}]/u`, the quotient of two counts, and `toFixed(2)`.
pub record Platform : Type 0 where
  pub nfkc : String → String
  pub lower_case : String → String
  pub is_alphanumeric : ℕ → Bool
  pub ratio : ℕ → ℕ → Number
  pub to_fixed : Number → String

pub record CandidateQuery : Type 0 where
  pub labels : List String
  pub external_ids : List EntityExternalId

-- Where a name stands.
pub data NameSource : Type 0 where
  label alias : NameSource

abbrev pub source_text : NameSource → String
source_text label = "label"
source_text alias = "alias"

unfoldable pub signal_kind_text : SignalKind → String
signal_kind_text external_id_exact = "external-id-exact"
signal_kind_text label_exact = "label-exact"
signal_kind_text alias_exact = "alias-exact"
signal_kind_text strong_token_overlap = "strong-token-overlap"
signal_kind_text partial_token_overlap = "partial-token-overlap"
signal_kind_text substring = "substring"

-- The signal of two names that are one when normalized: the scores 1 and 0.92.
abbrev pub exact_match : NameSource → String → EntityResolutionSignal
exact_match label candidate = record {
  kind = label_exact;
  score = integer 1;
  source = "label";
  candidate = candidate;
  detail = "label: normalized exact match";
}
exact_match alias candidate = record {
  kind = alias_exact;
  score = pos 8286623314361713 9007199254740991;
  source = "alias";
  candidate = candidate;
  detail = "alias: normalized exact match";
}

abbrev pub weaker_match :
    SignalKind → Number → NameSource → String → String → EntityResolutionSignal
weaker_match kind score source candidate detail = record {
  kind = kind;
  score = score;
  source = source_text source;
  candidate = candidate;
  detail = String.◌++◌ (source_text source) detail;
}

module _ (platform : Platform) where
  unfoldable pub normalize_entity_name : String → String
  unfolding replace_runs trim
  normalize_entity_name value = replace_runs is_space false (
      trim (
        replace_runs (λ c. not (platform.is_alphanumeric c)) false
          (platform.lower_case (platform.nfkc value))))

  unfoldable pub normalize_external_system : String → String
  unfolding trim
  normalize_external_system value = trim (platform.lower_case (platform.nfkc value))

  unfoldable pub normalize_external_value : String → String
  unfolding trim
  normalize_external_value value = trim (platform.nfkc value)

  unfoldable pub tokens : String → List String
  unfolding split_spaces
  tokens value =
      set_of (filter (λ word. not (word == "")) (split_spaces (normalize_entity_name value)))

  unfoldable pub jaccard : List String → List String → Number
  jaccard left right =
      if nat_eq (length left) 0 || nat_eq (length right) 0
      then integer 0
      else platform.ratio (length (filter (λ item. includes right item) left))
          (length (set_of (left ++ right)))

  -- `(${overlap.toFixed(2)})`
  abbrev pub with_overlap : String → Number → String
  with_overlap text overlap = String.◌++◌ text (String.◌++◌ (platform.to_fixed overlap) ")")

  -- What names that differ when normalized have in common: 0.8, 0.82, 0.5, 0.68 and 0.58.
  unfoldable pub overlap_signal :
      String → String → NameSource → String → Number → Option EntityResolutionSignal
  unfolding includes_text
  overlap_signal query normalized source candidate overlap =
      if num_le (pos 3602879701896397 4503599627370495) overlap
      then some (
          weaker_match strong_token_overlap (pos 7385903388887613 9007199254740991) source candidate
            (with_overlap ": strong token overlap (" overlap))
      else if num_le (pos 1 1) overlap
      then some (
          weaker_match partial_token_overlap (pos 6124895493223875 9007199254740991) source
            candidate (with_overlap ": partial token overlap (" overlap))
      else if leb 3 (length (units query))
          && (includes_text normalized query || includes_text query normalized)
      then some (
          weaker_match substring (pos 5224175567749775 9007199254740991) source candidate
            ": normalized substring match")
      else none

  unfoldable pub lexical_signal : String → String → NameSource → Option EntityResolutionSignal
  lexical_signal query candidate source =
      let normalized_query = normalize_entity_name query in
      let normalized_candidate = normalize_entity_name candidate in
      if (normalized_query == "") || (normalized_candidate == "")
      then none
      else if normalized_query == normalized_candidate
      then some (exact_match source candidate)
      else overlap_signal normalized_query normalized_candidate source candidate
          (jaccard (tokens query) (tokens candidate))

  abbrev pub same_external_id : EntityExternalId → EntityExternalId → Bool
  same_external_id expected actual =
      (normalize_external_system expected.system == normalize_external_system actual.system)
      && (normalize_external_value expected.value == normalize_external_value actual.value)

  abbrev pub external_id_match : EntityExternalId → EntityResolutionSignal
  external_id_match actual = record {
    kind = external_id_exact;
    score = integer 1;
    source = String.◌++◌ "external-id:" actual.system;
    candidate = actual.value;
    detail = String.◌++◌ "external id exact match: " actual.system;
  }

  unfoldable pub external_id_signals : List EntityExternalId → Entity → List EntityResolutionSignal
  external_id_signals [] candidate = []
  external_id_signals (expected ∷ rest) candidate =
      map external_id_match (filter (same_external_id expected) (get_or candidate.external_ids []))
      ++ external_id_signals rest candidate

  -- The signals of a label with each name of one source.
  unfoldable pub name_signals : String → NameSource → List String → List EntityResolutionSignal
  name_signals query source [] = []
  name_signals query source (candidate ∷ rest) = elim (lexical_signal query candidate source) [
    | none ↦ name_signals query source rest
    | some signal ↦ signal ∷ name_signals query source rest
  ]

  unfoldable pub label_signals : List String → Entity → List EntityResolutionSignal
  label_signals [] entity = []
  label_signals (query ∷ rest) entity =
      name_signals query label entity.labels
      ++ (name_signals query alias entity.aliases ++ label_signals rest entity)

-- The key under which signals are one.
abbrev pub signal_key : EntityResolutionSignal → String
signal_key signal = String.◌++◌ (signal_kind_text signal.kind) (
    String.◌++◌ "\0" (
      String.◌++◌ signal.source
        (String.◌++◌ "\0" (String.◌++◌ signal.candidate (String.◌++◌ "\0" signal.detail)))))

-- A signal replaces one of its key that scores less.
abbrev pub keep_better :
    EntityResolutionSignal
    → Option EntityResolutionSignal
    → Dict String EntityResolutionSignal
    → Dict String EntityResolutionSignal
keep_better signal none kept = insert (signal_key signal) signal kept
keep_better signal (some existing) kept =
    if num_lt existing.score signal.score then insert (signal_key signal) signal kept else kept

unfoldable pub deduplicate :
    List EntityResolutionSignal
    → Dict String EntityResolutionSignal
    → Dict String EntityResolutionSignal
deduplicate [] kept = kept
deduplicate (signal ∷ rest) kept =
    deduplicate rest (keep_better signal (lookup (signal_key signal) kept) kept)

-- `collate a b` is `a.localeCompare(b) < 0`.
module _ (collate : String → String → Bool) where
  abbrev pub signal_order : EntityResolutionSignal → EntityResolutionSignal → Bool
  signal_order left right =
      then_by (num_lt right.score left.score) (num_lt left.score right.score) (
        then_by (collate (signal_kind_text left.kind) (signal_kind_text right.kind))
          (collate (signal_kind_text right.kind) (signal_kind_text left.kind))
          (then_by (collate left.source right.source) (collate right.source left.source)
            (collate left.candidate right.candidate)))

  unfoldable pub unique_signals : List EntityResolutionSignal → List EntityResolutionSignal
  unique_signals signals = sort signal_order (values (deduplicate signals []))

-- `Math.max`, of numbers that are not NaN.
abbrev pub max_of : Number → Number → Number
max_of a b = if num_lt a b then b else a

unfoldable pub score_from : Number → List EntityResolutionSignal → Number
score_from score [] = score
score_from score (signal ∷ rest) = score_from (max_of score signal.score) rest

unfoldable pub score_signals : List EntityResolutionSignal → Number
score_signals signals = score_from (integer 0) signals

module _ (platform : Platform) (collate : String → String → Bool) where
  unfoldable pub signals_for_entity : CandidateQuery → Entity → List EntityResolutionSignal
  signals_for_entity query entity = unique_signals collate (
      external_id_signals platform query.external_ids entity
      ++ label_signals platform query.labels entity)

  unfoldable pub pair_signals : Entity → Entity → List EntityResolutionSignal
  pair_signals source candidate =
      signals_for_entity
        (record {
          labels = source.labels ++ source.aliases;
          external_ids = get_or source.external_ids [];
        })
        candidate
