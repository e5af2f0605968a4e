-- ===== src/Kernel/Metadata.antt =====
-- packages/kernel/src/scoped-metadata.ts and temporal.ts.
use kotowari.Base.{ℕ, String, List, Option, none, some, Eq, eq_of}

pub data Classification : Type 0 where
  public internal confidential tlp_amber tlp_red : Classification

pub data Visibility : Type 0 where
  public workspace private : Visibility

unfoldable pub Classification-discrete : Discrete Classification
Classification-discrete = hlevel

unfoldable pub Visibility-discrete : Discrete Visibility
Visibility-discrete = hlevel

instance abbrev pub classification_eq : Eq Classification
classification_eq = eq_of Classification-discrete

instance abbrev pub visibility_eq : Eq Visibility
visibility_eq = eq_of Visibility-discrete

pub record ScopedMetadata : Type 0 where
  pub tenant_id : String
  pub namespace_id : String
  pub principal_id : Option String
  pub classification : Classification
  pub visibility : Visibility
  pub policy_tags : List String

abbrev pub classification_rank : Classification → ℕ
classification_rank Classification.public = 0
classification_rank internal = 1
classification_rank confidential = 2
classification_rank tlp_amber = 3
classification_rank tlp_red = 4

pub record TemporalPerspective : Type 0 where
  pub valid_at : Option String
  pub known_at : Option String

abbrev pub normalize_temporal_perspective :
    Option TemporalPerspective → Option String → TemporalPerspective
normalize_temporal_perspective (some temporal) legacy_as_of = temporal
normalize_temporal_perspective none none = record { valid_at = none; known_at = none }
normalize_temporal_perspective none (some as_of) = record { valid_at = some as_of; known_at = none }

-- The source's spelling of the classifications, for messages.
unfoldable pub classification_text : Classification → String
classification_text Classification.public = "public"
classification_text internal = "internal"
classification_text confidential = "confidential"
classification_text tlp_amber = "tlp:amber"
classification_text tlp_red = "tlp:red"
