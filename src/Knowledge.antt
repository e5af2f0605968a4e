-- ===== src/Knowledge.antt =====
-- packages/capability-knowledge/src: what resolves entities to one another, and claims that conflict.
-- What its files share stands here.
pub mod Merges
pub mod ResolutionStore
pub mod Signals
pub mod Entities
pub mod Conflicts
use kotowari.Base.{
  ℕ, String, List, [], ◌∷◌, ◌++◌, map, Option, none, some, Bool, not, ◌||◌, string_eq, ◌==◌, Result,
  if◌then◌else◌, ltb, set_of,
}
use kotowari.Base.Sorting.{sort}
use kotowari.Kernel.Errors.{Failure}
use kotowari.Kernel.Metadata.{
  ScopedMetadata, Classification, Visibility, classification_rank, public, workspace, private,
}
use kotowari.Kernel.Access.{ResourceKind, Resource, Principal, AuthContext}
use kotowari.Kernel.Entity.{Entity}
use kotowari.PluginSdk.Store.{Store}
use kotowari.PluginSdk.System.{Run}

-- The contexts of the calls of `allow` and `assertAllowed`, without a delegation and an instant.
abbrev pub call_context : Principal → Option String → AuthContext
call_context principal purpose = record {
  tenant_id = principal.tenant_id;
  purpose = purpose;
  delegation = none;
  now = none;
}

unfoldable pub visibility_rank : Visibility → ℕ
visibility_rank Visibility.public = 0
visibility_rank workspace = 1
visibility_rank private = 2

-- `reduce` to the classification, and to the visibility, of the highest rank.
pub strictest_from : Classification → List Classification → Classification
strictest_from current [] = current
strictest_from current (x ∷ xs) =
    strictest_from
      (if ltb (classification_rank current) (classification_rank x) then x else current) xs

unfoldable pub strictest_classification : List Classification → Classification
unfolding strictest_from
strictest_classification xs = strictest_from Classification.public xs

pub most_private_from : Visibility → List Visibility → Visibility
most_private_from current [] = current
most_private_from current (x ∷ xs) =
    most_private_from (if ltb (visibility_rank current) (visibility_rank x) then x else current) xs

unfoldable pub strictest_visibility : List Visibility → Visibility
unfolding most_private_from
strictest_visibility xs = most_private_from Visibility.public xs

abbrev pub entity_resource : Entity → Resource
entity_resource entity = record {
  kind = ResourceKind.entity;
  id = entity.id;
  metadata = entity.metadata;
}

-- `x.tenantId !== first.tenantId || x.namespaceId !== first.namespaceId`
abbrev pub stands_elsewhere : ScopedMetadata → ScopedMetadata → Bool
stands_elsewhere first metadata =
    not (metadata.tenant_id == first.tenant_id) || not (metadata.namespace_id == first.namespace_id)

-- `xs.flatMap((x) => x.policyTags)`
unfoldable pub tags_of : List ScopedMetadata → List String
tags_of [] = []
tags_of (m ∷ ms) = m.policy_tags ++ tags_of ms

-- The scope of several records together: the strictest of each, and all their tags.
unfoldable pub joint_metadata :
    (String → String → Bool) → Principal → ScopedMetadata → List ScopedMetadata → ScopedMetadata
joint_metadata collate principal first all = record {
  tenant_id = first.tenant_id;
  namespace_id = first.namespace_id;
  principal_id = some principal.id;
  classification = strictest_classification (map (λ (m : ScopedMetadata). m.classification) all);
  visibility = strictest_visibility (map (λ (m : ScopedMetadata). m.visibility) all);
  policy_tags = sort collate (set_of (tags_of all));
}

-- A computation on the store that may throw.
abbrev pub try_read : {A : Type 0} → (Store → Result Failure A) → Run A
try_read f s = (f s.store, s)
