-- ===== src/Knowledge/Entities.antt =====
-- What the operations on entities of packages/capability-knowledge/src/entity-resolution.ts share: the
-- entities they name, whose scope is one, that the principal may write, and that no merge absorbs.
pub mod Steps
pub mod Proposals
pub mod Merging
pub mod Candidates
use Prim.Native.String
use kotowari.Base.{
  String, List, [], ◌∷◌, ◌++◌, map, Option, none, some, Bool, true, false, not, ◌||◌, any, set_of,
  string_eq, ◌==◌, Result, ok, err, throw_if,
}
use kotowari.Base.Exec.{Exec, ◌>>=◌, ◌>>◌, pure, lift, for_each}
use kotowari.Base.Sorting.{sort}
use kotowari.Kernel.Errors.{Failure, knowledge_error}
use kotowari.Kernel.Ids.{as_entity_id}
use kotowari.Kernel.Metadata.{ScopedMetadata}
use kotowari.Kernel.World.{World}
use kotowari.Kernel.Access.{
  Action, knowledge_read, Principal, AuthDecision, AuthorizationReceipt, allowed, denied,
}
use kotowari.Kernel.Authorization.{assert_allowed, allow_with_receipt}
use kotowari.Kernel.Entity.{Entity, EntityResolutionProposal}
use kotowari.PluginSdk.Store.{Store, get_entity}
use kotowari.PluginSdk.System.{Run, on_world, read}
use kotowari.Knowledge.{call_context, entity_resource, stands_elsewhere, joint_metadata, try_read}
use kotowari.Knowledge.ResolutionStore.{resolve_canonical_entity_id}

abbrev pub found_entity : String → Option Entity → Result Failure Entity
found_entity id none = err (knowledge_error (String.◌++◌ "Entity not found: " id))
found_entity id (some entity) = ok entity

unfoldable pub require_entity : String → Run Entity
require_entity id = do
  entity_id ← lift (as_entity_id id)
  found ← read (get_entity entity_id)
  lift (found_entity id found)

unfoldable pub assert_same_scope : List Entity → Result Failure (Unit {0})
assert_same_scope [] = err (knowledge_error "Entity resolution requires at least one entity")
assert_same_scope (first ∷ rest) =
    throw_if (any (λ (e : Entity). stands_elsewhere first.metadata e.metadata) (first ∷ rest))
      (knowledge_error "Entity resolution cannot cross tenant or namespace scope")

-- The metadata once the scope is one.
abbrev pub scoped_metadata :
    (String → String → Bool) → Principal → List Entity → Result Failure ScopedMetadata
scoped_metadata collate principal [] =
    err (knowledge_error "Entity resolution requires at least one entity")
scoped_metadata collate principal (first ∷ rest) = ok (
    joint_metadata collate principal first.metadata
      (map (λ (e : Entity). e.metadata) (first ∷ rest)))

unfoldable pub resolution_metadata :
    (String → String → Bool) → Principal → List Entity → Run ScopedMetadata
resolution_metadata collate principal entities = do
  lift (assert_same_scope entities)
  lift (scoped_metadata collate principal entities)

abbrev pub resolution_purpose : String
resolution_purpose = "entity-resolution"

unfoldable pub assert_entity_write : Principal → Action → List Entity → Run (Unit {0})
assert_entity_write principal action entities = for_each entities λ entity. on_world (
    assert_allowed principal action (entity_resource entity)
      (call_context principal (some resolution_purpose)))

-- Two stored entities of one scope that the principal may write.
unfoldable pub writable_pair : Principal → Action → String → String → Run (Entity × Entity)
writable_pair principal action first_id second_id = do
  first ← require_entity first_id
  second ← require_entity second_id
  lift (assert_same_scope (first ∷ second ∷ []))
  assert_entity_write principal action (first ∷ second ∷ [])
  pure (first, second)

-- `Entity ${entity.id} is already absorbed by canonical entity ${canonical}`
abbrev pub require_root : String → String → Result Failure (Unit {0})
require_root id canonical = throw_if (not (canonical == id)) (
    knowledge_error (
      String.◌++◌ "Entity "
        (String.◌++◌ id (String.◌++◌ " is already absorbed by canonical entity " canonical))))

-- The proposal under an identifier, or the error that it is not there.
abbrev pub found_proposal :
    String → Option EntityResolutionProposal → Result Failure EntityResolutionProposal
found_proposal id none =
    err (knowledge_error (String.◌++◌ "Entity resolution proposal not found: " id))
found_proposal id (some proposal) = ok proposal

unfoldable pub assert_resolution_roots : (String → String → Bool) → List Entity → Run (Unit {0})
assert_resolution_roots collate entities = for_each entities λ entity. do
  canonical ← try_read (resolve_canonical_entity_id collate entity.id)
  lift (require_root entity.id canonical)

abbrev pub receipt_if_allowed : AuthDecision × AuthorizationReceipt → Option AuthorizationReceipt
receipt_if_allowed (decision, receipt) = elim decision.effect [
  | allowed ↦ some receipt
  | denied ↦ none
]

unfoldable pub read_receipt : Principal → Entity → Exec World Failure (Option AuthorizationReceipt)
read_receipt principal entity = do
  answer ←
      allow_with_receipt principal knowledge_read (entity_resource entity)
        (call_context principal (some resolution_purpose))
  pure (receipt_if_allowed answer)
