-- ===== src/Memory.antt =====
-- packages/capability-memory/src/memory.ts: what a principal notes for itself, and finds again.
pub mod Laws
use kotowari.Base.{
  ℕ, String, List, [], ◌∷◌, Option, none, some, Bool, true, false, ◌||◌, string_eq, ◌==◌,
  if◌then◌else◌, head?, get_or, Result, ok, err,
}
use kotowari.Base.Exec.{Exec, ◌>>=◌, ◌>>◌, pure, lift}
use kotowari.Base.Text.{includes_text}
use kotowari.Kernel.Errors.{Failure, plain_error}
use kotowari.Kernel.World.{World, new_id, now_iso}
use kotowari.Kernel.Metadata.{internal, private}
use kotowari.Kernel.Provenance.{compact_provenance}
use kotowari.Kernel.Access.{
  ResourceKind, Resource, Principal, AuthContext, AuthDecision, memory_read, allowed, denied,
}
use kotowari.Kernel.Authorization.{allow_now}
use kotowari.Kernel.Entity.{MemoryRecord, MemoryKind, note}
use kotowari.PluginSdk.Store.{put_memory, list_memory}
use kotowari.PluginSdk.System.{Run, on_world, read, write}

abbrev pub own_namespace : Principal → Result Failure String
own_namespace principal = elim (head? principal.namespace_ids) [
  | none ↦ err (plain_error "Principal has no namespace")
  | some namespace_id ↦ ok namespace_id
]

unfoldable pub record_memory : Principal → String → Option MemoryKind → Run MemoryRecord
record_memory principal body kind = do
  namespace_id ← lift (own_namespace principal)
  id ← on_world new_id
  recorded_at ← on_world now_iso
  provenance ← on_world (compact_provenance "memory" principal.id "memory.record" none)
  let item : MemoryRecord = record {
    metadata = record {
      tenant_id = principal.tenant_id;
      namespace_id = namespace_id;
      principal_id = some principal.id;
      classification = internal;
      visibility = private;
      policy_tags = [];
    };
    id = id;
    kind = get_or kind note;
    body = body;
    actor = principal.id;
    recorded_at = recorded_at;
    provenance = provenance;
  }
  write (put_memory item)
  pure item

abbrev pub memory_resource : MemoryRecord → Resource
memory_resource item = record { kind = ResourceKind.memory; id = item.id; metadata = item.metadata }

abbrev pub memory_context : Principal → AuthContext
memory_context principal = record {
  tenant_id = principal.tenant_id;
  purpose = none;
  delegation = none;
  now = none;
}

-- `lower_case` is `toLowerCase`.
module _ (lower_case : String → String) where
  -- `needle.length > 0 && !record.body.toLowerCase().includes(needle)` is the negation.
  abbrev pub speaks_of : String → MemoryRecord → Bool
  speaks_of needle item = (needle == "") || includes_text (lower_case item.body) needle

  abbrev pub keep_allowed : MemoryRecord → AuthDecision → List MemoryRecord → List MemoryRecord
  keep_allowed item decision rest = elim decision.effect [ allowed ↦ item ∷ rest | denied ↦ rest ]

  -- A record before the others, where it may be read.
  unfoldable pub ask_first :
      Principal
      → MemoryRecord
      → Exec World Failure (List MemoryRecord)
      → Exec World Failure (List MemoryRecord)
  ask_first principal item others = do
    decision ← allow_now principal memory_read (memory_resource item) (memory_context principal)
    rest ← others
    pure (keep_allowed item decision rest)

  -- The filter of the records: whether one may be read is asked only where it has the text.
  unfoldable pub readable_memories :
      Principal → String → List MemoryRecord → Exec World Failure (List MemoryRecord)
  readable_memories principal needle [] = pure []
  readable_memories principal needle (item ∷ items) =
      let others = readable_memories principal needle items in
      if speaks_of needle item then ask_first principal item others else others

  unfoldable pub search_memory : Principal → String → Run (List MemoryRecord)
  search_memory principal query = do
    records ← read (list_memory principal.tenant_id (head? principal.namespace_ids))
    on_world (readable_memories principal (lower_case query) records)
