-- ===== src/Tests/Memory.antt =====
-- The property of a search at one note.
use kotowari.Base.{String, [], ◌∷◌, List, ◌≡◌, ok, head?}
use kotowari.Kernel.Entity.{MemoryRecord, note}
use kotowari.Kernel.Metadata.{private}
use kotowari.PluginSdk.Store.{empty_store, list_memory}
use kotowari.PluginSdk.System.{System}
use kotowari.Memory.{search_memory}
use kotowari.Memory.Laws.{AreFound, search_memory-AreFound}
use kotowari.Tests.Data.{day_1, world, metadata, provenance, ada}

-- The letters of the notes are small.
abbrev lower_case : String → String
lower_case s = s

abbrev reminder : MemoryRecord
reminder = record {
  metadata = record metadata { visibility = private };
  id = "m1";
  kind = note;
  body = "buy paint";
  actor = "ada";
  recorded_at = day_1;
  provenance = provenance;
}

abbrev notebook : System
notebook = record { store = record empty_store { memory = ("m1", reminder) ∷ [] }; world = world }

search_memory-AreFound_example :
    ((search_memory lower_case ada "paint" notebook).1.store ≡ notebook.store)
    × ((l : List MemoryRecord) × ((search_memory lower_case ada "paint" notebook).0 ≡ ok l)
        × AreFound lower_case ada
            (lower_case "paint")
            world.clock
            world.readings
            (search_memory lower_case ada "paint" notebook).1.world.readings
            (list_memory "acme" (head? ada.namespace_ids) notebook.store)
            l)
search_memory-AreFound_example = search_memory-AreFound lower_case ada "paint" notebook
