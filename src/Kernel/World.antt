-- ===== src/Kernel/World.antt =====
-- What the kernel reads from outside the program: the system clock (`nowIso` of
-- packages/kernel/src/provenance.ts) and random identifiers (`newId` of branded-ids.ts).
-- The n-th reading of each is given by a function, and the two counters say how many were made.
use kotowari.Base.{ℕ, ◌+◌, String, ok}
use kotowari.Base.Exec.{Exec}
use kotowari.Kernel.Errors.{Failure}

pub record World : Type 0 where
  pub uuid : ℕ → String
  pub clock : ℕ → String
  pub drawn : ℕ
  pub readings : ℕ

-- `newId(brand)`; the brand is a type only.
unfoldable pub new_id : Exec World Failure String
new_id w = (ok (w.uuid w.drawn), record w { drawn = w.drawn + 1 })

-- `nowIso()`: `asIsoTimestamp` accepts whatever `toISOString` returns.
unfoldable pub now_iso : Exec World Failure String
now_iso w = (ok (w.clock w.readings), record w { readings = w.readings + 1 })
