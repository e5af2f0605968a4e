-- ===== src/PluginSdk/System.antt =====
-- Code of the capabilities runs on a store and on the outside world.
use kotowari.Base.Exec.{Exec, zoom, modify, gets}
use kotowari.Kernel.Errors.{Failure}
use kotowari.Kernel.World.{World}
use kotowari.PluginSdk.Store.{Store}

pub record System : Type 0 where
  pub store : Store
  pub world : World

abbrev pub Run : Type 0 → Type 0
Run A = Exec System Failure A

module _ {A : Type 0} where
  abbrev pub on_world : Exec World Failure A → Run A
  on_world = zoom (λ s. s.world) (λ w s. record s { world = w })

  -- A call that only reads the store.
  abbrev pub read : (Store → A) → Run A
  read f = gets (λ s. f s.store)

-- A call that writes the store.
abbrev pub write : (Store → Store) → Run (Unit {0})
write f = modify (λ s. record s { store = f s.store })
