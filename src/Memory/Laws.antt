-- ===== src/Memory/Laws.antt =====
-- What a search of the memory finds.
use mathlib.Core.Path.{subst}
use kotowari.Base.{
  ℕ, ◌+◌, ◌≤◌, ◌<◌, String, List, [], ◌∷◌, true, false, head?, ok, ◌≡◌, ◌⊎◌, inl, inr, refl, ap,
  arith, In, Bool-cases, ◌↔◌, string_eq, ◌==◌, ==_iff,
}
use kotowari.Base.Text.{includes_text}
use kotowari.Kernel.World.{World, now_iso}
use kotowari.Kernel.Access.{Principal, Effect, allowed, denied, memory_read}
use kotowari.Kernel.Authorization.{allow, allow_now}
use kotowari.Kernel.Authorization.Permission.{IsPermitted, allow_iff}
use kotowari.Kernel.Entity.{MemoryRecord}
use kotowari.PluginSdk.Store.{list_memory}
use kotowari.PluginSdk.System.{System}
use kotowari.Memory.{
  memory_resource, memory_context, speaks_of, readable_memories, search_memory, ask_first,
}

-- The principal may read the record by what the clock shows.
abbrev pub MayRead : Principal → String → MemoryRecord → Type 0
MayRead p wall m = IsPermitted wall p memory_read (memory_resource m) (memory_context p)

-- The text is empty, or stands in the lower-case body of the record.
abbrev pub SpeaksOf : (String → String) → String → MemoryRecord → Type 0
SpeaksOf lower_case needle m = (needle ≡ "") ⊎ (includes_text (lower_case m.body) needle ≡ true)

-- Of these records those that speak of the text and may be read: what is found may be read at a
-- reading of the clock from the n-th on and before the `end`-th, and what may be read at every reading
-- is found.
pub record AreFound (lower_case : String → String) (p : Principal) (needle : String)
    (clock : ℕ → String) (n end : ℕ) (items found : List MemoryRecord) : Type 0 where
  pub sound :
      (m : MemoryRecord)
      → In m found
      → In m items
        × SpeaksOf lower_case needle m
        × ((k : ℕ) × (n ≤ k) × (k < end) × MayRead p (clock k) m)
  pub complete :
      (m : MemoryRecord)
      → In m items
      → SpeaksOf lower_case needle m
      → ((k : ℕ) → MayRead p (clock k) m)
      → In m found

speaks_of_iff :
    (lower_case : String → String) (needle : String) (m : MemoryRecord)
    → speaks_of lower_case needle m ≡ true ↔ SpeaksOf lower_case needle m
speaks_of_iff lower_case needle m = (
  λ h. elim (Bool-cases (needle == "")) [
    | inl bare ↦ inl ((==_iff needle "").0 bare)
    | inr worded ↦ inr (ground arith)
  ],
  λ k. elim k [
    | inl bare ↦ let e = (==_iff needle "").1 bare in ground arith
    | inr held ↦ ground arith
  ],
)

effect_cases : (e : Effect) → (e ≡ allowed) ⊎ (e ≡ denied)
effect_cases allowed = inl refl
effect_cases denied = inr refl

module _ (lower_case : String → String) (p : Principal) (needle : String) (clock : ℕ → String) where
  abbrev Found : ℕ → ℕ → List MemoryRecord → List MemoryRecord → Type 0
  Found n end items found = AreFound lower_case p needle clock n end items found

  found_more :
      (n end : ℕ) (item : MemoryRecord) (items found : List MemoryRecord)
      → speaks_of lower_case needle item ≡ true
      → MayRead p (clock n) item
      → n < end
      → Found (n + 1) end items found
      → Found n end (item ∷ items) (item ∷ found)
  found_more n end item items found speaks may below_end rest = record {
    sound = λ m i. elim i [
      | inl here ↦ (
        inl here,
        rw here ((speaks_of_iff lower_case needle item).0 speaks),
        (n, omega arith, below_end, rw here may),
      )
      | inr there ↦
          let (held, s, (k, below, above, can)) = rest.sound m there in
          (inr held, s, (k, omega arith, above, can))
    ];
    complete =
        λ m i s can. elim i [ inl here ↦ inl here | inr there ↦ inr (rest.complete m there s can) ];
  }

  found_less :
      (n end : ℕ) (item : MemoryRecord) (items found : List MemoryRecord)
      → ¬ (MayRead p (clock n) item)
      → Found (n + 1) end items found
      → Found n end (item ∷ items) found
  found_less n end item items found refused rest = record {
    sound = λ m i.
        let (held, s, (k, below, above, can)) = rest.sound m i in
        (inr held, s, (k, omega arith, above, can));
    complete = λ m i s can. elim i [
      | inl here ↦ absurd (refused (subst (MayRead p (clock n)) here (can n)))
      | inr there ↦ rest.complete m there s can
    ];
  }

  found_silent :
      (n end : ℕ) (item : MemoryRecord) (items found : List MemoryRecord)
      → speaks_of lower_case needle item ≡ false
      → Found n end items found
      → Found n end (item ∷ items) found
  found_silent n end item items found silent rest = record {
    sound = λ m i. let (held, s, may) = rest.sound m i in (inr held, s, may);
    complete = λ m i s can. elim i [
      | inl here ↦
          let k = (speaks_of_iff lower_case needle m).1 s in
          absurd (ground (arith, ap (speaks_of lower_case needle) here))
      | inr there ↦ rest.complete m there s can
    ];
  }

module _ (lower_case : String → String) (p : Principal) (needle : String) where
  readable_memories-AreFound :
      (items : List MemoryRecord) (w : World)
      → (l : List MemoryRecord) × ((readable_memories lower_case p needle items w).0 ≡ ok l)
        × (w.readings ≤ (readable_memories lower_case p needle items w).1.readings)
        × AreFound lower_case p needle w.clock w.readings
            (readable_memories lower_case p needle items w).1.readings
            items
            l
  unfolding readable_memories ask_first allow_now now_iso
  readable_memories-AreFound [] w =
      ([], refl, omega arith, record { sound = λ m i. absurd i; complete = λ m i s can. absurd i })
  readable_memories-AreFound (item ∷ items) w =
      elim (Bool-cases (speaks_of lower_case needle item)) [
        | inr silent ↦
            let (l, e, later, found) = readable_memories-AreFound items w in
            rw silent (
              l,
              e,
              later,
              found_silent lower_case p needle w.clock w.readings _ item items l silent found,
            )
        | inl speaks ↦
            let (l, e, later, found) =
              readable_memories-AreFound items (record w { readings = w.readings + 1 }) in
            let may =
              allow_iff (w.clock w.readings) p memory_read (memory_resource item)
                (memory_context p) in
            elim (effect_cases
              (allow (w.clock w.readings) p memory_read (memory_resource item)
                (memory_context p)).effect) [
                  | inl granted ↦
                      rw (speaks, e, granted)
                        (
                          item ∷ l,
                          refl,
                          omega arith,
                          found_more lower_case p needle w.clock w.readings _ item items l speaks
                              (may.0 granted) (omega arith) found,
                        )
                  | inr refused ↦
                      rw (speaks, e, refused)
                        (
                          l,
                          refl,
                          omega arith,
                          found_less lower_case p needle w.clock w.readings _ item items l
                              (λ can. ground (arith, may.1 can)) found,
                        )
                ]
      ]

-- A search always returns, stores nothing, and finds, of the records in the tenant and the first
-- namespace of the principal, those whose lower-case text has the lower-case query in it, or all if it
-- is empty, and which the principal may read: what is found may be read at a reading of the clock that
-- the search has made, and what may be read at every reading is found.
pub search_memory-AreFound :
    (lower_case : String → String) (p : Principal) (query : String) (s : System)
    → ((search_memory lower_case p query s).1.store ≡ s.store)
      × ((l : List MemoryRecord) × ((search_memory lower_case p query s).0 ≡ ok l)
          × AreFound lower_case p
              (lower_case query)
              s.world.clock
              s.world.readings
              (search_memory lower_case p query s).1.world.readings
              (list_memory p.tenant_id (head? p.namespace_ids) s.store)
              l)
unfolding search_memory
search_memory-AreFound lower_case p query s =
    let (l, e, _, found) =
      readable_memories-AreFound lower_case p (lower_case query)
        (list_memory p.tenant_id (head? p.namespace_ids) s.store) s.world in
    (refl, (l, e, found))
