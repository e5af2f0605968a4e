-- ===== src/Knowledge/Entities/Steps.antt =====
-- What the steps that the operations on entities share check, and that they store nothing.
use mathlib.Core.Path.{subst}
use kotowari.Base.{
  ℕ, ◌+◌, ◌≤◌, String, List, [], ◌∷◌, Option, some, Bool, false, string_eq, ◌==◌, ==_iff, Result,
  ok, throw_if, ◌≡◌, inl, inr, refl, sym, ◌∙◌, ap, arith, All, Bool-cases, length, ltb,
}
use kotowari.Base.Exec.{continue-ok, continue-keeps, pure-eq-ok, for_each}
use kotowari.Kernel.Errors.{Failure}
use kotowari.Kernel.World.{World}
use kotowari.Kernel.Ids.{as_entity_id, as_event_id}
use kotowari.Kernel.Access.{Action, Principal}
use kotowari.Kernel.Authorization.{assert_allowed, allow_now}
use kotowari.Kernel.Authorization.Permission.{IsPermitted}
use kotowari.Kernel.Authorization.Receipts.{assert_allowed_iff}
use kotowari.Kernel.Entity.{Entity, EntityResolutionProposal}
use kotowari.Decisions.Lifecycle.Lookup.{result_cases}
use kotowari.PluginSdk.Store.{get_entity}
use kotowari.PluginSdk.System.{System}
use kotowari.Knowledge.{call_context, entity_resource}
use kotowari.Knowledge.Merges.{canonical_entity_id_from_events}
use kotowari.Knowledge.ResolutionStore.{resolve_canonical_entity_id}
use kotowari.Knowledge.Entities.{
  found_proposal, writable_pair, require_entity, assert_same_scope, resolution_metadata,
  resolution_purpose, assert_entity_write, assert_resolution_roots,
}

pub as_event_id-eq : (a b : String) → as_event_id a ≡ ok b → b ≡ a
unfolding as_event_id
as_event_id-eq a b h = ground arith

pub as_entity_id-eq : (a b : String) → as_entity_id a ≡ ok b → b ≡ a
unfolding as_entity_id
as_entity_id-eq a b h = ground arith

-- A guard that has let pass.
pub throw_if-eq : (b : Bool) (e : Failure) → throw_if b e ≡ ok tt → b ≡ false
throw_if-eq b e h = ground arith

pub found_proposal-eq :
    (id : String) (o : Option EntityResolutionProposal) (q : EntityResolutionProposal)
    → found_proposal id o ≡ ok q
    → o ≡ some q
found_proposal-eq id o q h = ground arith

pub no_more : {A : Type 0} (l : List A) → ltb 0 (length l) ≡ false → l ≡ []
no_more [] h = refl
no_more (x ∷ l) h = absurd (ground arith)

module _ (id : String) (s : System) where
  pub require_entity-state : (require_entity id s).1 ≡ s
  unfolding require_entity as_entity_id
  require_entity-state = ground arith

  pub require_entity-found :
      (e : Entity) → (require_entity id s).0 ≡ ok e → get_entity id s.store ≡ some e
  unfolding require_entity as_entity_id
  require_entity-found e h = ground arith

pub resolution_metadata-state :
    (collate : String → String → Bool) (p : Principal) (es : List Entity) (s : System)
    → (resolution_metadata collate p es s).1 ≡ s
unfolding resolution_metadata
resolution_metadata-state collate p es s = ground arith

-- The principal may do this to the entity at some reading of the clock from the n-th on.
abbrev pub MayWriteFrom : Principal → Action → (ℕ → String) → ℕ → Entity → Type 0
MayWriteFrom p a clock n e =
    (k : ℕ) × (n ≤ k)
    × IsPermitted (clock k) p a (entity_resource e) (call_context p (some resolution_purpose))

module _ (p : Principal) (a : Action) where
  assert_allowed-world :
      (e : Entity) (w : World)
      → (assert_allowed p a (entity_resource e) (call_context p (some resolution_purpose)) w).1
        ≡ record w { readings = w.readings + 1 }
  unfolding assert_allowed allow_now
  assert_allowed-world e w = ground arith

  abbrev asked : Entity → World → Result Failure (Unit {0}) × World
  asked e = assert_allowed p a (entity_resource e) (call_context p (some resolution_purpose))

  abbrev next : Entity → System → System
  next e s = record s { world = (asked e s.world).1 }

  pub assert_entity_write-store :
      (es : List Entity) (s : System) → (assert_entity_write p a es s).1.store ≡ s.store
  unfolding assert_entity_write for_each
  assert_entity_write-store [] s = refl
  assert_entity_write-store (e ∷ es) s =
      continue-keeps _ (λ u. u.store ≡ s.store) (asked e s.world).0 (next e s) refl
        (λ _. assert_entity_write-store es (next e s))

  pub assert_entity_write-clock :
      (es : List Entity) (s : System) → (assert_entity_write p a es s).1.world.clock ≡ s.world.clock
  unfolding assert_entity_write for_each
  assert_entity_write-clock [] s = refl
  assert_entity_write-clock (e ∷ es) s =
      let same : (next e s).world.clock ≡ s.world.clock =
        ap (λ (w : World). w.clock) (assert_allowed-world e s.world) in
      continue-keeps _ (λ u. u.world.clock ≡ s.world.clock) (asked e s.world).0 (next e s) same
        (λ _. assert_entity_write-clock es (next e s) ∙ same)

  later :
      (clock : ℕ → String) (n : ℕ) (es : List Entity)
      → All (MayWriteFrom p a clock (n + 1)) es
      → All (MayWriteFrom p a clock n) es
  later clock n [] h = tt
  later clock n (e ∷ es) ((k, below, may), h) = ((k, omega arith, may), later clock n es h)

  pub assert_entity_write-MayWriteFrom :
      (es : List Entity) (s : System)
      → (assert_entity_write p a es s).0 ≡ ok tt
      → All (MayWriteFrom p a s.world.clock s.world.readings) es
  unfolding assert_entity_write for_each
  assert_entity_write-MayWriteFrom [] s h = tt
  assert_entity_write-MayWriteFrom (e ∷ es) s h = elim (result_cases (asked e s.world).0) [
    | inr (f, denied) ↦ absurd (ground arith)
    | inl (done, passed) ↦
        let w : World = (asked e s.world).1 in
        let moved : w ≡ record (s.world) { readings = s.world.readings + 1 } =
          assert_allowed-world e s.world in
        let rest = assert_entity_write-MayWriteFrom es (next e s) (ground arith) in
        (
          (
            s.world.readings,
            omega arith,
            (assert_allowed_iff p a (entity_resource e) (call_context p (some resolution_purpose))
                  s.world).0
                passed,
          ),
          later s.world.clock s.world.readings es
              (subst (λ (v : World). All (MayWriteFrom p a v.clock v.readings) es) moved rest),
        )
  ]

-- What a pair that may be written is.
pub record IsWritable (p : Principal) (a : Action) (i j : String) (s t : System) (x y : Entity)
    : Type 0 where
  pub first : get_entity i s.store ≡ some x
  pub second : get_entity j s.store ≡ some y
  pub may : All (MayWriteFrom p a s.world.clock s.world.readings) (x ∷ y ∷ [])
  pub kept : t.store ≡ s.store

pub writable_pair-IsWritable :
    (p : Principal) (a : Action) (i j : String) (s t : System) (x y : Entity)
    → writable_pair p a i j s ≡ (ok (x, y), t)
    → IsWritable p a i j s t x y
unfolding writable_pair
writable_pair-IsWritable p a i j s t x y h =
    let s1 = (require_entity i s).1 in
    let (u, e1, h1) = continue-ok _ (require_entity i s).0 s1 h in
    let s2 = (require_entity j s1).1 in
    let (v, e2, h2) = continue-ok _ (require_entity j s1).0 s2 h1 in
    let (_, e3, h3) = continue-ok _ (assert_same_scope (u ∷ v ∷ [])) s2 h2 in
    let s4 = (assert_entity_write p a (u ∷ v ∷ []) s2).1 in
    let (_, e4, h4) = continue-ok _ (assert_entity_write p a (u ∷ v ∷ []) s2).0 s4 h3 in
    let (made, final) = pure-eq-ok (u, v) (x, y) s4 t h4 in
    let is_x : u ≡ x = ap (λ (q : Entity × Entity). q.0) made in
    let is_y : v ≡ y = ap (λ (q : Entity × Entity). q.1) made in
    let same1 : s1 ≡ s = require_entity-state i s in
    let same2 : s2 ≡ s = require_entity-state j s1 ∙ same1 in
    record {
      first = require_entity-found i s u e1 ∙ ap some is_x;
      second =
          ap (λ (q : System). get_entity j q.store) (sym same1)
          ∙ require_entity-found j s1 v e2
          ∙ ap some is_y;
      may =
          subst
            (λ (q : Entity × Entity).
              All (MayWriteFrom p a s.world.clock s.world.readings) (q.0 ∷ q.1 ∷ []))
            made
            (subst
              (λ (q : System). All (MayWriteFrom p a q.world.clock q.world.readings) (u ∷ v ∷ []))
              same2 (assert_entity_write-MayWriteFrom p a (u ∷ v ∷ []) s2 e4));
      kept =
          ap (λ (q : System). q.store) (sym final)
          ∙ assert_entity_write-store p a (u ∷ v ∷ []) s2
          ∙ ap (λ (q : System). q.store) same2;
    }

-- An entity is its own canonical entity.
abbrev pub IsRoot : (String → String → Bool) → System → Entity → Type 0
IsRoot collate s e = canonical_entity_id_from_events collate s.store.events e.id ≡ ok e.id

module _ (collate : String → String → Bool) where
  pub assert_resolution_roots-state :
      (es : List Entity) (s : System) → (assert_resolution_roots collate es s).1 ≡ s
  unfolding assert_resolution_roots for_each resolve_canonical_entity_id
  assert_resolution_roots-state [] s = refl
  assert_resolution_roots-state (e ∷ es) s =
      elim (result_cases (canonical_entity_id_from_events collate s.store.events e.id)) [
        | inr (f, failed) ↦ ground arith
        | inl (c, led) ↦ elim (Bool-cases (c == e.id)) [
          | inr other ↦ ground arith
          | inl same ↦ ground (arith, assert_resolution_roots-state es s)
        ]
      ]

  pub assert_resolution_roots-IsRoot :
      (es : List Entity) (s : System)
      → (assert_resolution_roots collate es s).0 ≡ ok tt
      → All (IsRoot collate s) es
  unfolding assert_resolution_roots for_each resolve_canonical_entity_id
  assert_resolution_roots-IsRoot [] s h = tt
  assert_resolution_roots-IsRoot (e ∷ es) s h =
      elim (result_cases (canonical_entity_id_from_events collate s.store.events e.id)) [
        | inr (f, failed) ↦ absurd (ground arith)
        | inl (c, led) ↦ elim (Bool-cases (c == e.id)) [
          | inr other ↦ absurd (ground arith)
          | inl same ↦ (
            led ∙ ap ok ((==_iff c e.id).0 same),
            assert_resolution_roots-IsRoot es s (ground arith),
          )
        ]
      ]
