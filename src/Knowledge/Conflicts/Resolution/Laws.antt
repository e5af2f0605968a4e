-- ===== src/Knowledge/Conflicts/Resolution/Laws.antt =====
-- What a resolution leaves behind, and that a conflict is resolved once.
use mathlib.Core.Bool.{false≢true}
use kotowari.Base.{
  String, List, Option, none, some, Bool, true, false, any, find, string_eq, ◌==◌, ==_iff,
  any-eq-false, ok, throw_if, ◌≡◌, ◌≢◌, ◌⊎◌, inl, inr, refl, sym, ◌∙◌, ap, arith, In, Option-cases,
}
use kotowari.Base.Exec.{continue-ok}
use kotowari.Base.Text.{is_blank}
use kotowari.Kernel.Ids.{as_conflict_id}
use kotowari.Kernel.Access.{Principal}
use kotowari.Kernel.Entity.{Conflict, ConflictResolution}
use kotowari.PluginSdk.Store.{Store, list_conflicts, list_resolutions, put_conflict}
use kotowari.PluginSdk.System.{System}
use kotowari.Decisions.Lifecycle.Lookup.{find-eq-some}
use kotowari.Knowledge.Conflicts.Resolution.{
  same_claim_set, as_claim_ids, as_optional_conflict_id, choose_conflict, resolve_chosen,
  resolve_claim_conflict,
}
use kotowari.Knowledge.Conflicts.Resolution.Steps.{
  as_claim_ids-eq, IsResolution, resolve_existing_lem, resolve_new_lem,
}
use kotowari.Knowledge.Entities.Steps.{throw_if-eq}

as_optional_conflict_id-eq :
    (text id : Option String) → as_optional_conflict_id text ≡ ok id → id ≡ text
unfolding as_conflict_id
as_optional_conflict_id-eq none id h = ground arith
as_optional_conflict_id-eq (some text) id h = ground arith

module _ (collate : String → String → Bool) (ids : List String) (cs : List Conflict) where
  chosen_lem :
      (id : Option String) (c : Conflict)
      → choose_conflict collate id ids cs ≡ ok (some c)
      → In c cs × ((id ≡ none) ⊎ (id ≡ some c.id))
  unfolding choose_conflict
  chosen_lem none c h =
      let found : find (λ (d : Conflict). same_claim_set collate d.claim_ids ids) cs ≡ some c =
        ground arith in
      ((find-eq-some _ cs c found).0, inl refl)
  chosen_lem (some id) c h = elim (Option-cases (find (λ (d : Conflict). d.id == id) cs)) [
    | inl e ↦ absurd (ground arith)
    | inr (d, e) ↦
        let (member, named) = find-eq-some _ cs d e in
        let same : d ≡ c = ground arith in
        (
          rw (← same) member,
          inr (ap some (sym ((==_iff d.id id).0 named) ∙ ap (λ (x : Conflict). x.id) same)),
        )
  ]

  not_chosen_lem :
      (id : Option String)
      → choose_conflict collate id ids cs ≡ ok none
      → (id ≡ none) × (find (λ (c : Conflict). same_claim_set collate c.claim_ids ids) cs ≡ none)
  unfolding choose_conflict
  not_chosen_lem none h = (refl, ground arith)
  not_chosen_lem (some id) h = elim (Option-cases (find (λ (d : Conflict). d.id == id) cs)) [
    | inl e ↦ absurd (ground arith)
    | inr (d, e) ↦ absurd (ground arith)
  ]

-- The conflict that a call resolves, and the store once it is there: a stored one of the given claims,
-- named by the caller or not, that has no resolution yet; or a new one of them, where the caller names
-- none and no stored conflict is of the claims.
abbrev pub Resolves :
    (String → String → Bool)
    → Principal
    → Option String
    → List String
    → Store
    → Conflict
    → Store
    → Type 0
Resolves collate p named ids s c base =
    (In c (list_conflicts p.tenant_id s)
      × (same_claim_set collate c.claim_ids ids ≡ true)
      × ((named ≡ none) ⊎ (named ≡ some c.id))
      × (any (λ (q : ConflictResolution). q.id == c.id) (list_resolutions p.tenant_id s) ≡ false)
      × (base ≡ s))
    ⊎ ((named ≡ none)
        × (find (λ (d : Conflict). same_claim_set collate d.claim_ids ids)
              (list_conflicts p.tenant_id s)
            ≡ none)
        × (c.claim_ids ≡ ids)
        × (base ≡ put_conflict c s))

chosen-Resolves :
    (collate : String → String → Bool) (p : Principal) (named : Option String) (ids : List String)
    (preferred reason : String) (s t : System) (r : ConflictResolution) (chosen : Option Conflict)
    → choose_conflict collate named ids (list_conflicts p.tenant_id s.store) ≡ ok chosen
    → resolve_chosen collate p ids preferred reason chosen s ≡ (ok r, t)
    → (c : Conflict) × (base : Store) × Resolves collate p named ids s.store c base
      × IsResolution p reason c base t.store r
chosen-Resolves collate p named ids preferred reason s t r none e h =
    let (c, given, done) = resolve_new_lem collate p reason ids preferred s t r h in
    let (unnamed, fresh) =
      not_chosen_lem collate ids (list_conflicts p.tenant_id s.store) named e in
    (c, put_conflict c s.store, inr (unnamed, fresh, given, refl), done)
chosen-Resolves collate p named ids preferred reason s t r (some c) e h =
    let ((same, unsolved), done) = resolve_existing_lem collate p reason ids preferred c s t r h in
    let (stored, by_name) = chosen_lem collate ids (list_conflicts p.tenant_id s.store) named c e in
    (c, s.store, inl (stored, same, by_name, unsolved, refl), done)

-- A resolution that returns has a reason, and it is of a stored conflict of the given claims without a
-- resolution, or of a new conflict of them, stored too, where no stored one is of them and none is
-- named. The resolution has the conflict's identifier and claims, prefers one of these, has the trimmed
-- reason, and is stored; its event is appended to the log and to the outbox.
pub resolve_claim_conflict-Resolves :
    (collate : String → String → Bool) (p : Principal) (named : Option String) (ids : List String)
    (preferred reason : String) (s t : System) (r : ConflictResolution)
    → resolve_claim_conflict collate p named ids preferred reason s ≡ (ok r, t)
    → (is_blank reason ≡ false)
      × ((c : Conflict) × (base : Store) × Resolves collate p named ids s.store c base
          × IsResolution p reason c base t.store r)
unfolding resolve_claim_conflict
resolve_claim_conflict-Resolves collate p named ids preferred reason s t r h =
    let cs = list_conflicts p.tenant_id s.store in
    let (_, e1, h1) = continue-ok _ (throw_if (is_blank reason) _) s h in
    let (known, e2, h2) = continue-ok _ (as_claim_ids ids) s h1 in
    let (id, e3, h3) = continue-ok _ (as_optional_conflict_id named) s h2 in
    let (chosen, e4, h4) = continue-ok _ (choose_conflict collate id known cs) s h3 in
    let same_ids : known ≡ ids = as_claim_ids-eq ids known e2 in
    let same_name : id ≡ named = as_optional_conflict_id-eq named id e3 in
    (
      throw_if-eq _ _ e1,
      chosen-Resolves collate p named ids preferred reason s t r chosen
          (ap (λ (z : List String). choose_conflict collate named z cs) (sym same_ids)
            ∙ ap (λ (z : Option String). choose_conflict collate z known cs) (sym same_name)
            ∙ e4)
          (ap (λ (z : List String). resolve_chosen collate p z preferred reason chosen s)
              (sym same_ids)
            ∙ h4),
    )

-- A conflict that has a resolution in the tenant is not resolved again under its identifier.
pub resolve_claim_conflict-once :
    (collate : String → String → Bool) (p : Principal) (ids : List String)
    (preferred reason : String) (s t : System) (q r : ConflictResolution)
    → In q (list_resolutions p.tenant_id s.store)
    → resolve_claim_conflict collate p (some q.id) ids preferred reason s ≢ (ok r, t)
resolve_claim_conflict-once collate p ids preferred reason s t q r stored h =
    let (_, (c, base, how, _)) =
      resolve_claim_conflict-Resolves collate p (some q.id) ids preferred reason s t r h in
    elim how [
      | inr (unnamed, _, _, _) ↦ ground arith
      | inl (_, _, inl unnamed, _, _) ↦ ground arith
      | inl (_, _, inr by_name, unsolved, _) ↦
          false≢true
            (sym (any-eq-false _ _ q unsolved stored) ∙ (==_iff q.id c.id).1 (ground arith))
    ]
