-- ===== src/Decisions/Replay/References.antt =====
-- Which policy versions a snapshot names.
use kotowari.Base.{
  String, List, [], ◌∷◌, some, ◌≡◌, ◌↔◌, ◌⊎◌, inl, inr, refl, ◌∙◌, ap, arith, In, get_or, ltb, true,
  length, Option-cases, List-cases,
}
use kotowari.Base.Number.{Number}
use kotowari.Kernel.Context.{ContextSnapshot, PolicyVersionRef}
use kotowari.Decisions.Replay.{
  LegacyKey, parse_legacy_policy_version_key, legacy_refs, refs_from_snapshot,
}

module _ (text : Number → String) (num : String → Number) where
  -- The reference is to the version of a legacy key, whose identifier is that of its policy too.
  abbrev pub IsLegacy : List String → PolicyVersionRef → Type 0
  IsLegacy keys ref =
      (key : String) × (parsed : LegacyKey) × In key keys
      × (parse_legacy_policy_version_key text num key ≡ some parsed)
      × (ref ≡ record {
        policy_id = parsed.id;
        policy_version_id = parsed.id;
        version = parsed.version;
      })

  -- The snapshot names the version: among its references or, where it has none, by a legacy key.
  abbrev pub NamesVersion : ContextSnapshot → PolicyVersionRef → Type 0
  NamesVersion snapshot ref =
      In ref snapshot.policy_versions
      ⊎ ((snapshot.policy_versions ≡ []) × IsLegacy (get_or snapshot.policy_version_ids []) ref)

  legacy_refs-In_iff :
      (keys : List String) (ref : PolicyVersionRef)
      → In ref (legacy_refs text num keys) ↔ IsLegacy keys ref
  unfolding legacy_refs
  legacy_refs-In_iff [] ref = (λ m. absurd m, λ (k, x, m, _, _). absurd m)
  legacy_refs-In_iff (key ∷ keys) ref =
      let more = legacy_refs-In_iff keys ref in
      elim (Option-cases (parse_legacy_policy_version_key text num key)) [
        | inl e ↦ rw e (
          λ m. let (k, x, n, p, q) = more.0 m in (k, x, inr n, p, q),
          λ (k, x, n, p, q). elim n [
            | inl here ↦ absurd (cc (here, p, e))
            | inr there ↦ more.1 (k, x, there, p, q)
          ],
        )
        | inr (parsed, e) ↦ rw e (
          λ m. elim m [
            | inl here ↦ (key, parsed, inl refl, e, here)
            | inr there ↦ let (k, x, n, p, q) = more.0 there in (k, x, inr n, p, q)
          ],
          λ (k, x, n, p, q). elim n [
            | inl here ↦
                let same : x ≡ parsed = cc in
                inl (
                  q
                  ∙ ap
                      (λ (z : LegacyKey). record {
                        policy_id = z.id;
                        policy_version_id = z.id;
                        version = z.version;
                      })
                      same)
            | inr there ↦ inr (more.1 (k, x, there, p, q))
          ],
        )
      ]

  pub refs_from_snapshot-NamesVersion :
      (snapshot : ContextSnapshot) (ref : PolicyVersionRef)
      → In ref (refs_from_snapshot text num snapshot) ↔ NamesVersion snapshot ref
  unfolding refs_from_snapshot
  refs_from_snapshot-NamesVersion snapshot ref = elim (List-cases snapshot.policy_versions) [
    | inl bare ↦
        let legacy = legacy_refs-In_iff (get_or snapshot.policy_version_ids []) ref in
        rw bare
          (λ m. inr (refl, legacy.0 m), λ k. elim k [ inl m ↦ absurd m | inr (_, l) ↦ legacy.1 l ])
    | inr (x, xs, e) ↦
        let filled : ltb 0 (length (x ∷ xs)) ≡ true = ground arith in
        rw (e, filled) (λ m. inl m, λ k. elim k [ inl m ↦ m | inr (nothing, _) ↦ cc ])
  ]
