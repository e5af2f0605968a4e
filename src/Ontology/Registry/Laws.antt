-- ===== src/Ontology/Registry/Laws.antt =====
-- What the registry keeps.
use kotowari.Base.{
  String, Option, none, some, Bool, string_eq, ◌==◌, ==_iff, lookup, insert, lookup-insert, ok, ◌≡◌,
  refl, inl, inr, arith, sym, ◌∙◌, Bool-cases, Option-cases,
}
use kotowari.Base.Exec.{continue-ok, pure-eq-ok}
use kotowari.Base.Number.{Number}
use kotowari.Kernel.Errors.{plain_error}
use kotowari.Ontology.{SemanticContract}
use kotowari.Ontology.Contracts.{validate_semantic_contract}
use kotowari.Ontology.Registry.{
  Registry, reject_issues, check_same, semantic_contract_key, put_contract,
}

check_same-eq :
    (json : SemanticContract → String) (collate : String → String → Bool)
    (number_text : Number → String) (is_pattern : String → Bool) (key : String)
    (contract old : SemanticContract) (o : Option SemanticContract)
    → check_same json collate number_text is_pattern key contract o ≡ ok tt
    → o ≡ some old
    → json old ≡ json contract
check_same-eq json collate number_text is_pattern key contract old none h e = cc
check_same-eq json collate number_text is_pattern key contract old (some x) h e =
    let same : x ≡ old = ground arith in
    rw (← same) ((==_iff (json x) (json contract)).0 (ground arith))

-- What stood under a key, if anything, still stands there, with the same JSON text.
abbrev pub IsKept :
    (SemanticContract → String) → Option SemanticContract → Option SemanticContract → Type 0
IsKept json none after = Unit
IsKept json (some old) after = (new : SemanticContract) × (after ≡ some new) × (json new ≡ json old)

-- Versions are immutable: a call that puts a contract keeps, under every key that has a contract, one
-- that is the same as a JSON text, and has the contract under its own key.
pub put_contract-keeps :
    (json : SemanticContract → String) (collate : String → String → Bool)
    (number_text : Number → String) (is_pattern : String → Bool) (contract : SemanticContract)
    (key : String) (s t : Registry)
    → put_contract json collate number_text is_pattern contract s ≡ (ok tt, t)
    → IsKept json (lookup key s) (lookup key t)
      × (lookup (semantic_contract_key json collate number_text is_pattern contract) t
          ≡ some contract)
unfolding put_contract
put_contract-keeps json collate number_text is_pattern contract key s t h =
    let own = semantic_contract_key json collate number_text is_pattern contract in
    let (_, e1, h1) =
      continue-ok _
        (reject_issues plain_error
          (validate_semantic_contract collate number_text is_pattern contract))
        s h in
    let (_, e2, h2) =
      continue-ok _ (check_same json collate number_text is_pattern own contract (lookup own s)) s
        h1 in
    let (_, written) = pure-eq-ok tt tt (insert own contract s) t h2 in
    let mine : lookup own t ≡ some contract =
      rw (← written) (lookup-insert own own contract s ∙ rw ((==_iff own own).1 refl) refl) in
    (
      elim (Option-cases (lookup key s)) [
        | inl e ↦ rw e tt
        | inr (old, stored) ↦ rw stored (elim (Bool-cases (own == key)) [
          | inl same ↦
              let is_key : own ≡ key = (==_iff own key).0 same in
              (
                contract,
                rw is_key at mine,
                sym (
                    check_same-eq json collate number_text is_pattern own contract old
                      (lookup own s) e2 (rw (← is_key) at stored)),
              )
          | inr other ↦
              (old, rw (← written) (lookup-insert own key contract s ∙ rw other stored), refl)
        ])
      ],
      mine,
    )
