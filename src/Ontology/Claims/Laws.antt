-- ===== src/Ontology/Claims/Laws.antt =====
-- Which claims have no issues.
use kotowari.Base.{
  String, List, [], ◌∷◌, ◌++◌, Option, none, some, Bool, true, false, not, any_witness, any_of_In,
  includes, includes_iff, string_eq, ==_iff, get_or, Result, ok, ◌≡◌, ◌↔◌, ◌⊎◌, inl, inr, refl, ap,
  arith, All, In, ◌∙◌, iff_trans, Bool-cases, Option-cases,
}
use kotowari.Base.Number.{Number, num_lt, num_eq}
use kotowari.Kernel.Errors.{Failure}
use kotowari.Kernel.Claim.{Claim, ClaimObject}
use kotowari.Decisions.Lifecycle.Lookup.{result_cases}
use kotowari.Ontology.{
  enum, pattern_rule, min_length, max_length, LiteralDatatype, ValidationRule, PredicateRange,
  PredicateDefinition, SemanticContract, resolve_predicate,
}
use kotowari.Ontology.Claims.{
  Reader, ClaimContractContext, ClaimContractIssue, has_intersection, compatible, issue_if, differs,
  domain_issues, entity_range_issues, literal_matches_datatype, rule_matches, rule_issues, at_most,
  text_length, literal_issues, object_issues, validate_claim_against_contract,
}

-- One of the lists is empty, or they share a text.
abbrev pub Compatible : List String → List String → Type 0
Compatible left right = (left ≡ []) ⊎ (right ≡ []) ⊎ ((x : String) × In x left × In x right)

has_intersection_iff :
    (left right : List String)
    → (has_intersection left right ≡ true) ↔ ((x : String) × In x left × In x right)
unfolding has_intersection
has_intersection_iff left right = (
  λ h.
      let (x, m, k) = any_witness (λ v. includes left v) right h in
      (x, (includes_iff left x).0 k, m),
  λ (x, m, k). any_of_In (λ v. includes left v) right x k ((includes_iff left x).1 m),
)

compatible_iff : (left right : List String) → (compatible left right ≡ true) ↔ Compatible left right
compatible_iff [] right = (λ h. inl refl, λ h. refl)
compatible_iff (x ∷ left) [] = (λ h. inr (inl refl), λ h. refl)
compatible_iff (x ∷ left) (y ∷ right) = (
  λ h. inr (inr ((has_intersection_iff (x ∷ left) (y ∷ right)).0 h)),
  λ h. elim h [
    | inl e ↦ cc
    | inr (inl e) ↦ cc
    | inr (inr shared) ↦ (has_intersection_iff (x ∷ left) (y ∷ right)).1 shared
  ],
)

issue_if-nil_iff : (b : Bool) (i : ClaimContractIssue) → (issue_if (not b) i ≡ []) ↔ (b ≡ true)
issue_if-nil_iff true i = (λ h. refl, λ h. refl)
issue_if-nil_iff false i = (λ h. cc, λ h. cc)

append-nil_iff : {A : Type 0} (xs ys : List A) → (xs ++ ys ≡ []) ↔ ((xs ≡ []) × (ys ≡ []))
append-nil_iff [] ys = (λ h. (refl, h), λ (a, b). b)
append-nil_iff (x ∷ xs) ys = (λ h. cc, λ (a, b). cc)

ok_nil : {A : Type 0} (xs : List A) → ◌≡◌ {A = Result Failure (List A)} (ok xs) (ok []) → xs ≡ []
ok_nil xs h = ground arith

-- The datatype that a literal states is the expected one, where there are both.
abbrev pub Agree : Option String → Option String → Type 0
Agree expected stated = (expected ≡ none) ⊎ (stated ≡ none) ⊎ (stated ≡ expected)

differs-false_iff :
    (expected stated : Option String) → (differs expected stated ≡ false) ↔ Agree expected stated
differs-false_iff none stated = (λ h. inl refl, λ h. refl)
differs-false_iff (some e) none = (λ h. inr (inl refl), λ h. refl)
differs-false_iff (some e) (some a) = (
  λ h. inr (inr (ap some ((==_iff a e).0 (ground arith)))),
  λ h. elim h [ inl x ↦ cc | inr (inl x) ↦ cc | inr (inr x) ↦ ground (arith, ==_iff a e) ],
)

differs-nil_iff :
    (expected stated : Option String) (i : ClaimContractIssue)
    → (issue_if (differs expected stated) i ≡ []) ↔ Agree expected stated
differs-nil_iff expected stated i = elim (Bool-cases (differs expected stated)) [
  | inl apart ↦
      rw apart (λ h. cc, λ h. absurd (ground (arith, (differs-false_iff expected stated).1 h)))
  | inr same ↦ rw same (λ h. (differs-false_iff expected stated).0 same, λ h. refl)
]

-- The first number is less than the second, or the same.
abbrev pub IsAtMost : Number → Number → Type 0
IsAtMost a b = (num_lt a b ≡ true) ⊎ (num_eq a b ≡ true)

at_most-ok_iff :
    (a b : Number) → (◌≡◌ {A = Result Failure Bool} (ok (at_most a b)) (ok true)) ↔ IsAtMost a b
at_most-ok_iff a b = (
  λ h. elim (Bool-cases (num_lt a b)) [ inl less ↦ inl less | inr more ↦ inr (ground arith) ],
  λ h. elim h [ inl less ↦ ground arith | inr same ↦ ground arith ],
)

module _ (reader : Reader) (context : ClaimContractContext) where
  -- The rule holds of the value: one of the values of an enumeration, a match of a pattern that can
  -- be read, at least so long or at most so long.
  abbrev pub Follows : String → ValidationRule → Type 0
  Follows value (enum values) = In value values
  Follows value (pattern_rule source) = reader.test_pattern source value ≡ ok true
  Follows value (min_length least) = IsAtMost least (text_length value)
  Follows value (max_length most) = IsAtMost (text_length value) most

  -- Every rule holds of the value.
  abbrev pub Obeys : String → List ValidationRule → Type 0
  Obeys value rules = All (Follows value) rules

  rule_matches_iff :
      (value : String) (rule : ValidationRule)
      → (rule_matches reader value rule ≡ ok true) ↔ Follows value rule
  unfolding rule_matches
  rule_matches_iff value (enum values) = (
    λ h. (includes_iff values value).0 (ground arith),
    λ m. ap ok ((includes_iff values value).1 m),
  )
  rule_matches_iff value (pattern_rule source) = (λ h. h, λ h. h)
  rule_matches_iff value (min_length least) = at_most-ok_iff least (text_length value)
  rule_matches_iff value (max_length most) = at_most-ok_iff (text_length value) most

  rule_issues-nil_iff :
      (p : PredicateDefinition) (value : String) (rules : List ValidationRule)
      → (rule_issues reader p value rules ≡ ok []) ↔ Obeys value rules
  unfolding rule_issues
  rule_issues-nil_iff p value [] = (λ h. tt, λ h. refl)
  rule_issues-nil_iff p value (rule ∷ rules) = (
    λ h. elim (result_cases (rule_matches reader value rule)) [
      | inr (f, e) ↦ absurd (ground arith)
      | inl (false, e) ↦ elim (result_cases (rule_issues reader p value rules)) [
        | inr (f, g) ↦ absurd (ground arith)
        | inl (rest, g) ↦ absurd (ground arith)
      ]
      | inl (true, e) ↦ elim (result_cases (rule_issues reader p value rules)) [
        | inr (f, g) ↦ absurd (ground arith)
        | inl (rest, g) ↦ (
          (rule_matches_iff value rule).0 e,
          (rule_issues-nil_iff p value rules).0 (ground arith),
        )
      ]
    ],
    λ (e, more).
        rw ((rule_matches_iff value rule).1 e, (rule_issues-nil_iff p value rules).1 more) refl,
  )

  -- What a claim's object has to be for the range of its predicate.
  abbrev pub Fits : PredicateDefinition → PredicateRange → ClaimObject → Type 0
  Fits p (PredicateRange.entity ids) (ClaimObject.entity id) =
      Compatible (get_or ids []) (get_or context.object_entity_type_ids [])
  Fits p (PredicateRange.literal datatype iri) (ClaimObject.literal value stated) =
      (literal_matches_datatype reader value datatype ≡ true)
      × Agree iri stated
      × Obeys value (get_or p.rules [])
  Fits p _ _ = ⊥

  -- The claim's predicate is of the contract, its subject of the predicate's domain, as far as both are
  -- known, and its object fits.
  abbrev pub Conforms : Claim → SemanticContract → Type 0
  Conforms claim contract =
      (p : PredicateDefinition) × (resolve_predicate contract claim.predicate ≡ some p)
      × Compatible (get_or p.domain []) (get_or context.subject_entity_type_ids [])
      × Fits p p.range claim.object

  literal_issues-nil_iff :
      (p : PredicateDefinition) (datatype : LiteralDatatype) (iri : Option String) (value : String)
      (stated : Option String)
      → (literal_issues reader p datatype iri value stated ≡ ok []) ↔ (
          (literal_matches_datatype reader value datatype ≡ true)
          × Agree iri stated
          × Obeys value (get_or p.rules []))
  unfolding literal_issues
  literal_issues-nil_iff p datatype iri value stated =
      let rules = rule_issues-nil_iff p value (get_or p.rules []) in
      let shape = issue_if-nil_iff (literal_matches_datatype reader value datatype) _ in
      let agree = differs-nil_iff iri stated _ in
      (
        λ h. elim (result_cases (rule_issues reader p value (get_or p.rules []))) [
          | inr (f, e) ↦ absurd (ground arith)
          | inl (broken, e) ↦
              let parts = (append-nil_iff _ _).0 (ok_nil _ (rw e at h)) in
              let more = (append-nil_iff _ _).0 parts.1 in
              (shape.0 parts.0, agree.0 more.0, rules.0 (e ∙ ap ok more.1))
        ],
        λ (fits, same, obeys). rw (rules.1 obeys, shape.1 fits, agree.1 same) refl,
      )

  range_iff :
      (p : PredicateDefinition) (ids : Option (List String))
      → (entity_range_issues p ids context ≡ [])
        ↔ Compatible (get_or ids []) (get_or context.object_entity_type_ids [])
  unfolding entity_range_issues
  range_iff p ids = iff_trans (issue_if-nil_iff _ _) (compatible_iff _ _)

  domain_iff :
      (p : PredicateDefinition)
      → (domain_issues p context ≡ [])
        ↔ Compatible (get_or p.domain []) (get_or context.subject_entity_type_ids [])
  unfolding domain_issues
  domain_iff p = iff_trans (issue_if-nil_iff _ _) (compatible_iff _ _)

  object_issues-nil_iff :
      (p : PredicateDefinition) (range : PredicateRange) (object : ClaimObject)
      → (object_issues reader p context range object ≡ ok []) ↔ Fits p range object
  object_issues-nil_iff p (PredicateRange.entity ids) (ClaimObject.entity id) =
      (λ h. (range_iff p ids).0 (ok_nil _ h), λ h. ap ok ((range_iff p ids).1 h))
  object_issues-nil_iff p (PredicateRange.literal d iri) (ClaimObject.literal v stated) =
      literal_issues-nil_iff p d iri v stated
  object_issues-nil_iff p (PredicateRange.entity ids) (ClaimObject.literal v stated) =
      (λ h. cc, λ h. absurd h)
  object_issues-nil_iff p (PredicateRange.literal d iri) (ClaimObject.entity id) =
      (λ h. cc, λ h. absurd h)

-- A claim has no issues exactly if it conforms to the contract: its predicate is of the contract, its
-- subject of the predicate's domain, as far as both are known, and its object fits the range, that is,
-- an entity of the expected types, as far as they are known, or a literal of the datatype that obeys
-- every rule.
pub validate_claim_against_contract-Conforms_iff :
    (reader : Reader) (claim : Claim) (contract : SemanticContract) (context : ClaimContractContext)
    → (validate_claim_against_contract reader claim contract context ≡ ok [])
      ↔ Conforms reader context claim contract
unfolding validate_claim_against_contract
validate_claim_against_contract-Conforms_iff reader claim contract context =
    elim (Option-cases (resolve_predicate contract claim.predicate)) [
      | inl unknown ↦ rw unknown (λ h. cc, λ (p, e, _, _). absurd (ground arith))
      | inr (p, known) ↦
          let object = object_issues-nil_iff reader context p p.range claim.object in
          rw known (
            λ h. elim (result_cases (object_issues reader p context p.range claim.object)) [
              | inr (f, e) ↦ absurd (ground arith)
              | inl (found, e) ↦
                  let parts = (append-nil_iff _ _).0 (ok_nil _ (rw e at h)) in
                  (p, refl, (domain_iff reader context p).0 parts.0, object.0 (e ∙ ap ok parts.1))
            ],
            λ (q, same, domain, fits).
                let is_p : q ≡ p = ground arith in
                rw (object.1 (rw is_p at fits), (domain_iff reader context p).1 (rw is_p at domain))
                  refl,
          )
    ]
