-- ===== src/Policy/Applicability.antt =====
-- Which policies apply to a decision (`isPolicyApplicable`, `selectApplicablePolicies`).
use kotowari.Base.{
  String, List, Option, none, some, Bool, true, false, not, ◌||◌, ◌≡◌, ◌↔◌, refl, arith, string_eq,
  Eq, absent_or, In, In-filter, includes_iff, if◌then◌else◌,
}
use kotowari.Base.Text.{text_lt, text_le}
use kotowari.Kernel.Metadata.{classification_eq}
use kotowari.Kernel.Context.{PolicyRecord, VersionFields, PolicyStatus, active}
use kotowari.Policy.{
  PolicyQuery, is_active, outside_window, is_left_out, applies, is_policy_applicable,
  select_applicable_policies,
}

-- A list that is given names what is asked.
abbrev pub IsNamed : {A : Type 0} → Option A → Option (List A) → Type 0
IsNamed {A} given listed = (x : A) (xs : List A) → given ≡ some x → listed ≡ some xs → In x xs

-- What a version asks of a query.
pub record Governs (v : VersionFields) (q : PolicyQuery) : Type 0 where
  pub in_force : v.status ≡ active
  pub begun :
      (at from : String) → q.at ≡ some at → v.effective_from ≡ some from → text_lt at from ≡ false
  pub not_over : (at to : String) → q.at ≡ some at → v.effective_to ≡ some to → text_lt at to ≡ true
  pub purpose : IsNamed q.purpose v.applicability.purposes
  pub namespace : IsNamed q.namespace_id v.applicability.namespace_ids
  pub classification : IsNamed q.classification v.applicability.classifications

-- A record without the fields of a version governs everything.
abbrev pub GovernsIf : Option VersionFields → PolicyQuery → Type 0
GovernsIf none q = Unit
GovernsIf (some v) q = Governs v q

is_active_iff : (s : PolicyStatus) → (is_active s ≡ true) ↔ (s ≡ active)
is_active_iff active = ground arith
is_active_iff s = ground arith

is_left_out_iff :
    {A : Type 0} ⦃e : Eq A⦄ (o : Option A) (l : Option (List A))
    → (is_left_out o l ≡ false) ↔ IsNamed o l
is_left_out_iff none l = (λ _ x xs e f. cc, λ _. refl)
is_left_out_iff (some x) none = (λ _ y ys e f. cc, λ _. refl)
is_left_out_iff (some x) (some xs) = (
  λ h y ys e f.
      let same : x ≡ y = cc in
      let same_list : xs ≡ ys = cc in
      rw (← same, ← same_list) ((includes_iff xs x).0 (ground arith)),
  λ k. ground (arith, includes_iff xs x, k x xs refl refl),
)

window_iff :
    (at : String) (begin end : Option String)
    → ((not (absent_or begin (λ from. not (text_lt at from)))
          || not (absent_or end (λ to. not (text_le to at))))
        ≡ false)
      ↔ (((at' from : String) → some at ≡ some at' → begin ≡ some from → text_lt at' from ≡ false)
          × ((at' to : String) → some at ≡ some at' → end ≡ some to → text_lt at' to ≡ true))
window_iff at none none = (λ _. (λ at' from e f. cc, λ at' to e f. cc), λ _. refl)
window_iff at (some from) none = (
  λ h. (λ at' from' e f. ground arith, λ at' to e f. cc),
  λ k. ground (arith, k.0 at from refl refl),
)
window_iff at none (some to) = (
  λ h. (λ at' from e f. cc, λ at' to' e f. ground arith),
  λ k. ground (arith, k.1 at to refl refl),
)
window_iff at (some from) (some to) = (
  λ h. (λ at' from' e f. ground arith, λ at' to' e f. ground arith),
  λ k. ground (arith, k.0 at from refl refl, k.1 at to refl refl),
)

outside_window_iff :
    (v : VersionFields) (o : Option String)
    → (outside_window v o ≡ false) ↔ (
        ((at from : String) → o ≡ some at → v.effective_from ≡ some from → text_lt at from ≡ false)
        × ((at to : String) → o ≡ some at → v.effective_to ≡ some to → text_lt at to ≡ true))
outside_window_iff v none = (λ _. (λ at from e f. cc, λ at to e f. cc), λ _. refl)
outside_window_iff v (some at) = window_iff at v.effective_from v.effective_to

applies_parts :
    (a b c d e : Bool)
    → ((if not a
          then false
          else if b
          then false
          else if c
          then false
          else if d
          then false
          else if e
          then false
          else true)
        ≡ true)
      ↔ ((a ≡ true) × (b ≡ false) × (c ≡ false) × (d ≡ false) × (e ≡ false))
applies_parts a b c d e = ground arith

applies_iff : (o : Option VersionFields) (q : PolicyQuery) → (applies o q ≡ true) ↔ GovernsIf o q
applies_iff none q = (λ _. tt, λ _. refl)
applies_iff (some v) q =
    let parts =
      applies_parts (is_active v.status) (outside_window v q.at)
        (is_left_out q.purpose v.applicability.purposes)
        (is_left_out q.namespace_id v.applicability.namespace_ids)
        (is_left_out q.classification v.applicability.classifications) in
    let window = outside_window_iff v q.at in
    let purposes = is_left_out_iff q.purpose v.applicability.purposes in
    let namespaces = is_left_out_iff q.namespace_id v.applicability.namespace_ids in
    let classes = is_left_out_iff q.classification v.applicability.classifications in
    (
      λ h. record {
        in_force = (is_active_iff v.status).0 (parts.0 h).0;
        begun = (window.0 (parts.0 h).1).0;
        not_over = (window.0 (parts.0 h).1).1;
        purpose = purposes.0 (parts.0 h).2;
        namespace = namespaces.0 (parts.0 h).3;
        classification = classes.0 (parts.0 h).4;
      },
      λ k. parts.1 (
        (is_active_iff v.status).1 k.in_force,
        window.1 (k.begun, k.not_over),
        purposes.1 k.purpose,
        namespaces.1 k.namespace,
        classes.1 k.classification,
      ),
    )

-- A policy applies to a query exactly if it is no version, or a version that is active, whose
-- window, which holds its start and not its end, holds the instant asked for, and whose lists of
-- purposes, namespaces and classifications name what is asked for; what either side leaves out asks
-- nothing.
pub is_policy_applicable_iff :
    (p : PolicyRecord) (q : PolicyQuery)
    → (is_policy_applicable p q ≡ true) ↔ GovernsIf p.versioned q
unfolding is_policy_applicable
is_policy_applicable_iff p q = applies_iff p.versioned q

-- The selection is the part of the list that governs the query.
pub In-select_applicable_policies :
    (ps : List PolicyRecord) (q : PolicyQuery) (p : PolicyRecord)
    → In p (select_applicable_policies ps q) ↔ (In p ps × GovernsIf p.versioned q)
unfolding select_applicable_policies
In-select_applicable_policies ps q p =
    let kept = In-filter (λ x. is_policy_applicable x q) p ps in
    let governs = is_policy_applicable_iff p q in
    (λ m. ((kept.0 m).0, governs.0 (kept.0 m).1), λ k. kept.1 (k.0, governs.1 k.1))
