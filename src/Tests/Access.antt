-- ===== src/Tests/Access.antt =====
-- The properties of authorization at concrete requests.
use kotowari.Base.{[], ◌∷◌, ◌≡◌, ◌↔◌, inl, inr, refl, arith, includes}
use mathlib.Core.Bool.{decide}
use kotowari.Kernel.Access.{Principal, knowledge_write, allowed, Action-discrete}
use kotowari.Kernel.Authorization.{
  allow, deny_if_cross_tenant, deny_if_classification_insufficient, deny_if_not_admin,
  deny_if_agent_delegation_invalid, deny_if_private_visibility, deny_if_outside_namespace,
  deny_if_viewer_cannot_write,
}
use kotowari.Kernel.Metadata.{Visibility-discrete}
use kotowari.Kernel.Authorization.Permission.{IsPermitted, allow_iff}
use kotowari.Kernel.Authorization.Order.{allow_mono}
use kotowari.Tests.Data.{day_1, day_2, ada, report, at_work}

allow_iff_example :
    ((allow day_1 ada knowledge_write report at_work).effect ≡ allowed)
    ↔ IsPermitted day_1 ada knowledge_write report at_work
allow_iff_example = allow_iff day_1 ada knowledge_write report at_work

-- A person with more clearance than is needed, and a second namespace.
abbrev eve : Principal
eve = record ada { namespace_ids = "research" ∷ "sales" ∷ [] }

allowed_today : (allow day_2 ada knowledge_write report at_work).effect ≡ allowed
unfolding allow deny_if_cross_tenant deny_if_classification_insufficient deny_if_not_admin
    deny_if_agent_delegation_invalid deny_if_private_visibility deny_if_outside_namespace
    deny_if_viewer_cannot_write includes Visibility-discrete Action-discrete decide
allowed_today = refl

allow_mono_example : (allow day_2 eve knowledge_write report at_work).effect ≡ allowed
allow_mono_example =
    allow_mono day_2 ada eve knowledge_write report at_work refl refl refl refl (omega arith)
      (λ n m. elim m [ inl e ↦ inl e | inr e ↦ absurd e ]) allowed_today
