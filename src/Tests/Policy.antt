-- ===== src/Tests/Policy.antt =====
-- The properties of policies at concrete policies and decisions.
use kotowari.Base.{String, List, none, some, true, false, ◌≡◌, ◌↔◌, refl, ok, string_eq}
use kotowari.Base.Number.{Number, integer}
use kotowari.Base.Text.{is_blank, text_lt}
use kotowari.Kernel.Metadata.{internal}
use kotowari.Kernel.Context.{PolicyRecord, active}
use kotowari.PluginSdk.Store.{list_decisions}
use kotowari.PluginSdk.System.{System}
use kotowari.Policy.{
  PolicyQuery, PolicyImpact, VersionInput, is_policy_applicable, put_policy_version, what_if_policy,
}
use kotowari.Policy.Applicability.{GovernsIf, is_policy_applicable_iff}
use kotowari.Policy.Versions.{IsStoredVersion, put_policy_version-IsStoredVersion}
use kotowari.Policy.Impact.{Foretells, what_if_policy-Foretells}
use kotowari.Tests.Data.{day_1, day_2, day_3, metadata, ada, rules, policy, system}

abbrev query : PolicyQuery
query = record {
  purpose = some "approval";
  namespace_id = some "research";
  classification = some internal;
  at = some day_2;
}

is_policy_applicable_iff_example :
    (is_policy_applicable policy query ≡ true) ↔ GovernsIf policy.versioned query
is_policy_applicable_iff_example = is_policy_applicable_iff policy query

abbrev version : VersionInput
version = record {
  policy_id = some "p1";
  name = "approvals";
  version = integer 2;
  rules = rules;
  status = none;
  effective_from = some day_1;
  effective_to = some day_3;
  applicability = none;
}

abbrev stored_version : PolicyRecord
stored_version = record {
  metadata = metadata;
  id = "fresh";
  version = integer 2;
  name = "approvals";
  rules = rules;
  versioned = some (record {
    policy_id = "p1";
    version_id = "fresh";
    status = active;
    effective_from = some day_1;
    effective_to = some day_3;
    applicability = record { purposes = none; namespace_ids = none; classifications = none };
  });
}

abbrev after_version : System
after_version = (put_policy_version ada version system).1

version_put : put_policy_version ada version system ≡ (ok stored_version, after_version)
unfolding put_policy_version text_lt
version_put = refl

put_policy_version-IsStoredVersion_example :
    IsStoredVersion ada version system after_version stored_version
put_policy_version-IsStoredVersion_example =
    put_policy_version-IsStoredVersion ada version system after_version stored_version version_put

abbrev number_text : Number → String
number_text n = "number"

named : is_blank "ada" ≡ false
unfolding is_blank
named = refl

dated : is_blank day_2 ≡ false
unfolding is_blank
dated = refl

what_if_policy-Foretells_example :
    (is : List PolicyImpact) × ((what_if_policy number_text ada policy system).0 ≡ ok is)
    × Foretells rules (list_decisions "acme" (some "research") system.store) is
    × ((what_if_policy number_text ada policy system).1.store ≡ system.store)
what_if_policy-Foretells_example =
    what_if_policy-Foretells number_text ada policy system named (λ n. dated)
