-- ===== src/Decisions.antt =====
-- packages/capability-decision/src/decision.ts and lifecycle.ts: decisions are recorded, replayed,
-- related, observed, approved, excepted from a policy and audited. What both files share stands here.
pub mod Recording
pub mod Lifecycle
pub mod Replay
pub mod Precedents
pub mod Audit
use kotowari.Base.{String, List, [], ◌∷◌, Option, none, some, Result, ok, err, head?}
use kotowari.Kernel.Errors.{Failure}
use kotowari.Kernel.Metadata.{ScopedMetadata, internal, workspace}
use kotowari.Kernel.Access.{ResourceKind, Resource, Principal, AuthContext}
use kotowari.Kernel.Decision.{Decision}
use kotowari.Policy.{first_namespace}

-- The context of the calls of `assertAllowed`, which give no delegation and no instant.
abbrev pub call_context : Principal → Option String → AuthContext
call_context principal purpose = record {
  tenant_id = principal.tenant_id;
  purpose = purpose;
  delegation = none;
  now = none;
}

abbrev pub scope_of : Principal → String → Resource
scope_of principal namespace_id = record {
  kind = ResourceKind.decision;
  id = namespace_id;
  metadata = record {
    tenant_id = principal.tenant_id;
    namespace_id = namespace_id;
    principal_id = some principal.id;
    classification = internal;
    visibility = workspace;
    policy_tags = [];
  };
}

abbrev pub scoped : Principal → Result Failure String → Result Failure Resource
scoped principal (err e) = err e
scoped principal (ok namespace_id) = ok (scope_of principal namespace_id)

unfoldable pub decision_scope : Principal → Result Failure Resource
decision_scope principal = scoped principal (first_namespace (head? principal.namespace_ids))

-- `{ kind: 'decision', id: decision.id, metadata: decision }`
abbrev pub decision_resource : Decision → Resource
decision_resource decision = record {
  kind = ResourceKind.decision;
  id = decision.id;
  metadata = decision.metadata;
}
