-- ===== src/Context.antt =====
-- packages/capability-context/src/assemble.ts: the context of a decision, as a snapshot that is stored.
use kotowari.Base.{
  String, List, [], ◌∷◌, map, Option, none, some, head?, get_or, string_eq, add_all,
}
use kotowari.Base.Exec.{◌>>=◌, ◌>>◌, pure}
use kotowari.Base.Number.{Number}
use kotowari.Kernel.Metadata.{TemporalPerspective, internal, workspace}
use kotowari.Kernel.Access.{Principal}
use kotowari.Kernel.Context.{ContextSnapshot, ContextSliceItem, PolicyVersionRef}
use kotowari.Kernel.Invariants.Decisions.{build_context_snapshot}
use kotowari.PluginSdk.Store.{put_context_snapshot}
use kotowari.PluginSdk.System.{Run, on_world, write}

-- The loop over the items: the evidence of each that is not seen yet.
unfoldable pub gather_evidence : List ContextSliceItem → List String → List String
gather_evidence [] evidence_ids = evidence_ids
gather_evidence (item ∷ items) evidence_ids =
    gather_evidence items (add_all evidence_ids item.evidence_ids)

-- `fallback.namespaceId`
abbrev pub local_namespace : String
local_namespace = "local-workspace"

-- `number_text` is `String` on numbers.
unfoldable pub assemble_context :
    (Number → String)
    → Principal
    → String
    → Option TemporalPerspective
    → Option String
    → List PolicyVersionRef
    → List ContextSliceItem
    → Number
    → Run ContextSnapshot
assemble_context number_text principal purpose temporal retrieval_receipt_id policy_versions items
      budget =
    do
      snapshot ← on_world (
          build_context_snapshot number_text (record {
            metadata = record {
              tenant_id = principal.tenant_id;
              namespace_id = get_or (head? principal.namespace_ids) local_namespace;
              principal_id = some principal.id;
              classification = internal;
              visibility = workspace;
              policy_tags = purpose ∷ [];
            };
            purpose = purpose;
            temporal = temporal;
            retrieval_receipt_id = retrieval_receipt_id;
            claim_ids = map (λ (item : ContextSliceItem). item.claim_id) items;
            evidence_ids = gather_evidence items [];
            policy_versions = some policy_versions;
            policy_version_ids = none;
            items = items;
            budget = budget;
          }))
      write (put_context_snapshot snapshot)
      pure snapshot
