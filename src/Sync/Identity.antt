-- ===== src/Sync/Identity.antt =====
-- The stable identifiers of crates/next-infra-sync/src/engine.rs.
pub mod Laws
use next_infra.Base.{ℕ, List, [], ◌∷◌, ◌++◌, Text, text, Result, ok, err, ◌>>=◌}
use next_infra.Core.Error.{DomainError}
use next_infra.Core.Ids.{
  ConnectionId, ResourceId, RelationId, ResourceVersionId, RelationVersionId, SyncRunId, ChangeId,
  SchemaVersion, string_value, schema_version,
}
use next_infra.Core.Model.{ResourceKey}
use next_infra.ConnectorApi.Observation.{ResourceLocator}
use next_infra.Normalizer.Batch.{ValidatedRelationKey}

unfoldable pub stable_resource_id : ResourceKey → Result DomainError ResourceId
stable_resource_id key = string_value "ResourceId" (
    text "resource:"
    ++ (key.connection_id ++ (text ":" ++ (key.kind ++ (text ":" ++ key.external_id)))))

unfoldable pub stable_resource_id_from_locator :
    ConnectionId → ResourceLocator → Result DomainError ResourceId
unfolding stable_resource_id
stable_resource_id_from_locator connection_id locator = stable_resource_id (record {
  connection_id = connection_id;
  kind = locator.kind;
  external_id = locator.external_id;
})

unfoldable pub stable_relation_id : ValidatedRelationKey → Result DomainError RelationId
stable_relation_id key = do
  source ← stable_resource_id key.source
  target ← stable_resource_id key.target
  string_value "RelationId" (
      text "relation:"
      ++ (source
          ++ (text ":" ++ (target ++ (text ":" ++ (key.kind ++ (text ":" ++ key.evidence_key)))))))

unfoldable pub resource_version_id : ResourceId → SyncRunId → Result DomainError ResourceVersionId
resource_version_id resource_id sync_run_id =
    string_value "ResourceVersionId"
      (text "resource-version:" ++ (resource_id ++ (text ":" ++ sync_run_id)))

unfoldable pub relation_version_id : RelationId → SyncRunId → Result DomainError RelationVersionId
relation_version_id relation_id sync_run_id =
    string_value "RelationVersionId"
      (text "relation-version:" ++ (relation_id ++ (text ":" ++ sync_run_id)))

-- `change:{id}:{run}`, of `resource_change` and `relation_change`.
unfoldable pub change_id : Text → SyncRunId → Result DomainError ChangeId
change_id subject_id sync_run_id =
    string_value "ChangeId" (text "change:" ++ (subject_id ++ (text ":" ++ sync_run_id)))

unfoldable pub next_schema_version : Result DomainError SchemaVersion
unfolding schema_version
next_schema_version = schema_version 1
