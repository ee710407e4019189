-- ===== src/Normalizer/Normalize/Laws.antt =====
-- No secret passes the normalizer.
use next_infra.Base.{ℕ, text, text_eq, Result, ◌>>=◌, ok_or, nat_eq}
use next_infra.Base.Maps.{get}
use next_infra.Core.Error.{DomainError, ErrorCode}
use next_infra.Core.Hashing.{Hashing}
use next_infra.ConnectorApi.Observation.{SyncRequest, ResourceObservation}
use next_infra.Normalizer.Batch.{AttributeSchema, ValidatedResource}
use next_infra.Normalizer.Scan.{contract_error}
use next_infra.Normalizer.Normalize.{Normalizer, as_object, projected_resource}
use next_infra.Normalizer.Normalize.Keys.{
  schema_key_eq, schema_key_ord, relation_schema_eq, relation_schema_ord, resource_key_eq,
  resource_key_ord,
}

module _ (hashing : Hashing) (n : Normalizer) (request : SyncRequest) where
  -- The stages of `normalize_resource`.
  abbrev with_schema :
      ResourceObservation → AttributeSchema → Result DomainError (ValidatedResource × ℕ)
  with_schema observation schema =
      ok_or (as_object observation.attributes) (
        contract_error ErrorCode.invalid_response
          (text "resource attributes must be a JSON object"))
      >>= projected_resource hashing request observation schema

  abbrev after_labels : ResourceObservation → Result DomainError (ValidatedResource × ℕ)
  after_labels observation =
      ok_or (get n.attribute_schemas (observation.kind, observation.attribute_schema_version)) (
        contract_error ErrorCode.schema_incompatible (text "no matching resource attribute schema"))
      >>= with_schema observation
