-- ===== src/Normalizer/Normalize.antt =====
-- `Normalizer`: registration of schemas, and an observed batch checked, projected and deduplicated.
pub mod Keys
pub mod Observed
pub mod Clean
pub mod Laws
pub mod Latest
use next_infra.Base.{
  ℕ, ◌+◌, ◌^◌, ◌%◌, Bool, true, false, ◌&&◌, ◌||◌, List, [], ◌∷◌, ◌++◌, any, length, Option, none,
  some, Text, text, text_eq, is_empty, split, BTreeMap, values, Result, ok, err, ◌>>=◌, ◌>>◌,
  map_err, reject_if, ok_or, if◌then◌else◌, ◌==◌, ◌!=◌, leb, nat_eq,
}
use next_infra.Base.Maps.{get, insert, set_insert}
use next_infra.Core.Error.{DomainError, ErrorCode, invalid_value}
use next_infra.Core.Ids.{Fingerprint, LabelKey, ResourceKind, string_value}
use next_infra.Core.Json.{
  Value, null, boolean, number, string, array, object, Values, Number, Members, json_object,
}
use next_infra.Core.Encode.{health_json, labels_json, evidence_json}
use next_infra.Core.Evidence.{RelationEvidence}
use next_infra.Core.Hashing.{Hashing, hex}
use next_infra.Core.Model.{ResourceKey}
use next_infra.ConnectorApi.Observation.{
  SyncRequest, ResourceObservation, RelationObservation, RedactionReport, ObservationWarning,
  ObservationBatch, ResourceLocator, validate_for,
}
use next_infra.Normalizer.Batch.{
  AttributeSchema, RelationSchema, ValidatedRelationKey, ValidatedResource, ValidatedRelation,
  ValidatedBatch,
}
use next_infra.Normalizer.Scan.{
  contract_error, is_sensitive_field_name, scan_text, scan_for_secrets,
}
use next_infra.Normalizer.Attributes.{project_attributes}
use next_infra.Normalizer.Normalize.Keys.{
  SchemaKey, schema_key_eq, schema_key_ord, relation_schema_eq, relation_schema_ord,
  resource_key_eq, resource_key_ord, relation_key_eq, relation_key_ord,
}

pub record Normalizer : Type 0 where
  pub attribute_schemas : BTreeMap SchemaKey AttributeSchema
  pub relation_schemas : List RelationSchema

abbrev pub is_invalid_path : Text → Bool
is_invalid_path path = any is_empty (split b'.' path) || is_sensitive_field_name path

abbrev pub is_some {ℓ} : {A : Type ℓ} → Option A → Bool
is_some none = false
is_some (some a) = true

abbrev pub schema_key : AttributeSchema → SchemaKey
schema_key schema = (schema.kind, schema.schema_version)

unfoldable pub register :
    BTreeMap SchemaKey AttributeSchema
    → List AttributeSchema
    → Result DomainError (BTreeMap SchemaKey AttributeSchema)
register registered [] = ok registered
register registered (schema ∷ rest) = do
  reject_if (any is_invalid_path schema.allowed_attributes)
      (invalid_value (text "attribute schema contains an invalid or sensitive path"))
  reject_if (is_some (get registered (schema_key schema)))
      (invalid_value (text "duplicate attribute schema registration"))
  register (insert registered (schema_key schema) schema) rest

unfoldable pub distinct : List RelationSchema → List RelationSchema
distinct [] = []
distinct (schema ∷ rest) = set_insert (distinct rest) schema

unfoldable pub new_normalizer :
    List AttributeSchema → List RelationSchema → Result DomainError Normalizer
unfolding distinct
new_normalizer attribute_schemas relation_schemas = do
  attributes ← register [] attribute_schemas
  reject_if (length (distinct relation_schemas) != length relation_schemas)
      (invalid_value (text "duplicate relation schema registration"))
  ok (record { attribute_schemas = attributes; relation_schemas = relation_schemas })

unfoldable pub as_object : Value → Option Members
as_object (object members) = some members
as_object _ = none

unfoldable pub scan_labels : BTreeMap LabelKey Text → Result DomainError (Unit {0})
scan_labels [] = ok tt
scan_labels ((key, value) ∷ labels) = do
  reject_if (is_sensitive_field_name key) (
      contract_error ErrorCode.invalid_response
        (text "resource labels contain a forbidden secret field"))
  scan_text value
  scan_labels labels

unfoldable pub scan_warnings : List ObservationWarning → Result DomainError (Unit {0})
scan_warnings [] = ok tt
scan_warnings (warning ∷ rest) = do scan_text warning.message; scan_warnings rest

unfoldable pub resource_key_json : ResourceKey → Value
resource_key_json key = json_object (
    (text "connection_id", string key.connection_id)
    ∷ (text "kind", string key.kind)
    ∷ (text "external_id", string key.external_id)
    ∷ [])

unfoldable pub relation_key_json : ValidatedRelationKey → Value
unfolding resource_key_json
relation_key_json key = json_object (
    (text "source", resource_key_json key.source)
    ∷ (text "target", resource_key_json key.target)
    ∷ (text "kind", string key.kind)
    ∷ (text "evidence_key", string key.evidence_key)
    ∷ [])

module _ (hashing : Hashing) where
  unfoldable pub normalized_fingerprint : Value → Result DomainError Fingerprint
  normalized_fingerprint value = do
    bytes ←
        map_err
          (λ error.
            contract_error ErrorCode.internal
              (text "could not serialize normalized value: " ++ error))
          (hashing.to_vec value)
    string_value "Fingerprint" (hex (hashing.digest bytes))

  abbrev pub observed_key : SyncRequest → ResourceObservation → ResourceKey
  observed_key request observation = record {
    connection_id = request.connection.connection_id;
    kind = observation.kind;
    external_id = observation.external_id;
  }

  abbrev pub located_key : SyncRequest → ResourceLocator → ResourceKey
  located_key request locator = record {
    connection_id = request.connection.connection_id;
    kind = locator.kind;
    external_id = locator.external_id;
  }

  abbrev pub resource_value : ResourceKey → ResourceObservation → Value → Value
  resource_value key observation attributes = json_object (
      (text "key", resource_key_json key)
      ∷ (text "name", string observation.name)
      ∷ (text "display_name", string observation.display_name)
      ∷ (text "scope", string observation.scope)
      ∷ (text "labels", labels_json observation.labels)
      ∷ (text "health", health_json observation.health)
      ∷ (text "attributes", attributes)
      ∷ (
        text "attribute_schema_version",
        number (Number.unsigned observation.attribute_schema_version),
      )
      ∷ [])

  -- From the scans on: the projection, its fingerprint and the number of leaves that it drops.
  unfoldable pub projected_resource :
      SyncRequest
      → ResourceObservation
      → AttributeSchema
      → Members
      → Result DomainError (ValidatedResource × ℕ)
  projected_resource request observation schema members = do
    let (attributes, dropped) = project_attributes members schema.allowed_attributes
    let key = observed_key request observation
    fingerprint ← normalized_fingerprint (resource_value key observation attributes)
    ok (
      record {
        key = key;
        name = observation.name;
        display_name = observation.display_name;
        scope = observation.scope;
        labels = observation.labels;
        health = observation.health;
        attributes = attributes;
        attribute_schema_version = observation.attribute_schema_version;
        observed_at = observation.observed_at;
        fingerprint = fingerprint;
      },
      dropped,
    )
