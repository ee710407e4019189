-- ===== src/Normalizer/Normalize/Observed.antt =====
-- `Normalizer::normalize`: one observation after another, into maps that keep the latest of each key.
use next_infra.Base.{
  ℕ, ◌+◌, ◌^◌, ◌%◌, Bool, not, ◌&&◌, List, [], ◌∷◌, any, none, some, text, text_eq, BTreeMap,
  values, Result, ok, err, ◌>>=◌, ◌>>◌, reject_if, ok_or, if◌then◌else◌, ◌==◌, ◌!=◌, leb, nat_eq,
}
use next_infra.Base.Maps.{get, insert}
use next_infra.Core.Error.{DomainError, ErrorCode}
use next_infra.Core.Json.{json_object}
use next_infra.Core.Encode.{evidence_json}
use next_infra.Core.Evidence.{RelationEvidence}
use next_infra.Core.Hashing.{Hashing}
use next_infra.Core.Model.{ResourceKey}
use next_infra.ConnectorApi.Observation.{
  SyncRequest, ResourceObservation, RelationObservation, ObservationBatch, validate_for,
}
use next_infra.Normalizer.Batch.{
  RelationSchema, ValidatedRelationKey, ValidatedResource, ValidatedRelation, ValidatedBatch,
}
use next_infra.Normalizer.Scan.{
  contract_error, is_sensitive_field_name, scan_text, scan_for_secrets,
}
use next_infra.Normalizer.Normalize.{
  Normalizer, as_object, scan_labels, scan_warnings, relation_key_json, normalized_fingerprint,
  located_key, projected_resource,
}
use next_infra.Normalizer.Normalize.Keys.{
  schema_key_eq, resource_key_eq, resource_key_ord, relation_key_eq, relation_key_ord,
}

module _ (hashing : Hashing) (normalizer : Normalizer) (request : SyncRequest) where
  unfoldable pub normalize_resource :
      ResourceObservation → Result DomainError (ValidatedResource × ℕ)
  normalize_resource observation = do
    scan_for_secrets observation.attributes
    scan_text observation.name
    scan_text observation.display_name
    scan_labels observation.labels
    schema ←
        ok_or
          (get normalizer.attribute_schemas
            (observation.kind, observation.attribute_schema_version))
          (contract_error ErrorCode.schema_incompatible
            (text "no matching resource attribute schema"))
    members ← ok_or (as_object observation.attributes) (
        contract_error ErrorCode.invalid_response
          (text "resource attributes must be a JSON object"))
    projected_resource hashing request observation schema members

  abbrev accepts : RelationObservation → RelationSchema → Bool
  accepts observation schema =
      (schema.kind == observation.kind)
      && (schema.source_kind == observation.source.kind)
      && (schema.target_kind == observation.target.kind)

  abbrev pub observed_relation_key : RelationObservation → ValidatedRelationKey
  observed_relation_key observation = record {
    source = located_key hashing request observation.source;
    target = located_key hashing request observation.target;
    kind = observation.kind;
    evidence_key = observation.evidence_key;
  }

  abbrev pub observed_evidence : RelationObservation → RelationEvidence
  observed_evidence observation =
      RelationEvidence.provider request.connection.connection_id request.sync_run_id
        observation.field_path

  unfoldable pub normalize_relation : RelationObservation → Result DomainError ValidatedRelation
  normalize_relation observation = do
    reject_if (is_sensitive_field_name observation.field_path) (
        contract_error ErrorCode.invalid_response
          (text "relation evidence points at a forbidden secret field"))
    reject_if (not (any (accepts observation) normalizer.relation_schemas)) (
        contract_error ErrorCode.schema_incompatible
          (text "relation kind or endpoint kinds are not registered"))
    fingerprint ← normalized_fingerprint hashing (
        json_object (
          (text "key", relation_key_json (observed_relation_key observation))
          ∷ (text "evidence", evidence_json (observed_evidence observation))
          ∷ []))
    ok (record {
      key = observed_relation_key observation;
      evidence = observed_evidence observation;
      observed_at = observation.observed_at;
      fingerprint = fingerprint;
    })

  -- The first of two observations of one key that are equally late stays.
  unfoldable pub keep_resource :
      BTreeMap ResourceKey ValidatedResource
      → ValidatedResource
      → Result DomainError (BTreeMap ResourceKey ValidatedResource)
  keep_resource kept resource = elim (get kept resource.key) [
    | none ↦ ok (insert kept resource.key resource)
    | some existing ↦
        if existing.fingerprint != resource.fingerprint
        then err (
            contract_error ErrorCode.invalid_response
              (text "conflicting observations share one resource identity"))
        else if leb resource.observed_at existing.observed_at
        then ok kept
        else ok (insert kept resource.key resource)
  ]

  unfoldable pub keep_relation :
      BTreeMap ValidatedRelationKey ValidatedRelation
      → ValidatedRelation
      → Result DomainError (BTreeMap ValidatedRelationKey ValidatedRelation)
  keep_relation kept relation = elim (get kept relation.key) [
    | none ↦ ok (insert kept relation.key relation)
    | some existing ↦
        if existing.fingerprint != relation.fingerprint
        then err (
            contract_error ErrorCode.invalid_response
              (text "conflicting observations share one relation identity"))
        else if leb relation.observed_at existing.observed_at
        then ok kept
        else ok (insert kept relation.key relation)
  ]

  -- The resources so far, and the number of dropped leaves, a `u64`.
  unfoldable pub normalize_resources :
      BTreeMap ResourceKey ValidatedResource × ℕ
      → List ResourceObservation
      → Result DomainError (BTreeMap ResourceKey ValidatedResource × ℕ)
  normalize_resources progress [] = ok progress
  normalize_resources (kept, total) (observation ∷ rest) = do
    (resource, dropped) ← normalize_resource observation
    next ← keep_resource kept resource
    normalize_resources (next, (total + dropped) % 2 ^ 64) rest

  unfoldable pub normalize_relations :
      BTreeMap ValidatedRelationKey ValidatedRelation
      → List RelationObservation
      → Result DomainError (BTreeMap ValidatedRelationKey ValidatedRelation)
  normalize_relations kept [] = ok kept
  normalize_relations kept (observation ∷ rest) = do
    relation ← normalize_relation observation
    next ← keep_relation kept relation
    normalize_relations next rest

  abbrev pub validated_batch :
      ObservationBatch
      → BTreeMap ResourceKey ValidatedResource × ℕ
      → BTreeMap ValidatedRelationKey ValidatedRelation
      → ValidatedBatch
  validated_batch batch (resources, dropped) relations = record {
    connection_id = request.connection.connection_id;
    sync_run_id = request.sync_run_id;
    resources = values resources;
    relations = values relations;
    coverage = batch.coverage;
    next_cursor = batch.next_cursor;
    warnings = batch.warnings;
    redaction_report = record batch.redaction_report { unknown_fields_dropped = dropped };
    provider_request_summary = batch.provider_request_summary;
  }

  unfoldable pub normalize : ObservationBatch → Result DomainError ValidatedBatch
  normalize batch = do
    validate_for batch request
    scan_warnings batch.warnings
    resources ←
        normalize_resources ([], batch.redaction_report.unknown_fields_dropped) batch.resources
    relations ← normalize_relations [] batch.relations
    ok (validated_batch batch resources relations)
