-- ===== src/Normalizer/Tests.antt =====
-- The theorems of the normalizer at concrete inputs.
use next_infra.Base.{
  ℕ, false, [], ◌∷◌, none, BTreeMap, text, text_eq, trim, is_whitespace, Text-discrete, ℕ_discrete,
  split, ok, err, ◌≡◌, refl, All, contains,
}
use next_infra.Base.Texts.{trim_start, text_lt, push_front, starts_with, contains_text}
use next_infra.Base.Maps.{get, insert, set_insert}
use next_infra.Core.Ids.{string_value}
use next_infra.Core.Json.{
  null, string, object, Members, end, member, insert_fields, insert_member, json_object, get_member,
}
use next_infra.Core.Encode.{label_members, labels_json, health_json}
use next_infra.Core.Coverage.{SyncCoverage}
use next_infra.Core.Status.{ResourceHealth, SyncMode}
use next_infra.Core.Hashing.{Hashing, hex, hex_digit}
use next_infra.Core.Model.{ResourceKey}
use next_infra.ConnectorApi.Observation.{
  SyncRequest, ResourceObservation, ObservationBatch, compatible, accepts_coverage, validate_for,
}
use next_infra.Normalizer.Batch.{AttributeSchema, ValidatedResource, ValidatedBatch}
use next_infra.Normalizer.Scan.{
  contract_error, to_ascii_lowercase, is_sensitive_field_name, has_sentinel, scan_text,
  scan_for_secrets,
}
use next_infra.Normalizer.Scan.Laws.{IsClean, HasClean, scan_for_secrets-ok_iff}
use next_infra.Normalizer.Attributes.{
  value_at_path, insert_at_path, count_leaf_fields, project_path, project_paths, project_attributes,
}
use next_infra.Normalizer.Attributes.Laws.{project_attributes-IsClean}
use next_infra.Normalizer.Normalize.{
  Normalizer, register, distinct, new_normalizer, as_object, scan_labels, scan_warnings,
  resource_key_json, normalized_fingerprint, projected_resource,
}
use next_infra.Normalizer.Normalize.Keys.{SchemaKey-discrete, ResourceKey-discrete}
use next_infra.Normalizer.Normalize.Observed.{
  normalize_resource, keep_resource, normalize_resources, normalize_relations, normalize,
}
use next_infra.Normalizer.Normalize.Latest.{Keeps, normalize_resources-AllKept}

abbrev hashing : Hashing
hashing = record { to_vec = λ value. ok (171 ∷ []); digest = λ bytes. bytes }

abbrev schema : AttributeSchema
schema = record {
  kind = b'a' ∷ b'.' ∷ b'b' ∷ [];
  schema_version = 1;
  allowed_attributes = (b's' ∷ []) ∷ [];
}

abbrev normalizer : Normalizer
normalizer = record { attribute_schemas = ((schema.kind, 1), schema) ∷ []; relation_schemas = [] }

abbrev request : SyncRequest
request = record {
  sync_run_id = b'1' ∷ [];
  connection = record {
    connection_id = b'c' ∷ [];
    connector_type = b'a' ∷ [];
    config = null;
    config_schema_version = 1;
  };
  mode = SyncMode.full;
  scope = b's' ∷ [];
  cursor = none;
  targeted_resources = [];
}

-- The attribute `s` is allowed, `u` is not.
abbrev attributes : Members
attributes = member (b's' ∷ []) (string (b'v' ∷ [])) (member (b'u' ∷ []) null end)

abbrev observed : ResourceObservation
observed = record {
  kind = b'a' ∷ b'.' ∷ b'b' ∷ [];
  external_id = b'x' ∷ [];
  name = b'n' ∷ [];
  display_name = b'n' ∷ [];
  scope = b's' ∷ [];
  labels = (b'l' ∷ b'.' ∷ b'k' ∷ [], b'w' ∷ []) ∷ [];
  health = ResourceHealth.healthy;
  attributes = object attributes;
  attribute_schema_version = 1;
  observed_at = 7;
}

abbrev batch : ObservationBatch
batch = record {
  resources = observed ∷ record observed { observed_at = 9 } ∷ [];
  relations = [];
  coverage = SyncCoverage.authoritative_full (b's' ∷ []);
  next_cursor = none;
  warnings = [];
  redaction_report = record {
    removed_fields = 0;
    unknown_fields_dropped = 0;
    secret_sentinels_detected = 0;
  };
  provider_request_summary = record { request_count = 1; elapsed_ms = 1; status_class_counts = [] };
}

abbrev progress : BTreeMap ResourceKey ValidatedResource × ℕ
progress = elim (normalize_resources hashing normalizer request ([], 0) batch.resources) [
  | ok reached ↦ reached
  | err e ↦ ([], 0)
]

abbrev validated : ValidatedBatch
validated = elim (normalize hashing normalizer request batch) [
  | ok v ↦ v
  | err e ↦ record {
    connection_id = [];
    sync_run_id = [];
    resources = [];
    relations = [];
    coverage = batch.coverage;
    next_cursor = none;
    warnings = [];
    redaction_report = batch.redaction_report;
    provider_request_summary = batch.provider_request_summary;
  }
]

runs :
    (new_normalizer (schema ∷ []) [] ≡ ok normalizer)
    × (normalize_resources hashing normalizer request ([], 0) batch.resources ≡ ok progress)
    × (normalize hashing normalizer request batch ≡ ok validated)
    × (scan_for_secrets (object attributes) ≡ ok tt)
    × (is_sensitive_field_name (b's' ∷ []) ≡ false)
unfolding new_normalizer register distinct normalize normalize_resources normalize_relations
    normalize_resource keep_resource projected_resource normalized_fingerprint resource_key_json
    scan_labels scan_warnings as_object scan_for_secrets scan_text has_sentinel
    is_sensitive_field_name to_ascii_lowercase contract_error value_at_path insert_at_path
    count_leaf_fields project_path project_paths project_attributes validate_for accepts_coverage
    compatible SchemaKey-discrete ResourceKey-discrete hex hex_digit string_value insert_fields
    insert_member json_object get_member label_members labels_json health_json get insert set_insert
    trim_start text_lt push_front starts_with contains_text text trim is_whitespace Text-discrete
    ℕ_discrete split contains
runs = (refl, refl, refl, refl, refl)

normalize_resources-AllKept_example :
    All
      (λ o.
        (v : ValidatedResource) × (dropped : ℕ) × (normalize_resource hashing normalizer request o
          ≡ ok (v, dropped))
        × Keeps progress.0 v)
      batch.resources
normalize_resources-AllKept_example =
    normalize_resources-AllKept hashing normalizer request [] progress.0 0 progress.1
      batch.resources runs.1

attributes-HasClean : HasClean attributes
attributes-HasClean = (scan_for_secrets-ok_iff (object attributes)).0 runs.3

project_attributes-IsClean_example :
    IsClean (project_attributes attributes schema.allowed_attributes).0
project_attributes-IsClean_example =
    project_attributes-IsClean attributes schema.allowed_attributes attributes-HasClean (runs.4, tt)
