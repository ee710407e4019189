-- ===== src/Binding/Commit.antt =====
-- What a mutation of a binding writes: the binding, its configured relation, and what changed.
pub mod Made
pub mod Rows
use next_infra.Base.{
  ℕ, ◌/◌, ◌%◌, ◌+◌, String, Bool, true, false, ◌||◌, List, [], ◌∷◌, ◌++◌, Option, none, some, Text,
  text, text_eq, decimal, Result, ok, err, ◌>>=◌, map_err, if◌then◌else◌, ltb, ◌!=◌,
}
use mathlib.Core.Option
use next_infra.Core.Error.{DomainError, invalid_value}
use next_infra.Core.Ids.{
  BindingId, Fingerprint, RelationId, RelationVersionId, SchemaVersion, Timestamp, string_value,
  schema_version,
}
use next_infra.Core.Status.{Lifecycle, BindingStatus}
use next_infra.Core.Evidence.{RelationEvidence, OriginRef}
use next_infra.Core.Hashing.{Hashing, hex}
use next_infra.Core.Json.{Value, value_eq, string, json_object}
use next_infra.Core.Encode.{lifecycle_json, evidence_json, binding_status_json}
use next_infra.Core.Model.{Binding, Relation, RelationVersion, FieldChange, Change, ChangeSubject}
use next_infra.Core.Ports.{BindingCommit}

unfoldable pub relation_lifecycle : BindingStatus → Lifecycle
relation_lifecycle BindingStatus.active = Lifecycle.active
relation_lifecycle BindingStatus.unresolved = Lifecycle.orphaned
relation_lifecycle BindingStatus.disabled = Lifecycle.tombstoned

unfoldable pub relation_id : Binding → Result DomainError RelationId
relation_id binding = string_value "RelationId" (
    text "binding-relation:"
    ++ (binding.binding_id
        ++ (text ":"
            ++ (binding.source_resource_id
                ++ (text ":" ++ (binding.target_resource_id ++ (text ":" ++ binding.kind)))))))

unfoldable pub configured_relation : Binding → Lifecycle → Timestamp → Result DomainError Relation
configured_relation binding lifecycle at = do
  id ← relation_id binding
  evidence_key ← string_value "EvidenceKey" (text "binding:" ++ binding.binding_id)
  ok (record {
    relation_id = id;
    source_resource_id = binding.source_resource_id;
    target_resource_id = binding.target_resource_id;
    kind = binding.kind;
    evidence_key = evidence_key;
    evidence = RelationEvidence.configured binding.binding_id;
    first_seen_at = binding.created_at;
    last_seen_at = at;
    lifecycle = lifecycle;
  })

unfoldable pub field_change :
    List FieldChange → String → Option Value → Value → Result DomainError (List FieldChange)
field_change changes path before after =
    if elim before [ none ↦ true | some value ↦ value != after ]
    then (do
      checked ← string_value "FieldPath" (text path)
      ok (changes ++ record { path = checked; before = before; after = some after } ∷ []))
    else ok changes

unfoldable pub binding_changes : Option Binding → Binding → Result DomainError (List FieldChange)
unfolding field_change
binding_changes previous current = do
  source ←
      field_change [] "binding.source_resource_id"
        (Option.map (λ value. string value.source_resource_id) previous)
        (string current.source_resource_id)
  target ←
      field_change source "binding.target_resource_id"
        (Option.map (λ value. string value.target_resource_id) previous)
        (string current.target_resource_id)
  kind ←
      field_change target "binding.kind" (Option.map (λ value. string value.kind) previous)
        (string current.kind)
  field_change kind "binding.status"
      (Option.map (λ value. binding_status_json value.status) previous)
      (binding_status_json current.status)

unfoldable pub identity_changed : Binding → Binding → Bool
identity_changed old binding =
    (old.source_resource_id != binding.source_resource_id)
    || (old.target_resource_id != binding.target_resource_id)
    || (old.kind != binding.kind)

-- The relation of the old identity, where the identity changes.
unfoldable pub replaced_relations :
    Option Binding → Binding → Timestamp → Result DomainError (List Relation)
replaced_relations none binding at = ok []
replaced_relations (some old) binding at =
    if identity_changed old binding
    then (do relation ← configured_relation old Lifecycle.tombstoned at; ok (relation ∷ []))
    else ok []

abbrev pub no_fields : List FieldChange → Bool
no_fields [] = true
no_fields (field ∷ fields) = false

unfoldable pub commit_changes :
    Binding → Timestamp → List FieldChange → Result DomainError (List Change)
commit_changes binding at fields = if no_fields fields then ok [] else do
  id ←
      string_value "ChangeId"
        (text "binding-change:" ++ (binding.binding_id ++ (text ":" ++ decimal at)))
  ok (
      record {
        change_id = id;
        subject = ChangeSubject.binding binding.binding_id;
        observed_at = at;
        fields = fields;
        origin = OriginRef.binding binding.binding_id;
      }
      ∷ [])

abbrev pub assemble :
    Binding → List Relation → Relation → List RelationVersion → List Change → BindingCommit
assemble binding replaced current versions changes = record {
  binding = binding;
  relations = replaced ++ current ∷ [];
  relation_versions = versions;
  changes = changes;
}

module _ (hashing : Hashing) where
  unfoldable pub fingerprint : Value → Result DomainError Fingerprint
  fingerprint value = do
    encoded ←
        map_err (λ _. invalid_value (text "binding snapshot cannot be encoded"))
          (hashing.to_vec value)
    string_value "Fingerprint" (text "sha256:" ++ hex (hashing.digest encoded))

  abbrev pub snapshot : Relation → Value
  snapshot relation = json_object (
      (text "source_resource_id", string relation.source_resource_id)
      ∷ (text "target_resource_id", string relation.target_resource_id)
      ∷ (text "kind", string relation.kind)
      ∷ (text "evidence", evidence_json relation.evidence)
      ∷ (text "lifecycle", lifecycle_json relation.lifecycle)
      ∷ [])

  abbrev pub version_of :
      Relation
      → BindingId
      → Timestamp
      → RelationVersionId
      → Fingerprint
      → SchemaVersion
      → RelationVersion
  version_of relation binding_id at id hashed schema = record {
    relation_version_id = id;
    relation_id = relation.relation_id;
    observed_at = at;
    normalized_snapshot = snapshot relation;
    fingerprint = hashed;
    schema_version = schema;
    origin = OriginRef.binding binding_id;
  }

  unfoldable pub relation_version :
      Relation → BindingId → Timestamp → Result DomainError RelationVersion
  relation_version relation binding_id at = do
    id ←
        string_value "RelationVersionId"
          (text "binding-relation-version:" ++ (relation.relation_id ++ (text ":" ++ decimal at)))
    hashed ← fingerprint (snapshot relation)
    schema ← schema_version 1
    ok (version_of relation binding_id at id hashed schema)

  unfoldable pub relation_versions :
      BindingId → Timestamp → List Relation → Result DomainError (List RelationVersion)
  relation_versions binding_id at [] = ok []
  relation_versions binding_id at (relation ∷ rest) = do
    version ← relation_version relation binding_id at
    versions ← relation_versions binding_id at rest
    ok (version ∷ versions)

  unfoldable pub binding_commit :
      Option Binding → Binding → Timestamp → Result DomainError BindingCommit
  binding_commit previous binding at = do
    replaced ← replaced_relations previous binding at
    current ← configured_relation binding (relation_lifecycle binding.status) at
    versions ← relation_versions binding.binding_id at (replaced ++ current ∷ [])
    fields ← binding_changes previous binding
    changes ← commit_changes binding at fields
    ok (assemble binding replaced current versions changes)
