-- ===== src/Sync/Changes.antt =====
-- Snapshots, field differences and change records of crates/next-infra-sync/src/engine.rs.
pub mod Diff
use next_infra.Base.{
  ℕ, Bool, true, false, not, ◌&&◌, List, [], ◌∷◌, Option, none, some, Text, text, Result, ok, err,
  ◌>>=◌, if◌then◌else◌, is_yes, Eq, ◌==◌,
}
use mathlib.Core.Option
use next_infra.Core.Error.{DomainError}
use next_infra.Core.Ids.{SyncRunId, Timestamp, FieldPath, string_value}
use next_infra.Core.Json.{
  Value, null, string, number, Number, json_object, get_field, Value-discrete,
}
use next_infra.Core.Encode.{lifecycle_json, health_json, labels_json, evidence_json}
use next_infra.Core.Status.{Lifecycle}
use next_infra.Core.Evidence.{OriginRef}
use next_infra.Core.Model.{Resource, Relation, FieldChange, Change, ChangeSubject}
use next_infra.Sync.Identity.{change_id}
use next_infra.Sync.Project.{is_none}

unfoldable pub resource_snapshot : Resource → Value
resource_snapshot resource = json_object (
    (text "resource_id", string resource.resource_id)
    ∷ (text "connection_id", string resource.connection_id)
    ∷ (text "kind", string resource.kind)
    ∷ (text "external_id", string resource.external_id)
    ∷ (text "name", string resource.name)
    ∷ (text "display_name", string resource.display_name)
    ∷ (text "scope", string resource.scope)
    ∷ (text "labels", labels_json resource.labels)
    ∷ (text "lifecycle", lifecycle_json resource.lifecycle)
    ∷ (text "health", health_json resource.health)
    ∷ (text "attributes", resource.attributes)
    ∷ (text "attribute_schema_version", number (Number.unsigned resource.attribute_schema_version))
    ∷ (text "fingerprint", string resource.fingerprint)
    ∷ [])

unfoldable pub relation_snapshot : Relation → Value
relation_snapshot relation = json_object (
    (text "relation_id", string relation.relation_id)
    ∷ (text "source_resource_id", string relation.source_resource_id)
    ∷ (text "target_resource_id", string relation.target_resource_id)
    ∷ (text "kind", string relation.kind)
    ∷ (text "evidence_key", string relation.evidence_key)
    ∷ (text "evidence", evidence_json relation.evidence)
    ∷ (text "lifecycle", lifecycle_json relation.lifecycle)
    ∷ [])

unfoldable pub OptionValue-discrete : Discrete (Option Value)
OptionValue-discrete = hlevel Value-discrete

unfoldable pub same_field : Option Value → Option Value → Bool
unfolding OptionValue-discrete
same_field old new = is_yes (OptionValue-discrete old new)

-- One pass over the fields: what differs is kept, and its path validated.
unfoldable pub diff_fields : Value → Value → List Text → Result DomainError (List FieldChange)
diff_fields before after [] = ok []
diff_fields before after (field ∷ fields) =
    let old = get_field before field in
    let new = get_field after field in
    let rest = diff_fields before after fields in
    if same_field old new then rest else do
      path ← string_value "FieldPath" field
      changes ← rest
      ok (record { path = path; before = old; after = new } ∷ changes)

abbrev pub resource_fields : List Text
resource_fields =
    text "name"
    ∷ text "display_name"
    ∷ text "scope"
    ∷ text "labels"
    ∷ text "lifecycle"
    ∷ text "health"
    ∷ text "attributes"
    ∷ text "attribute_schema_version"
    ∷ text "fingerprint"
    ∷ []

unfoldable pub resource_diff : Option Resource → Resource → Result DomainError (List FieldChange)
unfolding diff_fields
resource_diff none resource = do
  path ← string_value "FieldPath" (text "resource")
  ok (record { path = path; before = none; after = some (resource_snapshot resource) } ∷ [])
resource_diff (some existing) resource =
    diff_fields (resource_snapshot existing) (resource_snapshot resource) resource_fields

unfoldable pub relation_diff : Option Relation → Relation → Result DomainError (List FieldChange)
unfolding diff_fields
relation_diff none relation = do
  path ← string_value "FieldPath" (text "relation")
  ok (record { path = path; before = none; after = some (relation_snapshot relation) } ∷ [])
relation_diff (some existing) relation =
    diff_fields (relation_snapshot existing) (relation_snapshot relation)
      (text "evidence" ∷ text "lifecycle" ∷ [])

-- `json!` of an `Option<Lifecycle>`.
abbrev optional_lifecycle_json : Option Lifecycle → Value
optional_lifecycle_json none = null
optional_lifecycle_json (some lifecycle) = lifecycle_json lifecycle

abbrev no_fields : List FieldChange → Bool
no_fields [] = true
no_fields (field ∷ fields) = false

-- The fields of a change: a row that exists and differs in no listed field reports its lifecycle.
unfoldable pub change_fields :
    Option Lifecycle → Lifecycle → List FieldChange → Result DomainError (List FieldChange)
change_fields existing lifecycle fields =
    if no_fields fields && not (is_none existing)
    then (do
      path ← string_value "FieldPath" (text "lifecycle")
      ok (
          record {
            path = path;
            before = some (optional_lifecycle_json existing);
            after = some (lifecycle_json lifecycle);
          }
          ∷ []))
    else ok fields

unfoldable pub resource_change :
    Resource
    → Option Resource
    → List FieldChange
    → SyncRunId
    → Timestamp
    → Result DomainError Change
unfolding change_fields
resource_change resource existing fields sync_run_id observed_at = do
  id ← change_id resource.resource_id sync_run_id
  reported ← change_fields (Option.map (λ old. old.lifecycle) existing) resource.lifecycle fields
  ok (record {
    change_id = id;
    subject = ChangeSubject.resource resource.resource_id;
    observed_at = observed_at;
    fields = reported;
    origin = OriginRef.sync_run sync_run_id;
  })

unfoldable pub relation_change :
    Relation
    → Option Relation
    → List FieldChange
    → SyncRunId
    → Timestamp
    → Result DomainError Change
unfolding change_fields
relation_change relation existing fields sync_run_id observed_at = do
  id ← change_id relation.relation_id sync_run_id
  reported ← change_fields (Option.map (λ old. old.lifecycle) existing) relation.lifecycle fields
  ok (record {
    change_id = id;
    subject = ChangeSubject.relation relation.relation_id;
    observed_at = observed_at;
    fields = reported;
    origin = OriginRef.sync_run sync_run_id;
  })
