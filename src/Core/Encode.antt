-- ===== src/Core/Encode.antt =====
-- The `Serialize` implementations that serde derives from the attributes of the core types.
use next_infra.Base.{[], ◌∷◌, Text, text, BTreeMap}
use next_infra.Core.Ids.{LabelKey}
use next_infra.Core.Json.{
  Value, number, string, object, Number, Members, end, member, json_object, json_strings,
}
use next_infra.Core.Status.{Lifecycle, ResourceHealth, BindingStatus}
use next_infra.Core.Evidence.{RelationEvidence}

unfoldable pub lifecycle_json : Lifecycle → Value
lifecycle_json Lifecycle.active = string (text "active")
lifecycle_json Lifecycle.tombstoned = string (text "tombstoned")
lifecycle_json Lifecycle.orphaned = string (text "orphaned")

unfoldable pub health_json : ResourceHealth → Value
health_json ResourceHealth.healthy = string (text "healthy")
health_json ResourceHealth.degraded = string (text "degraded")
health_json ResourceHealth.unhealthy = string (text "unhealthy")
health_json ResourceHealth.unknown = string (text "unknown")

unfoldable pub binding_status_json : BindingStatus → Value
binding_status_json BindingStatus.active = string (text "active")
binding_status_json BindingStatus.unresolved = string (text "unresolved")
binding_status_json BindingStatus.disabled = string (text "disabled")

unfoldable pub label_members : BTreeMap LabelKey Text → Members
label_members [] = end
label_members ((key, value) ∷ labels) = member key (string value) (label_members labels)

unfoldable pub labels_json : BTreeMap LabelKey Text → Value
unfolding label_members
labels_json labels = object (label_members labels)

-- `#[serde(tag = "type", rename_all = "snake_case")]`
unfoldable pub evidence_json : RelationEvidence → Value
evidence_json (RelationEvidence.provider connection_id sync_run_id field_path) = json_object (
    (text "type", string (text "provider"))
    ∷ (text "connection_id", string connection_id)
    ∷ (text "sync_run_id", string sync_run_id)
    ∷ (text "field_path", string field_path)
    ∷ [])
evidence_json (RelationEvidence.configured binding_id) =
    json_object
      ((text "type", string (text "configured")) ∷ (text "binding_id", string binding_id) ∷ [])
evidence_json (RelationEvidence.inferred rule resources relations confidence) = json_object (
    (text "type", string (text "inferred"))
    ∷ (text "rule_version", string rule)
    ∷ (text "input_resource_version_ids", json_strings resources)
    ∷ (text "input_relation_version_ids", json_strings relations)
    ∷ (text "confidence", number (Number.unsigned confidence))
    ∷ [])
