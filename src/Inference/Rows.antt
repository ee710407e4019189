-- ===== src/Inference/Rows.antt =====
-- The version and the change of an inferred relation.
use next_infra.Base.{[], ◌∷◌, ◌++◌, Option, some, text, decimal, Result, ok, err, ◌>>=◌}
use mathlib.Core.Option
use next_infra.Core.Error.{DomainError, invalid_value}
use next_infra.Core.Ids.{Timestamp, string_value, schema_version}
use next_infra.Core.Evidence.{RelationEvidence, OriginRef}
use next_infra.Core.Hashing.{Hashing}
use next_infra.Core.Json.{Value, string, json_object}
use next_infra.Core.Encode.{lifecycle_json, evidence_json}
use next_infra.Core.Model.{Relation, RelationVersion, Change, ChangeSubject}
use next_infra.Inference.Candidates.{digest}

unfoldable pub relation_snapshot : Relation → Value
relation_snapshot relation = json_object (
    (text "source_resource_id", string relation.source_resource_id)
    ∷ (text "target_resource_id", string relation.target_resource_id)
    ∷ (text "kind", string relation.kind)
    ∷ (text "evidence", evidence_json relation.evidence)
    ∷ (text "lifecycle", lifecycle_json relation.lifecycle)
    ∷ [])

-- The rule and the inputs of the evidence, as an origin.
unfoldable pub inference_origin : RelationEvidence → Result DomainError OriginRef
inference_origin (RelationEvidence.inferred rule resources relations confidence) =
    ok (OriginRef.inference rule resources relations)
inference_origin (RelationEvidence.provider connection_id run field_path) =
    err (invalid_value (text "inference output has non-inferred evidence"))
inference_origin (RelationEvidence.configured binding_id) =
    err (invalid_value (text "inference output has non-inferred evidence"))

module _ (hashing : Hashing) where
  unfoldable pub relation_version : Relation → Timestamp → Result DomainError RelationVersion
  relation_version relation at = do
    origin ← inference_origin relation.evidence
    id ←
        string_value "RelationVersionId"
          (text "inference-relation-version:" ++ (relation.relation_id ++ (text ":" ++ decimal at)))
    hashed ← digest hashing (relation_snapshot relation)
    fingerprint ← string_value "Fingerprint" (text "sha256:" ++ hashed)
    schema ← schema_version 1
    ok (record {
      relation_version_id = id;
      relation_id = relation.relation_id;
      observed_at = at;
      normalized_snapshot = relation_snapshot relation;
      fingerprint = fingerprint;
      schema_version = schema;
      origin = origin;
    })

unfoldable pub relation_change : Option Relation → Relation → Timestamp → Result DomainError Change
relation_change previous relation at = do
  origin ← inference_origin relation.evidence
  id ←
      string_value "ChangeId"
        (text "inference-change:" ++ (relation.relation_id ++ (text ":" ++ decimal at)))
  path ← string_value "FieldPath" (text "relation.snapshot")
  ok (record {
    change_id = id;
    subject = ChangeSubject.relation relation.relation_id;
    observed_at = at;
    fields =
        record {
          path = path;
          before = Option.map relation_snapshot previous;
          after = some (relation_snapshot relation);
        }
        ∷ [];
    origin = origin;
  })
