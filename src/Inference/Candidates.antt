-- ===== src/Inference/Candidates.antt =====
-- Candidates of a rule, and the relation that a candidate stands for.
use next_infra.Base.{
  Bool, true, false, ◌&&◌, List, [], ◌∷◌, ◌++◌, Option, none, some, Text, text, text_eq, text_ord,
  Result, ok, ◌>>=◌, ◌>>◌, map_err, reject_if, ◌==◌,
}
use next_infra.Base.Maps.{collect}
use next_infra.Core.Error.{DomainError, invalid_value}
use next_infra.Core.Ids.{
  ResourceId, ResourceVersionId, RelationId, RelationVersionId, RelationKind, RuleVersion,
  EvidenceKey, Confidence, Timestamp, string_value,
}
use next_infra.Core.Status.{Lifecycle}
use next_infra.Core.Evidence.{RelationEvidence}
use next_infra.Core.Hashing.{Hashing, hex}
use next_infra.Core.Json.{Value, string, json_object, json_strings}
use next_infra.Core.Model.{Relation}

pub record InferenceCandidate : Type 0 where
  pub source_resource_id : ResourceId
  pub target_resource_id : ResourceId
  pub kind : RelationKind
  pub input_resource_version_ids : List ResourceVersionId
  pub input_relation_version_ids : List RelationVersionId
  pub confidence : Confidence

pub data InferenceError (E : Type 0) : Type 0 where
  store_error : E → InferenceError E
  invalid : DomainError → InferenceError E
  rule_not_registered input_version_missing candidate_limit : InferenceError E
  conflicting_output : InferenceError E

abbrev pub no_inputs : List Text → Bool
no_inputs [] = true
no_inputs (id ∷ ids) = false

-- The candidate with its inputs sorted and freed of repeats.
abbrev pub sorted_inputs : InferenceCandidate → InferenceCandidate
sorted_inputs candidate = record candidate {
  input_resource_version_ids = collect candidate.input_resource_version_ids;
  input_relation_version_ids = collect candidate.input_relation_version_ids;
}

unfoldable pub normalize_candidate : InferenceCandidate → Result DomainError InferenceCandidate
normalize_candidate candidate = do
  reject_if (candidate.source_resource_id == candidate.target_resource_id)
      (invalid_value (text "inference source and target must be different"))
  let normalized = sorted_inputs candidate
  reject_if
      (no_inputs normalized.input_resource_version_ids
        && no_inputs normalized.input_relation_version_ids)
      (invalid_value (text "inference requires versioned inputs"))
  ok normalized

abbrev pub first_seen : Option Relation → Timestamp → Timestamp
first_seen none at = at
first_seen (some relation) at = relation.first_seen_at

module _ (hashing : Hashing) where
  unfoldable pub digest : Value → Result DomainError Text
  digest value = do
    bytes ←
        map_err (λ _. invalid_value (text "inference value cannot be encoded"))
          (hashing.to_vec value)
    ok (hex (hashing.digest bytes))

  unfoldable pub candidate_digest : RuleVersion → InferenceCandidate → Result DomainError Text
  candidate_digest rule_version candidate = digest (
      json_object (
        (text "rule_version", string rule_version)
        ∷ (text "source_resource_id", string candidate.source_resource_id)
        ∷ (text "target_resource_id", string candidate.target_resource_id)
        ∷ (text "kind", string candidate.kind)
        ∷ (text "input_resource_version_ids", json_strings candidate.input_resource_version_ids)
        ∷ (text "input_relation_version_ids", json_strings candidate.input_relation_version_ids)
        ∷ []))

  unfoldable pub candidate_relation_id :
      RuleVersion → InferenceCandidate → Result DomainError RelationId
  candidate_relation_id rule_version candidate = do
    hashed ← candidate_digest rule_version candidate
    string_value "RelationId" (text "inferred-relation:" ++ hashed)

  unfoldable pub candidate_evidence_key :
      RuleVersion → InferenceCandidate → Result DomainError EvidenceKey
  candidate_evidence_key rule_version candidate = do
    hashed ← candidate_digest rule_version candidate
    string_value "EvidenceKey" (text "inference:" ++ hashed)

  abbrev relation_of :
      RuleVersion
      → InferenceCandidate
      → Timestamp
      → Option Relation
      → RelationId
      → EvidenceKey
      → Relation
  relation_of rule_version candidate at existing relation_id evidence_key = record {
    relation_id = relation_id;
    source_resource_id = candidate.source_resource_id;
    target_resource_id = candidate.target_resource_id;
    kind = candidate.kind;
    evidence_key = evidence_key;
    evidence =
        RelationEvidence.inferred rule_version candidate.input_resource_version_ids
          candidate.input_relation_version_ids candidate.confidence;
    first_seen_at = first_seen existing at;
    last_seen_at = at;
    lifecycle = Lifecycle.active;
  }

  unfoldable pub inferred_relation :
      RuleVersion → InferenceCandidate → Timestamp → Option Relation → Result DomainError Relation
  inferred_relation rule_version candidate at existing = do
    relation_id ← candidate_relation_id rule_version candidate
    evidence_key ← candidate_evidence_key rule_version candidate
    ok (relation_of rule_version candidate at existing relation_id evidence_key)
