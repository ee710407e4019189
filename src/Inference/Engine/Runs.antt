-- ===== src/Inference/Engine/Runs.antt =====
-- `run_inference`: what it plans, writes and answers.
use mathlib.Core.List.{Memᴰ}
use mathlib.Core.List.Memᴰ
use next_infra.Base.{Bool, not, List, [], map, filter, All, some, text_eq, text_ord, ◌≡◌, ◌⊎◌}
use next_infra.Base.Maps.{get}
use next_infra.Core.Ids.{RelationId, RuleVersion, Timestamp}
use next_infra.Core.Json.{Value}
use next_infra.Core.Status.{InferenceRunStatus}
use next_infra.Core.Hashing.{Hashing}
use next_infra.Core.Model.{Relation, RelationVersion, Change, ChangeSubject, relation_eq}
use next_infra.Core.Ports.{InferenceStore, InferenceCommit}
use next_infra.Inference.Candidates.{InferenceCandidate}
use next_infra.Inference.Rows.{relation_snapshot}
use next_infra.Inference.Engine.{by_id, unchanged}
use next_infra.Inference.Engine.Made.{Inferred}
use next_infra.Inference.Engine.Covered.{Covered}
use next_infra.Inference.Engine.Plans.{Retired, Settled}

-- The relations that are not stored as they are.
abbrev is_changed : List Relation → Relation → Bool
is_changed existing r = not (unchanged (get (by_id [] existing) r.relation_id) r)

abbrev pub changed : List Relation → List Relation → List Relation
changed existing relations = filter (is_changed existing) relations

abbrev version_row : RelationVersion → RelationId × Value
version_row v = (v.relation_id, v.normalized_snapshot)

abbrev relation_row : Relation → RelationId × Value
relation_row r = (r.relation_id, relation_snapshot r)

-- One version and one change for each of these relations, in their order.
pub record Reports (relations : List Relation) (versions : List RelationVersion)
    (changes : List Change) : Type 0 where
  pub snapshots : map version_row versions ≡ map relation_row relations
  pub subjects :
      map (λ (c : Change). c.subject) changes
      ≡ map (λ (r : Relation). ChangeSubject.relation r.relation_id) relations

module _ {S E : Type 0} (hashing : Hashing) (store : InferenceStore S E) where
  -- What a run writes, given the relations that the store has of its rule. Its outputs are the ids of
  -- the relations inferred, and every candidate is covered by them.
  pub record Accounted (s : S) (rule : RuleVersion) (candidates : List InferenceCandidate)
      (at : Timestamp) (existing : List Relation) (commit : InferenceCommit) : Type 0 where
    pub inferred : List Relation
    pub outputs : commit.run.output_relation_ids ≡ map (λ (r : Relation). r.relation_id) inferred
    pub are_inferred :
        All (Inferred hashing store s rule at (by_id [] existing) candidates) inferred
    pub are_written : All (λ r. Memᴰ r commit.relations) inferred
    pub covers :
        All
          (Covered hashing store s rule at
            (by_id [] existing)
            candidates
            commit.run.output_relation_ids
            commit.run.input_resource_version_ids
            commit.run.input_relation_version_ids)
          candidates
    pub written :
        All
          (λ r. Memᴰ r inferred ⊎ Retired existing commit.run.output_relation_ids at r)
          commit.relations
    pub settled : All (Settled commit.run.output_relation_ids commit.relations at) existing
    pub reports :
        Reports (changed existing commit.relations) commit.relation_versions commit.changes
    pub ruled : commit.run.rule_version ≡ rule
    pub started : commit.run.started_at ≡ at
    pub finished : commit.run.finished_at ≡ some at
    pub completes : commit.run.status ≡ InferenceRunStatus.completed
