-- ===== src/Inference/Tests.antt =====
-- The theorems of the inference engine at concrete inputs.
use next_infra.Base.{
  ℕ, Text, Result, true, List, [], ◌∷◌, none, some, text_eq, ok, err, if◌then◌else◌, ◌==◌,
}
use next_infra.Core.Ids.{ResourceId}
use next_infra.Core.Status.{Lifecycle, ResourceHealth, InferenceRunStatus}
use next_infra.Core.Evidence.{RelationEvidence}
use next_infra.Core.Json.{null}
use next_infra.Core.Hashing.{Hashing}
use next_infra.Core.Model.{Resource, Relation, InferenceRun}
use next_infra.Core.Ports.{InferenceStore, InferenceCommit}
use next_infra.Inference.Candidates.{InferenceCandidate, InferenceError, digest}
use next_infra.Inference.Engine.{plan_run, run_inference}

abbrev resource : ResourceId → Resource
resource id = record {
  resource_id = id;
  connection_id = b'c' ∷ [];
  kind = b'a' ∷ b'.' ∷ b'b' ∷ [];
  external_id = id;
  name = id;
  display_name = id;
  scope = b's' ∷ [];
  labels = [];
  lifecycle = Lifecycle.active;
  health = ResourceHealth.healthy;
  attributes = null;
  attribute_schema_version = 1;
  fingerprint = b'f' ∷ [];
  first_seen_at = 1;
  last_seen_at = 1;
  last_changed_at = 1;
  last_sync_run_id = b'1' ∷ [];
}

-- A relation that the rule inferred before.
abbrev old : Relation
old = record {
  relation_id = b'o' ∷ [];
  source_resource_id = b'p' ∷ [];
  target_resource_id = b'r' ∷ [];
  kind = b'k' ∷ b'.' ∷ b'l' ∷ [];
  evidence_key = b'e' ∷ [];
  evidence = RelationEvidence.inferred (b'1' ∷ []) ((b'v' ∷ []) ∷ []) [] 50;
  first_seen_at = 1;
  last_seen_at = 1;
  lifecycle = Lifecycle.active;
}

-- Every resource but `x` exists and is active, and every version exists. The store keeps what it
-- was last given.
abbrev memory : InferenceStore (List Relation) ℕ
memory = record {
  reader = record {
    get_connection = λ s id. ok none;
    get_resource = λ s id. ok (if id == b'x' ∷ [] then none else some (resource id));
    get_relation = λ s id. ok none;
    latest_relation_version_fingerprint = λ s id. ok none;
    get_sync_run = λ s id. ok none;
    sync_cursor = λ s id. ok none;
    list_resources_for_scope = λ s id scope. ok [];
    missing_evidence_state = λ s id scope. ok none;
  };
  resource_version_exists = λ s id. ok true;
  relation_version_exists = λ s id. ok true;
  inferred_relations_for_rule = λ s rule. ok s;
  commit_inference = λ s commit. (ok tt, commit.relations);
}

abbrev hashing : Hashing
hashing = record { to_vec = λ value. ok (171 ∷ []); digest = λ bytes. bytes }

abbrev candidate_to : ResourceId → InferenceCandidate
candidate_to target = record {
  source_resource_id = b'p' ∷ [];
  target_resource_id = target;
  kind = b'k' ∷ b'.' ∷ b'l' ∷ [];
  input_resource_version_ids = (b'v' ∷ []) ∷ [];
  input_relation_version_ids = [];
  confidence = 90;
}

abbrev no_commit : InferenceCommit
no_commit = record {
  run = record {
    inference_run_id = [];
    rule_version = [];
    started_at = 0;
    finished_at = none;
    status = InferenceRunStatus.running;
    input_resource_version_ids = [];
    input_relation_version_ids = [];
    output_relation_ids = [];
  };
  relations = [];
  relation_versions = [];
  changes = [];
}

abbrev or_none : Result (InferenceError ℕ) InferenceCommit → InferenceCommit
or_none (ok commit) = commit
or_none (err e) = no_commit

abbrev rules : List Text
rules = (b'1' ∷ []) ∷ []

abbrev planned : List InferenceCandidate → Result (InferenceError ℕ) InferenceCommit
planned candidates = plan_run hashing memory (old ∷ []) rules (b'1' ∷ []) candidates 5 (b'u' ∷ [])

abbrev run : List InferenceCandidate → Result (InferenceError ℕ) InferenceRun × List Relation
run candidates = run_inference hashing memory (old ∷ []) rules (b'1' ∷ []) candidates 5 (b'u' ∷ [])

abbrev written : InferenceCommit
written = or_none (planned (candidate_to (b'q' ∷ []) ∷ []))
