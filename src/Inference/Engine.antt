-- ===== src/Inference/Engine.antt =====
-- `InferenceEngine`: what a run of a rule infers, and the commit that it writes.
pub mod Valid
pub mod Made
pub mod Covered
pub mod Plans
pub mod Runs
use next_infra.Base.{
  ℕ, ◌+◌, Bool, true, false, not, ◌||◌, List, [], ◌∷◌, ◌++◌, contains, length, Option, none, some,
  Text, text, text_eq, text_lt, text_ord, BTreeMap, values, keys, Result, ok, err, ◌>>=◌, ◌>>◌,
  map_err, reject_if, if◌then◌else◌, ltb, ◌==◌, ◌!=◌,
}
use next_infra.Base.Maps.{get, insert, set_insert}
use next_infra.Core.Error.{DomainError}
use next_infra.Core.Ids.{
  ResourceId, ResourceVersionId, RelationId, RelationVersionId, RuleVersion, Timestamp,
  string_value,
}
use next_infra.Core.Status.{Lifecycle, lifecycle_eq, InferenceRunStatus}
use next_infra.Core.Hashing.{Hashing}
use next_infra.Core.Model.{Resource, Relation, RelationVersion, Change, InferenceRun, relation_eq}
use next_infra.Core.Ports.{InferenceStore, InferenceCommit}
use next_infra.Inference.Candidates.{
  InferenceCandidate, InferenceError, store_error, invalid, rule_not_registered,
  input_version_missing, candidate_limit, conflicting_output, normalize_candidate,
  candidate_relation_id, inferred_relation,
}
use next_infra.Inference.Rows.{relation_version, relation_change}

abbrev pub max_inference_candidates : ℕ
max_inference_candidates = 1000

-- What the loop over the candidates has collected.
pub record Produced : Type 0 where
  pub relations : BTreeMap RelationId Relation
  pub resource_inputs : List ResourceVersionId
  pub relation_inputs : List RelationVersionId

abbrev pub nothing_produced : Produced
nothing_produced = record { relations = []; resource_inputs = []; relation_inputs = [] }

-- `BTreeSet::extend`
unfoldable pub extend : List Text → List Text → List Text
extend set [] = set
extend set (x ∷ xs) = extend (set_insert set x) xs

abbrev pub is_active : Option Resource → Bool
is_active none = false
is_active (some resource) = resource.lifecycle == Lifecycle.active

unfoldable pub by_id : BTreeMap RelationId Relation → List Relation → BTreeMap RelationId Relation
by_id map [] = map
by_id map (relation ∷ relations) = by_id (insert map relation.relation_id relation) relations

-- What is kept of a relation, beside what was produced before.
abbrev pub keep :
    {E : Type 0}
    → BTreeMap RelationId Relation
    → Relation
    → Option Relation
    → Result (InferenceError E) (BTreeMap RelationId Relation)
keep produced relation none = ok (insert produced relation.relation_id relation)
keep produced relation (some previous) =
    if previous != relation then err conflicting_output else ok produced

abbrev pub tombstone : Relation → Timestamp → Relation
tombstone old at = record old { lifecycle = Lifecycle.tombstoned; last_seen_at = at }

abbrev pub is_some : {A : Type 0} → Option A → Bool
is_some none = false
is_some (some a) = true

-- The stored relations that the rule no longer infers.
unfoldable pub tombstones : List Relation → BTreeMap RelationId Relation → Timestamp → List Relation
tombstones [] produced at = []
tombstones (old ∷ existing) produced at =
    let rest = tombstones existing produced at in
    if is_some (get produced old.relation_id) || (old.lifecycle == Lifecycle.tombstoned)
    then rest
    else tombstone old at ∷ rest

-- `sort_by_key` of the identifiers, which is stable.
unfoldable pub insert_by_id : Relation → List Relation → List Relation
insert_by_id relation [] = relation ∷ []
insert_by_id relation (other ∷ others) =
    let rest = insert_by_id relation others in
    if text_lt other.relation_id relation.relation_id
    then other ∷ rest
    else relation ∷ other ∷ others

unfoldable pub sort_by_id : List Relation → List Relation
sort_by_id [] = []
sort_by_id (relation ∷ relations) = insert_by_id relation (sort_by_id relations)

abbrev pub unchanged : Option Relation → Relation → Bool
unchanged none relation = false
unchanged (some previous) relation = previous == relation

module _ (hashing : Hashing) where
  -- A version and a change of each relation that is not stored as it is.
  unfoldable pub report :
      BTreeMap RelationId Relation
      → Timestamp
      → List Relation
      → Result DomainError (List RelationVersion × List Change)
  report existing at [] = ok ([], [])
  report existing at (relation ∷ relations) =
      let rest = report existing at relations in
      if unchanged (get existing relation.relation_id) relation then rest else (do
        version ← relation_version hashing relation at
        change ← relation_change (get existing relation.relation_id) relation at
        rows ← rest
        ok (version ∷ rows.0, change ∷ rows.1))

module _ {S E : Type 0} (hashing : Hashing) (store : InferenceStore S E) where
  unfoldable pub validate_ids :
      (S → Text → Result E Bool) → S → List Text → Result (InferenceError E) (Unit {0})
  validate_ids exists s [] = ok tt
  validate_ids exists s (id ∷ ids) = do
    found ← map_err store_error (exists s id)
    reject_if (not found) input_version_missing
    validate_ids exists s ids

  unfoldable pub validate_candidate : S → InferenceCandidate → Result (InferenceError E) (Unit {0})
  unfolding validate_ids
  validate_candidate s candidate = do
    source ← map_err store_error (store.reader.get_resource s candidate.source_resource_id)
    target ← map_err store_error (store.reader.get_resource s candidate.target_resource_id)
    reject_if (not (is_active source) || not (is_active target)) input_version_missing
    validate_ids store.resource_version_exists s candidate.input_resource_version_ids
    validate_ids store.relation_version_exists s candidate.input_relation_version_ids

  -- One candidate.
  unfoldable pub infer :
      S
      → RuleVersion
      → Timestamp
      → BTreeMap RelationId Relation
      → Produced
      → InferenceCandidate
      → Result (InferenceError E) Produced
  infer s rule_version at existing produced raw = do
    candidate ← map_err invalid (normalize_candidate raw)
    validate_candidate s candidate
    relation_id ← map_err invalid (candidate_relation_id hashing rule_version candidate)
    relation ←
        map_err invalid
          (inferred_relation hashing rule_version candidate at (get existing relation_id))
    relations ← keep produced.relations relation (get produced.relations relation.relation_id)
    ok (record {
      relations = relations;
      resource_inputs = extend produced.resource_inputs candidate.input_resource_version_ids;
      relation_inputs = extend produced.relation_inputs candidate.input_relation_version_ids;
    })

  unfoldable pub infer_all :
      S
      → RuleVersion
      → Timestamp
      → BTreeMap RelationId Relation
      → Produced
      → List InferenceCandidate
      → Result (InferenceError E) Produced
  infer_all s rule_version at existing produced [] = ok produced
  infer_all s rule_version at existing produced (candidate ∷ candidates) = do
    produced' ← infer s rule_version at existing produced candidate
    infer_all s rule_version at existing produced' candidates

  abbrev pub completed : RuleVersion → Timestamp → Produced → Text → InferenceRun
  completed rule_version at produced run_id = record {
    inference_run_id = run_id;
    rule_version = rule_version;
    started_at = at;
    finished_at = some at;
    status = InferenceRunStatus.completed;
    input_resource_version_ids = produced.resource_inputs;
    input_relation_version_ids = produced.relation_inputs;
    output_relation_ids = keys produced.relations;
  }

  -- What a run does before it writes. The text of the uuid is an argument.
  unfoldable pub plan_run :
      S
      → List RuleVersion
      → RuleVersion
      → List InferenceCandidate
      → Timestamp
      → Text
      → Result (InferenceError E) InferenceCommit
  plan_run s registered_rules rule_version candidates at uuid = do
    reject_if (not (contains registered_rules rule_version)) rule_not_registered
    reject_if (ltb max_inference_candidates (length candidates)) candidate_limit
    existing ← map_err store_error (store.inferred_relations_for_rule s rule_version)
    produced ← infer_all s rule_version at (by_id [] existing) nothing_produced candidates
    let relations =
        sort_by_id (values produced.relations ++ tombstones existing produced.relations at)
    run_id ← map_err invalid (string_value "InferenceRunId" (text "inference-run:v1:" ++ uuid))
    rows ← map_err invalid (report hashing (by_id [] existing) at relations)
    ok (record {
      run = completed rule_version at produced run_id;
      relations = relations;
      relation_versions = rows.0;
      changes = rows.1;
    })

  abbrev commit_run :
      S → Result (InferenceError E) InferenceCommit → Result (InferenceError E) InferenceRun × S
  commit_run s (err error) = (err error, s)
  commit_run s (ok commit) =
      let (committed, s') = store.commit_inference s commit in
      (map_err store_error (committed >>= λ _. ok commit.run), s')

  unfoldable pub run_inference :
      S
      → List RuleVersion
      → RuleVersion
      → List InferenceCandidate
      → Timestamp
      → Text
      → Result (InferenceError E) InferenceRun × S
  run_inference s registered_rules rule_version candidates at uuid =
      commit_run s (plan_run s registered_rules rule_version candidates at uuid)
