-- ===== src/Sync/Tests/Builds.antt =====
-- What `build_commit` answers in the store of the fixture.
use next_infra.Base.{
  ℕ, ◌+◌, ◌<◌, ◌^◌, arith, length, [], none, Result, ok, err, ◌≡◌, refl, text, trim, is_whitespace,
  Text-discrete, ℕ_discrete, contains,
}
use next_infra.Base.Texts.{trim_start, text_lt}
use next_infra.Base.Maps.{insert, remove, get, set_insert}
use next_infra.Core.Json.{
  insert_fields, insert_member, get_member, get_field, json_object, Value-discrete, json_strings,
  values_of,
}
use next_infra.Core.Encode.{label_members, labels_json, lifecycle_json, health_json, evidence_json}
use next_infra.Core.Ids.{string_value, schema_version}
use next_infra.Core.Status.{Lifecycle-discrete}
use next_infra.Core.MissingEvidence.{count_for, new_state}
use next_infra.Core.Ports.{SyncCommit}
use next_infra.Sync.Project.{tombstone_resource, project_resource, project_relation}
use next_infra.Sync.Identity.{
  change_id, stable_resource_id, stable_relation_id, resource_version_id, relation_version_id,
  next_schema_version,
}
use next_infra.Sync.Changes.{
  resource_snapshot, relation_snapshot, OptionValue-discrete, same_field, diff_fields,
  resource_diff, relation_diff, change_fields, resource_change, relation_change,
}
use next_infra.Sync.Build.Resources.{
  resource_version, record_resource, count_resource, apply_resource, observe_resource,
  observe_resources,
}
use next_infra.Sync.Build.Relations.{
  ensure_relation_endpoint, relation_version, record_relation, count_relation, apply_relation,
  read_and_apply, check_and_apply, observe_relation, observe_relations,
}
use next_infra.Sync.Build.Absences.{
  forget_observed, tombstone_change, missing_count, counted_state, count_missing, observe_missing,
  observe_absences,
}
use next_infra.Sync.Build.Commit.{run_warning, count_absences, build_commit}
use next_infra.Sync.Build.Draft.{EngineError}
use next_infra.Sync.Tests.Fixture.{reader, store, handle, shown, interrupted, find_row}

abbrev or_empty : Result (EngineError ℕ) SyncCommit → SyncCommit
or_empty (ok c) = c
or_empty (err e) = record {
  sync_run = handle.run;
  resources = [];
  resource_versions = [];
  relations = [];
  relation_versions = [];
  changes = [];
  cursor_after = none;
  missing_evidence = none;
}

abbrev pub built : SyncCommit
built = or_empty (build_commit reader store handle shown 9)

abbrev pub built_interrupted : SyncCommit
built_interrupted = or_empty (build_commit reader store handle interrupted 9)

pub shown-builds : build_commit reader store handle shown 9 ≡ ok built
unfolding build_commit count_absences observe_resources observe_relations forget_observed
    tombstone_change missing_count counted_state count_missing observe_missing observe_absences
    resource_snapshot relation_snapshot OptionValue-discrete same_field diff_fields resource_diff
    relation_diff change_fields resource_change relation_change change_id tombstone_resource
    count_for new_state Lifecycle-discrete string_value label_members labels_json lifecycle_json
    health_json evidence_json insert_fields insert_member get_member get_field json_object
    json_strings values_of Value-discrete insert remove get set_insert trim_start text_lt text trim
    is_whitespace Text-discrete ℕ_discrete contains find_row resource_version record_resource
    count_resource apply_resource observe_resource ensure_relation_endpoint relation_version
    record_relation count_relation apply_relation read_and_apply check_and_apply observe_relation
    project_resource project_relation stable_resource_id stable_relation_id resource_version_id
    relation_version_id next_schema_version schema_version run_warning
shown-builds = refl

pub built-small : length built.resources + length built.relations < 2 ^ 64
unfolding build_commit count_absences observe_resources observe_relations forget_observed
    tombstone_change missing_count counted_state count_missing observe_missing observe_absences
    resource_snapshot relation_snapshot OptionValue-discrete same_field diff_fields resource_diff
    relation_diff change_fields resource_change relation_change change_id tombstone_resource
    count_for new_state Lifecycle-discrete string_value label_members labels_json lifecycle_json
    health_json evidence_json insert_fields insert_member get_member get_field json_object
    json_strings values_of Value-discrete insert remove get set_insert trim_start text_lt text trim
    is_whitespace Text-discrete ℕ_discrete contains find_row resource_version record_resource
    count_resource apply_resource observe_resource ensure_relation_endpoint relation_version
    record_relation count_relation apply_relation read_and_apply check_and_apply observe_relation
    project_resource project_relation stable_resource_id stable_relation_id resource_version_id
    relation_version_id next_schema_version schema_version run_warning
built-small = omega arith

pub interrupted-builds : build_commit reader store handle interrupted 9 ≡ ok built_interrupted
unfolding build_commit count_absences observe_resources observe_relations resource_snapshot
    relation_snapshot resource_diff relation_diff change_fields resource_change relation_change
    change_id string_value label_members labels_json lifecycle_json health_json evidence_json
    insert_fields insert_member json_object json_strings values_of set_insert trim_start text_lt
    text trim is_whitespace Text-discrete ℕ_discrete contains find_row resource_version
    record_resource count_resource apply_resource observe_resource ensure_relation_endpoint
    relation_version record_relation count_relation apply_relation read_and_apply check_and_apply
    observe_relation project_resource project_relation stable_resource_id stable_relation_id
    resource_version_id relation_version_id next_schema_version schema_version run_warning
interrupted-builds = refl
