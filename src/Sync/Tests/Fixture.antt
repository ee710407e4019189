-- ===== src/Sync/Tests/Fixture.antt =====
-- The `FakeStore` of crates/next-infra-sync/src/engine.rs, and rows for it.
use next_infra.Base.{
  ℕ, suc, Bool, false, List, [], ◌∷◌, Option, none, some, Text, text_eq, ok, err, if◌then◌else◌,
  ◌==◌,
}
use next_infra.Core.Ids.{ResourceId}
use next_infra.Core.Json.{null}
use next_infra.Core.Status.{Lifecycle, ResourceHealth, SyncMode, SyncTrigger, SyncRunStatus}
use next_infra.Core.Coverage.{SyncCoverage, CoverageGapReason}
use next_infra.Core.Evidence.{RelationEvidence}
use next_infra.Core.Model.{Resource}
use next_infra.Core.MissingEvidence.{MissingEvidenceState}
use next_infra.Core.Ports.{CommitResult, StoreReader, StoreWriter}
use next_infra.Core.Model.{ResourceKey}
use next_infra.Normalizer.Batch.{ValidatedBatch, ValidatedResource, ValidatedRelation}
use next_infra.Sync.Guards.{SyncRunHandle}
use next_infra.Sync.Build.Commit.{zero_counts}

pub record FakeStore : Type 0 where
  pub rows : List Resource
  pub missing : Option MissingEvidenceState
  pub commits : ℕ
  pub refuses : Bool

unfoldable pub find_row : List Resource → ResourceId → Option Resource
find_row [] id = none
find_row (r ∷ rows) id = if id == r.resource_id then some r else find_row rows id

abbrev pub reader : StoreReader FakeStore ℕ
reader = record {
  get_connection = λ s id. ok none;
  get_resource = λ s id. ok (find_row s.rows id);
  get_relation = λ s id. ok none;
  latest_relation_version_fingerprint = λ s id. ok none;
  get_sync_run = λ s id. ok none;
  sync_cursor = λ s id. ok none;
  list_resources_for_scope = λ s id scope. ok s.rows;
  missing_evidence_state = λ s id scope. ok s.missing;
}

abbrev pub no_result : CommitResult
no_result = record {
  resources_written = 0;
  resource_versions_written = 0;
  relations_written = 0;
  relation_versions_written = 0;
  changes_written = 0;
}

abbrev pub writer : StoreWriter FakeStore ℕ
writer = record {
  upsert_connection = λ s c. (ok tt, s);
  start_sync_run = λ s r. (ok tt, s);
  commit_sync =
      λ s c. if s.refuses then (err 7, s) else (ok no_result, record s { commits = suc s.commits });
  mark_running_syncs_interrupted = λ s at. (ok 0, s);
}

abbrev pub row : Resource
row = record {
  resource_id = b'r' ∷ [];
  connection_id = b'c' ∷ [];
  kind = b'a' ∷ b'.' ∷ b'b' ∷ [];
  external_id = b'x' ∷ [];
  name = b'n' ∷ [];
  display_name = b'n' ∷ [];
  scope = b's' ∷ [];
  labels = [];
  lifecycle = Lifecycle.active;
  health = ResourceHealth.healthy;
  attributes = null;
  attribute_schema_version = 1;
  fingerprint = b'f' ∷ [];
  first_seen_at = 1;
  last_seen_at = 1;
  last_changed_at = 1;
  last_sync_run_id = b'0' ∷ [];
}

abbrev pub store : FakeStore
store = record {
  rows = row ∷ [];
  missing = some (record { scope = b's' ∷ []; counts = (b'r' ∷ [], 1) ∷ [] });
  commits = 0;
  refuses = false;
}

abbrev pub handle : SyncRunHandle
handle = record {
  run = record {
    sync_run_id = b'1' ∷ [];
    connection_id = b'c' ∷ [];
    mode = SyncMode.full;
    trigger = SyncTrigger.user;
    started_at = 5;
    finished_at = none;
    status = SyncRunStatus.running;
    coverage = SyncCoverage.authoritative_full (b's' ∷ []);
    cursor_before = some (b'p' ∷ []);
    cursor_after = none;
    counts = zero_counts;
    errors = [];
    warnings = [];
  };
  scope = b's' ∷ [];
}

-- An authoritative batch of the scope that shows nothing.
abbrev pub nothing_shown : ValidatedBatch
nothing_shown = record {
  connection_id = b'c' ∷ [];
  sync_run_id = b'1' ∷ [];
  resources = [];
  relations = [];
  coverage = SyncCoverage.authoritative_full (b's' ∷ []);
  next_cursor = some (b'q' ∷ []);
  warnings = [];
  redaction_report = record {
    removed_fields = 0;
    unknown_fields_dropped = 0;
    secret_sentinels_detected = 0;
  };
  provider_request_summary = record { request_count = 1; elapsed_ms = 1; status_class_counts = [] };
}

abbrev pub key : Text → ResourceKey
key external_id = record {
  connection_id = b'c' ∷ [];
  kind = b'a' ∷ b'.' ∷ b'b' ∷ [];
  external_id = external_id;
}

-- A resource `y` that is not stored yet, and a relation from it to itself.
abbrev pub seen : ValidatedResource
seen = record {
  key = key (b'y' ∷ []);
  name = b'n' ∷ [];
  display_name = b'n' ∷ [];
  scope = b's' ∷ [];
  labels = [];
  health = ResourceHealth.healthy;
  attributes = null;
  attribute_schema_version = 1;
  observed_at = 7;
  fingerprint = b'g' ∷ [];
}

abbrev pub link : ValidatedRelation
link = record {
  key = record {
    source = key (b'y' ∷ []);
    target = key (b'y' ∷ []);
    kind = b'k' ∷ b'.' ∷ b'l' ∷ [];
    evidence_key = b'e' ∷ [];
  };
  evidence = RelationEvidence.provider (b'c' ∷ []) (b'1' ∷ []) (b'f' ∷ []);
  observed_at = 7;
  fingerprint = b'h' ∷ [];
}

-- An authoritative batch that shows `y` and the relation, and not the stored row.
abbrev pub shown : ValidatedBatch
shown = record nothing_shown { resources = seen ∷ []; relations = link ∷ [] }

-- The same facts from an interrupted observation.
abbrev pub interrupted : ValidatedBatch
interrupted = record shown {
  coverage = SyncCoverage.partial (some (b's' ∷ [])) CoverageGapReason.rate_limited;
}
