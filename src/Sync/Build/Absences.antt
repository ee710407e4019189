-- ===== src/Sync/Build/Absences.antt =====
-- The loop of `build_commit` over the stored resources that an authoritative observation did not show.
pub mod Strikes
pub mod Ledger
use next_infra.Base.{
  ℕ, ◌+◌, ◌&&◌, List, [], ◌∷◌, ◌++◌, some, text_eq, contains, Result, ok, ◌>>=◌, if◌then◌else◌,
  ◌!=◌, leb,
}
use Prim.Native.Nat.{min}
use next_infra.Base.Maps.{set_insert}
use next_infra.Base.Maps
use next_infra.Base.Maps.{text_ord}
use next_infra.Core.Error.{DomainError}
use next_infra.Core.Ids.{ResourceId, Timestamp}
use next_infra.Core.Status.{Lifecycle, lifecycle_eq}
use next_infra.Core.Model.{Resource, Change, SyncRun}
use next_infra.Core.MissingEvidence.{MissingEvidenceState, count_for}
use next_infra.Sync.Project.{tombstone_resource}
use next_infra.Sync.Changes.{resource_diff, resource_change}
use next_infra.Sync.Build.Draft.{Draft, increment}

-- The missing-evidence state beside the draft.
pub record Absences : Type 0 where
  pub state : MissingEvidenceState
  pub draft : Draft

-- `for resource_id in &observed_resource_ids { state.counts.remove(resource_id); }`
unfoldable pub forget_observed : MissingEvidenceState → List ResourceId → MissingEvidenceState
forget_observed state [] = state
forget_observed state (id ∷ ids) =
    forget_observed (record state { counts = Maps.remove state.counts id }) ids

unfoldable pub tombstone_change :
    SyncRun → Timestamp → Resource → Resource → Result DomainError Change
tombstone_change run finished_at existing tombstoned = do
  summary ← resource_diff (some existing) tombstoned
  resource_change tombstoned (some existing) summary run.sync_run_id finished_at

-- `count_for(…).saturating_add(1)` on a `u8`.
unfoldable pub missing_count : Absences → Resource → ℕ
missing_count absences existing = min (count_for absences.state existing.resource_id + 1) 255

unfoldable pub counted_state : Absences → Resource → MissingEvidenceState
unfolding missing_count
counted_state absences existing = record absences.state {
  counts =
      Maps.insert absences.state.counts existing.resource_id
        (min (missing_count absences existing) 2);
}

-- A stored resource of the scope that this batch did not show.
unfoldable pub count_missing :
    SyncRun → Timestamp → Absences → Resource → Result DomainError Absences
unfolding missing_count counted_state tombstone_change
count_missing run finished_at absences existing =
    if leb 2 (missing_count absences existing) && (existing.lifecycle != Lifecycle.tombstoned)
    then (let tombstoned = tombstone_resource existing run finished_at in
        do
          change ← tombstone_change run finished_at existing tombstoned
          ok (record {
            state = counted_state absences existing;
            draft = record absences.draft {
              changes = absences.draft.changes ++ change ∷ [];
              resources = absences.draft.resources ++ tombstoned ∷ [];
              counts = record absences.draft.counts {
                updated = increment absences.draft.counts.updated;
              };
            };
          }))
    else ok (record absences { state = counted_state absences existing })

unfoldable pub observe_missing :
    SyncRun → Timestamp → Absences → Resource → Result DomainError Absences
unfolding count_missing
observe_missing run finished_at absences existing =
    if contains absences.draft.observed_resource_ids existing.resource_id
    then ok absences
    else count_missing run finished_at absences existing

unfoldable pub observe_absences :
    SyncRun → Timestamp → Absences → List Resource → Result DomainError Absences
observe_absences run finished_at absences [] = ok absences
observe_absences run finished_at absences (existing ∷ rest) = do
  next ← observe_missing run finished_at absences existing
  observe_absences run finished_at next rest
