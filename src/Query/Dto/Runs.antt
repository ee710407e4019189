-- ===== src/Query/Dto/Runs.antt =====
-- crates/next-infra-query/src/dto/mod.rs: runs.
use next_infra.Base.{ℕ, Bool, List, Option, Text}

pub data SyncModeDto : Type 0 where
  full : SyncModeDto
  incremental : SyncModeDto
  targeted : SyncModeDto

pub data SyncTriggerDto : Type 0 where
  schedule : SyncTriggerDto
  user : SyncTriggerDto
  startup : SyncTriggerDto
  recovery : SyncTriggerDto

pub data SyncRunStatusDto : Type 0 where
  running : SyncRunStatusDto
  succeeded : SyncRunStatusDto
  partial : SyncRunStatusDto
  failed : SyncRunStatusDto
  cancelled : SyncRunStatusDto
  interrupted : SyncRunStatusDto

pub data SyncCoverageDto : Type 0 where
  authoritative_full : Text → SyncCoverageDto
  incremental : Text → SyncCoverageDto
  partial : Option Text → Text → SyncCoverageDto
  targeted : List Text → SyncCoverageDto

pub record SyncRunCountsDto : Type 0 where
  pub read : ℕ
  pub created : ℕ
  pub updated : ℕ
  pub unchanged : ℕ
  pub warnings : ℕ

pub record SyncRunErrorDto : Type 0 where
  pub code : Text
  pub message : Text
  pub retryable : Bool

pub record SyncRunWarningDto : Type 0 where
  pub code : Text
  pub message : Text

pub record SyncRunDto : Type 0 where
  pub sync_run_id : Text
  pub connection_id : Text
  pub mode : SyncModeDto
  pub trigger : SyncTriggerDto
  pub status : SyncRunStatusDto
  pub coverage : SyncCoverageDto
  pub started_at : Text
  pub finished_at : Option Text
  pub cursor_before : Option Text
  pub cursor_after : Option Text
  pub counts : SyncRunCountsDto
  pub errors : List SyncRunErrorDto
  pub warnings : List SyncRunWarningDto
