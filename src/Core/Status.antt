-- ===== src/Core/Status.antt =====
-- crates/next-infra-core/src/status.rs
use next_infra.Base.{Eq}

pub data Lifecycle : Type 0 where
  active tombstoned orphaned : Lifecycle

pub data ResourceHealth : Type 0 where
  healthy degraded unhealthy unknown : ResourceHealth

pub data ConnectorHealth : Type 0 where
  healthy degraded auth_failed rate_limited unreachable disabled : ConnectorHealth

pub data Freshness : Type 0 where
  fresh stale expired : Freshness

pub data SyncMode : Type 0 where
  full incremental targeted : SyncMode

pub data SyncTrigger : Type 0 where
  schedule user startup recovery : SyncTrigger

pub data SyncRunStatus : Type 0 where
  running succeeded partial failed cancelled interrupted : SyncRunStatus

pub data BindingStatus : Type 0 where
  active unresolved disabled : BindingStatus

pub data InferenceRunStatus : Type 0 where
  running completed failed : InferenceRunStatus

unfoldable pub Lifecycle-discrete : Discrete Lifecycle
Lifecycle-discrete = hlevel

unfoldable pub SyncRunStatus-discrete : Discrete SyncRunStatus
SyncRunStatus-discrete = hlevel

unfoldable pub BindingStatus-discrete : Discrete BindingStatus
BindingStatus-discrete = hlevel

instance abbrev pub lifecycle_eq : Eq Lifecycle
lifecycle_eq = record { decides = Lifecycle-discrete }

instance abbrev pub sync_run_status_eq : Eq SyncRunStatus
sync_run_status_eq = record { decides = SyncRunStatus-discrete }

instance abbrev pub binding_status_eq : Eq BindingStatus
binding_status_eq = record { decides = BindingStatus-discrete }
