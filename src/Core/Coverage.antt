-- ===== src/Core/Coverage.antt =====
-- crates/next-infra-core/src/coverage.rs
use next_infra.Base.{Bool, true, false, List, Option, Text}
use next_infra.Core.Ids.{ResourceId, Scope, SyncCursor}

pub data CoverageGapReason : Type 0 where
  permission_denied pagination_incomplete rate_limited provider_unavailable : CoverageGapReason
  schema_incompatible : CoverageGapReason
  other : Text → CoverageGapReason

pub data SyncCoverage : Type 0 where
  authoritative_full : Scope → SyncCoverage
  incremental : SyncCursor → SyncCoverage
  partial : Option Scope → CoverageGapReason → SyncCoverage
  targeted : List ResourceId → SyncCoverage

unfoldable pub contributes_missing_evidence : SyncCoverage → Bool
contributes_missing_evidence (SyncCoverage.authoritative_full scope) = true
contributes_missing_evidence _ = false

pub data ConnectorCoverageLevel : Type 0 where
  supported partial unsupported : ConnectorCoverageLevel

pub record ConnectorCoverage : Type 0 where
  pub connector_module : Text
  pub level : ConnectorCoverageLevel
  pub reason : Option Text
