-- ===== src/Query/Dto/Answers.antt =====
-- crates/next-infra-query/src/dto/mod.rs: what the query service answers.
use next_infra.Base.{ℕ, Bool, List, Option, Text}
use next_infra.Core.Json.{Value}
use next_infra.Query.Dto.Common.{SnapshotMetadata, PageInfo}
use next_infra.Query.Dto.Resources.{
  ResourceDto, RelationDto, ConnectionDto, ConnectorCoverageDto, TopologyFrontierDto,
  ResourceHealthCountsDto, FreshnessCountsDto, ConnectorHealthCountsDto,
}
use next_infra.Query.Dto.Runs.{SyncRunDto}
use next_infra.Query.Dto.Changes.{ChangeDto, TimelineGroupDto}

pub record ResourcePageDto : Type 0 where
  pub metadata : SnapshotMetadata
  pub items : List ResourceDto
  pub page_info : PageInfo

pub record RelationPageDto : Type 0 where
  pub metadata : SnapshotMetadata
  pub items : List RelationDto
  pub page_info : PageInfo

pub record ResourceDetailDto : Type 0 where
  pub metadata : SnapshotMetadata
  pub resource : ResourceDto
  pub attributes : Value
  pub relations : List RelationDto
  pub recent_changes : List ChangeDto
  pub connector_coverage : List ConnectorCoverageDto

pub record TopologyDto : Type 0 where
  pub metadata : SnapshotMetadata
  pub focus_resource_id : Text
  pub depth : ℕ
  pub nodes : List ResourceDto
  pub edges : List RelationDto
  pub frontier : List TopologyFrontierDto
  pub truncated : Bool

pub record TimelinePageDto : Type 0 where
  pub metadata : SnapshotMetadata
  pub groups : List TimelineGroupDto
  pub page_info : PageInfo

pub record HealthSummaryDto : Type 0 where
  pub metadata : SnapshotMetadata
  pub resource_health : ResourceHealthCountsDto
  pub freshness : FreshnessCountsDto
  pub connector_health : ConnectorHealthCountsDto

pub record ChangePageDto : Type 0 where
  pub metadata : SnapshotMetadata
  pub items : List ChangeDto
  pub page_info : PageInfo

pub record SyncStatusDto : Type 0 where
  pub metadata : SnapshotMetadata
  pub connection : ConnectionDto
  pub recent_runs : List SyncRunDto
  pub next_scheduled_at : Option Text

pub record ConnectionSnapshotDto : Type 0 where
  pub metadata : SnapshotMetadata
  pub items : List ConnectionDto

pub record ConnectorCoverageSnapshotDto : Type 0 where
  pub metadata : SnapshotMetadata
  pub items : List ConnectorCoverageDto
