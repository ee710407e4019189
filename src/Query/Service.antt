-- ===== src/Query/Service.antt =====
-- crates/next-infra-query/src/service.rs: requests, plans, the source and the query service.
pub mod Answer
use next_infra.Base.{
  ℕ, ◌+◌, Bool, true, false, ◌||◌, List, [], ◌∷◌, map, Option, none, some, Text, text, text_eq,
  text_ord, is_empty, BTreeMap, Result, ok, err, ◌>>=◌, ◌>>◌, map_err, ok_or, reject_if, ltb,
  length, ◌==◌, ◌!=◌, nat_eq,
}
use next_infra.Base.Maps.{set_insert}
use next_infra.Core.Json.{Value}
use next_infra.Query.Dto.Common.{SnapshotMetadata, ResourceHealth, Freshness}
use next_infra.Query.Dto.Resources.{
  ResourceDto, RelationDto, ConnectionDto, ConnectorCoverageDto, TopologyFrontierDto,
  ResourceHealthCountsDto, FreshnessCountsDto, ConnectorHealthCountsDto,
}
use next_infra.Query.Dto.Runs.{SyncRunDto}
use next_infra.Query.Dto.Changes.{ChangeDto, TimelineGroupDto}
use next_infra.Query.Dto.Answers.{
  ResourcePageDto, RelationPageDto, ResourceDetailDto, TopologyDto, TimelinePageDto,
  HealthSummaryDto, ChangePageDto, SyncStatusDto, ConnectionSnapshotDto,
  ConnectorCoverageSnapshotDto,
}
use next_infra.Query.Limits.{
  QueryResult, not_found, source_error, contract_error, bounded_limit, bounded_u8,
  validate_page_size, required_text, clean_optional_text, decode_cursor, encode_cursor,
}

pub record SearchResourcesRequest : Type 0 where
  pub query : Option Text
  pub kinds : List Text
  pub connector_types : List Text
  pub health : List ResourceHealth
  pub freshness : List Freshness
  pub labels : BTreeMap Text Text
  pub limit : Option ℕ
  pub cursor : Option Text

pub record RelationsForResourcesRequest : Type 0 where
  pub resource_ids : List Text
  pub limit : Option ℕ
  pub cursor : Option Text

pub data ResourceInclude : Type 0 where
  attributes relations recent_changes connector_coverage : ResourceInclude

pub record GetResourceRequest : Type 0 where
  pub resource_id : Text
  pub include : List ResourceInclude

pub record GetTopologyRequest : Type 0 where
  pub focus_resource_id : Text
  pub depth : Option ℕ
  pub max_nodes : Option ℕ
  pub max_edges : Option ℕ

pub record RecentChangesRequest : Type 0 where
  pub since : Option Text
  pub resource_id : Option Text
  pub kinds : List Text
  pub limit : Option ℕ
  pub cursor : Option Text

pub record SyncStatusRequest : Type 0 where
  pub connection_id : Text
  pub recent_run_limit : Option ℕ

pub record TimelineRequest : Type 0 where
  pub limit : Option ℕ
  pub cursor : Option Text

pub record ResourceSearchPlan : Type 0 where
  pub query : Option Text
  pub kinds : List Text
  pub connector_types : List Text
  pub health : List ResourceHealth
  pub freshness : List Freshness
  pub labels : BTreeMap Text Text
  pub limit : ℕ
  pub after : Option Text

pub record RecentChangesPlan : Type 0 where
  pub since : Option Text
  pub resource_id : Option Text
  pub kinds : List Text
  pub limit : ℕ
  pub after : Option Text

pub record TopologyPlan : Type 0 where
  pub focus_resource_id : Text
  pub depth : ℕ
  pub max_nodes : ℕ
  pub max_edges : ℕ

pub record TimelinePlan : Type 0 where
  pub limit : ℕ
  pub after : Option Text

pub record SourcePage (A : Type 0) : Type 0 where
  pub items : List A
  pub next_after : Option Text

pub record TimelineSourcePage : Type 0 where
  pub groups : List TimelineGroupDto
  pub item_count : ℕ
  pub next_after : Option Text

pub record SourceSnapshot (A : Type 0) : Type 0 where
  pub metadata : SnapshotMetadata
  pub body : A

pub record ResourceDetailBody : Type 0 where
  pub resource : ResourceDto
  pub attributes : Value
  pub relations : List RelationDto
  pub recent_changes : List ChangeDto
  pub connector_coverage : List ConnectorCoverageDto

pub record TopologyBody : Type 0 where
  pub nodes : List ResourceDto
  pub edges : List RelationDto
  pub frontier : List TopologyFrontierDto
  pub truncated : Bool

pub record HealthSummaryBody : Type 0 where
  pub resource_health : ResourceHealthCountsDto
  pub freshness : FreshnessCountsDto
  pub connector_health : ConnectorHealthCountsDto

pub record SyncStatusBody : Type 0 where
  pub connection : ConnectionDto
  pub recent_runs : List SyncRunDto
  pub next_scheduled_at : Option Text

-- The trait, whose methods read only.
pub record QuerySource (E : Type 0) : Type 0 where
  pub search_resources : ResourceSearchPlan → Result E (SourceSnapshot (SourcePage ResourceDto))
  pub get_resource :
      Text → List ResourceInclude → Result E (SourceSnapshot (Option ResourceDetailBody))
  pub get_topology : TopologyPlan → Result E (SourceSnapshot (Option TopologyBody))
  pub relations_for_resources :
      List Text → ℕ → Option Text → Result E (SourceSnapshot (SourcePage RelationDto))
  pub get_health_summary : Result E (SourceSnapshot HealthSummaryBody)
  pub list_connections : Result E (SourceSnapshot (List ConnectionDto))
  pub get_recent_changes : RecentChangesPlan → Result E (SourceSnapshot (SourcePage ChangeDto))
  pub get_sync_status : Text → ℕ → Result E (SourceSnapshot (Option SyncStatusBody))
  pub get_timeline : TimelinePlan → Result E (SourceSnapshot TimelineSourcePage)
  pub list_connector_coverage : Result E (SourceSnapshot (List ConnectorCoverageDto))
