-- ===== src/Query/Service/Answer.antt =====
-- `QueryService` of crates/next-infra-query/src/service.rs: one function for each query.
pub mod Plans
pub mod Bounds
use next_infra.Base.{
  ℕ, ◌+◌, Bool, true, false, ◌||◌, List, [], ◌∷◌, Option, none, some, Text, text, text_eq, text_ord,
  Result, ok, err, ◌>>=◌, ◌>>◌, map_err, ok_or, reject_if, ltb, length, ◌==◌, ◌!=◌, nat_eq,
}
use mathlib.Core.Option
use next_infra.Base.Maps.{collect}
use next_infra.Query.Dto.Common.{PageInfo}
use next_infra.Query.Dto.Changes.{TimelineGroupDto}
use next_infra.Query.Dto.Answers.{
  ResourcePageDto, RelationPageDto, ResourceDetailDto, TopologyDto, TimelinePageDto,
  HealthSummaryDto, ChangePageDto, SyncStatusDto, ConnectionSnapshotDto,
  ConnectorCoverageSnapshotDto,
}
use next_infra.Query.Limits.{
  QueryResult, not_found, source_error, contract_error, bounded_limit, bounded_u8,
  validate_page_size, required_text, clean_optional_text, decode_cursor, encode_cursor,
}
use next_infra.Query.Service.{
  QuerySource, SearchResourcesRequest, RelationsForResourcesRequest, GetResourceRequest,
  GetTopologyRequest, RecentChangesRequest, SyncStatusRequest, TimelineRequest, ResourceSearchPlan,
  RecentChangesPlan, TopologyPlan, TimelinePlan,
}

-- A failure of the source is told without its reason.
abbrev pub hide : {E A : Type 0} → Result E A → QueryResult A
hide answer = map_err (λ _. source_error) answer

abbrev pub page_info : Option Text → PageInfo
page_info next_after = record { next_cursor = Option.map encode_cursor next_after }

-- `.map(|group| group.items.len()).sum()`
unfoldable pub grouped : List TimelineGroupDto → ℕ
grouped [] = 0
grouped (group ∷ groups) = length group.items + grouped groups

unfoldable pub search_plan : SearchResourcesRequest → QueryResult ResourceSearchPlan
search_plan request = do
  limit ← bounded_limit request.limit 25 100
  query ← clean_optional_text request.query "query"
  after ← decode_cursor request.cursor
  ok (record {
    query = query;
    kinds = request.kinds;
    connector_types = request.connector_types;
    health = request.health;
    freshness = request.freshness;
    labels = request.labels;
    limit = limit;
    after = after;
  })

unfoldable pub changes_plan : RecentChangesRequest → QueryResult RecentChangesPlan
changes_plan request = do
  limit ← bounded_limit request.limit 20 100
  since ← clean_optional_text request.since "since"
  resource_id ← clean_optional_text request.resource_id "resource_id"
  after ← decode_cursor request.cursor
  ok (record {
    since = since;
    resource_id = resource_id;
    kinds = request.kinds;
    limit = limit;
    after = after;
  })

unfoldable pub topology_plan : GetTopologyRequest → QueryResult TopologyPlan
topology_plan request = do
  focus_resource_id ← required_text request.focus_resource_id "focus_resource_id"
  depth ← bounded_u8 request.depth 1 3
  max_nodes ← bounded_limit request.max_nodes 100 200
  max_edges ← bounded_limit request.max_edges 200 400
  ok (record {
    focus_resource_id = focus_resource_id;
    depth = depth;
    max_nodes = max_nodes;
    max_edges = max_edges;
  })

unfoldable pub timeline_plan : TimelineRequest → QueryResult TimelinePlan
timeline_plan request = do
  limit ← bounded_limit request.limit 50 200
  after ← decode_cursor request.cursor
  ok (record { limit = limit; after = after })

module _ {E : Type 0} (source : QuerySource E) where
  unfoldable pub search_resources : SearchResourcesRequest → QueryResult ResourcePageDto
  search_resources request = do
    plan ← search_plan request
    snapshot ← hide (source.search_resources plan)
    validate_page_size (length snapshot.body.items) plan.limit
    ok (record {
      metadata = snapshot.metadata;
      items = snapshot.body.items;
      page_info = page_info snapshot.body.next_after;
    })

  unfoldable pub get_resource : GetResourceRequest → QueryResult ResourceDetailDto
  get_resource request = do
    resource_id ← required_text request.resource_id "resource_id"
    snapshot ← hide (source.get_resource resource_id request.include)
    body ← ok_or snapshot.body (not_found "resource_not_found" "Resource was not found.")
    ok (record {
      metadata = snapshot.metadata;
      resource = body.resource;
      attributes = body.attributes;
      relations = body.relations;
      recent_changes = body.recent_changes;
      connector_coverage = body.connector_coverage;
    })

  unfoldable pub get_topology : GetTopologyRequest → QueryResult TopologyDto
  get_topology request = do
    plan ← topology_plan request
    snapshot ← hide (source.get_topology plan)
    body ← ok_or snapshot.body (not_found "resource_not_found" "Topology focus was not found.")
    reject_if (ltb plan.max_nodes (length body.nodes) || ltb plan.max_edges (length body.edges))
        (contract_error "query source exceeded topology limits")
    ok (record {
      metadata = snapshot.metadata;
      focus_resource_id = plan.focus_resource_id;
      depth = plan.depth;
      nodes = body.nodes;
      edges = body.edges;
      frontier = body.frontier;
      truncated = body.truncated;
    })

  unfoldable pub get_relations_for_resources :
      RelationsForResourcesRequest → QueryResult RelationPageDto
  get_relations_for_resources request = do
    limit ← bounded_limit request.limit 200 400
    let resource_ids = collect request.resource_ids
    reject_if (length resource_ids == 0) (contract_error "resource_ids must not be empty")
    reject_if (ltb 100 (length resource_ids)) (contract_error "too many resource ids")
    after ← decode_cursor request.cursor
    snapshot ← hide (source.relations_for_resources resource_ids limit after)
    validate_page_size (length snapshot.body.items) limit
    ok (record {
      metadata = snapshot.metadata;
      items = snapshot.body.items;
      page_info = page_info snapshot.body.next_after;
    })

  unfoldable pub get_health_summary : QueryResult HealthSummaryDto
  get_health_summary = do
    snapshot ← hide source.get_health_summary
    ok (record {
      metadata = snapshot.metadata;
      resource_health = snapshot.body.resource_health;
      freshness = snapshot.body.freshness;
      connector_health = snapshot.body.connector_health;
    })

  unfoldable pub list_connections : QueryResult ConnectionSnapshotDto
  list_connections = do
    snapshot ← hide source.list_connections
    reject_if (ltb 200 (length snapshot.body))
        (contract_error "query source exceeded connection limit")
    ok (record { metadata = snapshot.metadata; items = snapshot.body })

  unfoldable pub get_recent_changes : RecentChangesRequest → QueryResult ChangePageDto
  get_recent_changes request = do
    plan ← changes_plan request
    snapshot ← hide (source.get_recent_changes plan)
    validate_page_size (length snapshot.body.items) plan.limit
    ok (record {
      metadata = snapshot.metadata;
      items = snapshot.body.items;
      page_info = page_info snapshot.body.next_after;
    })

  unfoldable pub get_sync_status : SyncStatusRequest → QueryResult SyncStatusDto
  get_sync_status request = do
    connection_id ← required_text request.connection_id "connection_id"
    limit ← bounded_limit request.recent_run_limit 10 100
    snapshot ← hide (source.get_sync_status connection_id limit)
    body ← ok_or snapshot.body (not_found "connection_not_found" "Connection was not found.")
    reject_if (ltb limit (length body.recent_runs))
        (contract_error "query source exceeded sync run limit")
    ok (record {
      metadata = snapshot.metadata;
      connection = body.connection;
      recent_runs = body.recent_runs;
      next_scheduled_at = body.next_scheduled_at;
    })

  unfoldable pub get_timeline : TimelineRequest → QueryResult TimelinePageDto
  get_timeline request = do
    plan ← timeline_plan request
    snapshot ← hide (source.get_timeline plan)
    validate_page_size snapshot.body.item_count plan.limit
    reject_if (grouped snapshot.body.groups != snapshot.body.item_count)
        (contract_error "timeline group item count is inconsistent")
    ok (record {
      metadata = snapshot.metadata;
      groups = snapshot.body.groups;
      page_info = page_info snapshot.body.next_after;
    })

  unfoldable pub list_connector_coverage : QueryResult ConnectorCoverageSnapshotDto
  list_connector_coverage = do
    snapshot ← hide source.list_connector_coverage
    ok (record { metadata = snapshot.metadata; items = snapshot.body })
