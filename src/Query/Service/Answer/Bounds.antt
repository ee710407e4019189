-- ===== src/Query/Service/Answer/Bounds.antt =====
-- How large an answer can be.
use next_infra.Base.{ℕ, ◌≤◌, Option, String, length, ok, err, ◌≡◌, refl, arith, ok-injective, subst}
use next_infra.Query.Dto.Common.{ErrorEnvelope}
use next_infra.Query.Dto.Answers.{
  ResourcePageDto, RelationPageDto, TopologyDto, TimelinePageDto, ChangePageDto, SyncStatusDto,
  ConnectionSnapshotDto,
}
use next_infra.Query.Limits.{
  QueryResult, bounded, bounded_limit, bounded_u8, validate_page_size, unwrap_or,
}
use next_infra.Query.Limits.Cursors.{bounded-ok_iff}
use next_infra.Query.Service.{
  QuerySource, SearchResourcesRequest, RelationsForResourcesRequest, GetTopologyRequest,
  RecentChangesRequest, SyncStatusRequest, TimelineRequest,
}
use next_infra.Query.Service.Answer.{
  search_plan, changes_plan, topology_plan, timeline_plan, search_resources,
  get_relations_for_resources, get_topology, get_recent_changes, get_sync_status, get_timeline,
  list_connections, grouped,
}

-- At most as many as were asked for, or as the default, and never more than the maximum.
abbrev pub Within : Option ℕ → ℕ → ℕ → ℕ → Type 0
Within asked default maximum size = (size ≤ unwrap_or asked default) × (size ≤ maximum)

limit-Within :
    (message : String) (asked : Option ℕ) (default maximum limit size : ℕ)
    → bounded message asked default maximum ≡ ok limit
    → size ≤ limit
    → Within asked default maximum size
limit-Within message asked default maximum limit size h few =
    let is_limit = (bounded-ok_iff message asked default maximum limit).0 h in
    (omega (arith, is_limit.0), omega (arith, is_limit.2))

module _ {E : Type 0} (source : QuerySource E) where
  search_resources-Within :
      (request : SearchResourcesRequest) (answer : ResourcePageDto)
      → search_resources source request ≡ ok answer
      → Within request.limit 25 100 (length answer.items)
  unfolding search_resources search_plan bounded_limit bounded validate_page_size
  search_resources-Within request answer h = ground arith

  get_topology-Within :
      (request : GetTopologyRequest) (answer : TopologyDto)
      → get_topology source request ≡ ok answer
      → Within request.max_nodes 100 200 (length answer.nodes)
        × Within request.max_edges 200 400 (length answer.edges)
        × Within request.depth 1 3 answer.depth
  unfolding get_topology topology_plan bounded_limit bounded_u8 bounded
  get_topology-Within request answer h = ground arith

  get_relations-Within :
      (request : RelationsForResourcesRequest) (answer : RelationPageDto)
      → get_relations_for_resources source request ≡ ok answer
      → Within request.limit 200 400 (length answer.items)
  unfolding get_relations_for_resources bounded_limit bounded validate_page_size
  get_relations-Within request answer h = ground arith

  get_recent_changes-Within :
      (request : RecentChangesRequest) (answer : ChangePageDto)
      → get_recent_changes source request ≡ ok answer
      → Within request.limit 20 100 (length answer.items)
  unfolding get_recent_changes changes_plan bounded_limit bounded validate_page_size
  get_recent_changes-Within request answer h = ground arith

  get_sync_status-Within :
      (request : SyncStatusRequest) (answer : SyncStatusDto)
      → get_sync_status source request ≡ ok answer
      → Within request.recent_run_limit 10 100 (length answer.recent_runs)
  unfolding get_sync_status bounded_limit bounded
  get_sync_status-Within request answer h = ground arith

  get_timeline-Within :
      (request : TimelineRequest) (answer : TimelinePageDto)
      → get_timeline source request ≡ ok answer
      → Within request.limit 50 200 (grouped answer.groups)
  unfolding get_timeline timeline_plan bounded_limit bounded validate_page_size
  get_timeline-Within request answer h = ground arith

  list_connections-Within :
      (answer : ConnectionSnapshotDto)
      → list_connections source ≡ ok answer
      → length answer.items ≤ 200
  unfolding list_connections
  list_connections-Within answer h = ground arith

-- The queries that have a bound, and their answers.
pub data Query : Type 0 where
  search : SearchResourcesRequest → Query
  topology : GetTopologyRequest → Query
  relations : RelationsForResourcesRequest → Query
  changes : RecentChangesRequest → Query
  sync_status : SyncStatusRequest → Query
  timeline : TimelineRequest → Query
  connections : Query

pub data Answer : Type 0 where
  resource_page : ResourcePageDto → Answer
  graph : TopologyDto → Answer
  relation_page : RelationPageDto → Answer
  change_page : ChangePageDto → Answer
  status : SyncStatusDto → Answer
  timeline_page : TimelinePageDto → Answer
  connection_list : ConnectionSnapshotDto → Answer

abbrev answered : {A : Type 0} → (A → Answer) → QueryResult A → QueryResult Answer
answered wrap (ok a) = ok (wrap a)
answered wrap (err e) = err e

answered-eq-ok :
    {A : Type 0} (wrap : A → Answer) (result : QueryResult A) (answer : Answer)
    → answered wrap result ≡ ok answer
    → (a : A) × (result ≡ ok a) × (wrap a ≡ answer)
answered-eq-ok wrap (ok a) answer h = (a, refl, ok-injective {E = ErrorEnvelope} _ _ h)
answered-eq-ok wrap (err e) answer h = absurd cc

abbrev pub ask : {E : Type 0} → QuerySource E → Query → QueryResult Answer
ask source (search request) = answered resource_page (search_resources source request)
ask source (topology request) = answered graph (get_topology source request)
ask source (relations request) = answered relation_page (get_relations_for_resources source request)
ask source (changes request) = answered change_page (get_recent_changes source request)
ask source (sync_status request) = answered status (get_sync_status source request)
ask source (timeline request) = answered timeline_page (get_timeline source request)
ask source connections = answered connection_list (list_connections source)

abbrev pub IsBounded : Query → Answer → Type 0
IsBounded (search request) (resource_page page) = Within request.limit 25 100 (length page.items)
IsBounded (topology request) (graph g) =
    Within request.max_nodes 100 200 (length g.nodes)
    × Within request.max_edges 200 400 (length g.edges)
    × Within request.depth 1 3 g.depth
IsBounded (relations request) (relation_page page) =
    Within request.limit 200 400 (length page.items)
IsBounded (changes request) (change_page page) = Within request.limit 20 100 (length page.items)
IsBounded (sync_status request) (status s) =
    Within request.recent_run_limit 10 100 (length s.recent_runs)
IsBounded (timeline request) (timeline_page page) =
    Within request.limit 50 200 (grouped page.groups)
IsBounded connections (connection_list list) = length list.items ≤ 200
IsBounded query answer = ⊥

module _ {E : Type 0} (source : QuerySource E) where
  -- Whatever the source returns, an answer to a search, to a query of a topology, of relations of
  -- resources, of recent changes, of the status of syncs or of the timeline has at most as many
  -- resources, nodes and edges, relations, changes, runs or timeline items as were asked for, or as the
  -- default where no limit was given, and never more than the maximum of its kind; and a list of
  -- connections has at most 200. The queries of one resource, of the health and of the coverage are not
  -- among these, for they have no limit.
  pub ask-IsBounded :
      (query : Query) (answer : Answer) → ask source query ≡ ok answer → IsBounded query answer
  ask-IsBounded (search request) answer h =
      let (a, found, same) = answered-eq-ok resource_page _ answer h in
      subst (IsBounded (search request)) same (search_resources-Within source request a found)
  ask-IsBounded (topology request) answer h =
      let (a, found, same) = answered-eq-ok graph _ answer h in
      subst (IsBounded (topology request)) same (get_topology-Within source request a found)
  ask-IsBounded (relations request) answer h =
      let (a, found, same) = answered-eq-ok relation_page _ answer h in
      subst (IsBounded (relations request)) same (get_relations-Within source request a found)
  ask-IsBounded (changes request) answer h =
      let (a, found, same) = answered-eq-ok change_page _ answer h in
      subst (IsBounded (changes request)) same (get_recent_changes-Within source request a found)
  ask-IsBounded (sync_status request) answer h =
      let (a, found, same) = answered-eq-ok status _ answer h in
      subst (IsBounded (sync_status request)) same (get_sync_status-Within source request a found)
  ask-IsBounded (timeline request) answer h =
      let (a, found, same) = answered-eq-ok timeline_page _ answer h in
      subst (IsBounded (timeline request)) same (get_timeline-Within source request a found)
  ask-IsBounded connections answer h =
      let (a, found, same) = answered-eq-ok connection_list _ answer h in
      subst (IsBounded connections) same (list_connections-Within source a found)
