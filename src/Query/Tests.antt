-- ===== src/Query/Tests.antt =====
-- The theorems on queries at concrete inputs.
use next_infra.Base.{ℕ, ◌≤◌, [], ◌∷◌, none, some, length, ok, err, ◌≡◌, ◌↔◌, refl}
unfoldable use next_infra.Base.{ℕ_discrete}
use next_infra.Base.Texts.{utf8_length}
use next_infra.Query.Dto.Common.{SnapshotMetadata}
use next_infra.Query.Dto.Resources.{ResourceDto}
use next_infra.Query.Dto.Answers.{ResourcePageDto}
use next_infra.Query.Limits.{
  decode_cursor, encode_cursor, bounded, bounded_limit, validate_page_size, clean_optional_text,
  after_prefix,
}
use next_infra.Query.Limits.Cursors.{IsPosition, decode_cursor-encode_cursor}
use next_infra.Query.Service.{
  QuerySource, SearchResourcesRequest, ResourceSearchPlan, SourceSnapshot, SourcePage,
}
use next_infra.Query.Service.Answer.{search_plan, search_resources, page_info}
use next_infra.Query.Service.Answer.Plans.{IsSearchPlan, search_resources-ok_iff}
use next_infra.Query.Service.Answer.Bounds.{search, resource_page, IsBounded, ask-IsBounded}

decode_cursor-encode_cursor_example :
    (decode_cursor (some (encode_cursor (55 ∷ 56 ∷ []))) ≡ ok (some (55 ∷ 56 ∷ [])))
    ↔ IsPosition (55 ∷ 56 ∷ [])
decode_cursor-encode_cursor_example = decode_cursor-encode_cursor (55 ∷ 56 ∷ [])

abbrev metadata : SnapshotMetadata
metadata = record { schema_version = 1; snapshot_version = 49 ∷ []; generated_at = 48 ∷ [] }

-- A source without resources that has a next page.
abbrev source : QuerySource ℕ
source = record {
  search_resources = λ plan.
      ok
        (record { metadata = metadata; body = record { items = []; next_after = some (55 ∷ []) } });
  get_resource = λ resource_id include. err 1;
  get_topology = λ plan. err 1;
  relations_for_resources = λ resource_ids limit after. err 1;
  get_health_summary = err 1;
  list_connections = err 1;
  get_recent_changes = λ plan. err 1;
  get_sync_status = λ connection_id limit. err 1;
  get_timeline = λ plan. err 1;
  list_connector_coverage = err 1;
}

abbrev request : SearchResourcesRequest
request = record {
  query = none;
  kinds = [];
  connector_types = [];
  health = [];
  freshness = [];
  labels = [];
  limit = some 10;
  cursor = some (encode_cursor (54 ∷ []));
}

abbrev page : ResourcePageDto
page = record { metadata = metadata; items = []; page_info = page_info (some (55 ∷ [])) }

search_resources-ok_iff_example : (search_resources source request ≡ ok page) ↔ (
    (plan : ResourceSearchPlan) × (snapshot : SourceSnapshot (SourcePage ResourceDto))
    × IsSearchPlan request plan
    × (source.search_resources plan ≡ ok snapshot)
    × (length snapshot.body.items ≤ plan.limit)
    × (page ≡ record {
      metadata = snapshot.metadata;
      items = snapshot.body.items;
      page_info = page_info snapshot.body.next_after;
    }))
search_resources-ok_iff_example = search_resources-ok_iff source request page

found : search_resources source request ≡ ok page
unfolding search_resources search_plan bounded_limit bounded validate_page_size clean_optional_text
    decode_cursor after_prefix utf8_length ℕ_discrete
found = refl

ask-IsBounded_example : IsBounded (search request) (resource_page page)
unfolding search_resources search_plan bounded_limit bounded validate_page_size clean_optional_text
    decode_cursor after_prefix utf8_length ℕ_discrete
ask-IsBounded_example = ask-IsBounded source (search request) (resource_page page) refl
