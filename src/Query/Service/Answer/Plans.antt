-- ===== src/Query/Service/Answer/Plans.antt =====
-- Which requests are planned, and when a search is answered.
use next_infra.Base.{
  ℕ, ◌≤◌, Option, Text, length, ok, >>=-eq-ok, map_err-eq-ok, ◌≡◌, ◌↔◌, refl, sym, arith, subst,
  ok-injective,
}
use next_infra.Query.Dto.Common.{ErrorEnvelope}
use next_infra.Query.Dto.Resources.{ResourceDto}
use next_infra.Query.Dto.Answers.{ResourcePageDto}
use next_infra.Query.Limits.{bounded_limit, clean_optional_text, decode_cursor, validate_page_size}
use next_infra.Query.Limits.Cursors.{
  Cleaned, Positioned, IsLimit, bounded-ok_iff, clean_optional_text-ok_iff,
  decode_cursor-Positioned, Positioned-decode_cursor,
}
use next_infra.Query.Service.{
  QuerySource, SearchResourcesRequest, ResourceSearchPlan, SourceSnapshot, SourcePage,
}
use next_infra.Query.Service.Answer.{search_plan, search_resources, page_info, hide}

abbrev planned : SearchResourcesRequest → ℕ → Option Text → Option Text → ResourceSearchPlan
planned request limit query after = record {
  query = query;
  kinds = request.kinds;
  connector_types = request.connector_types;
  health = request.health;
  freshness = request.freshness;
  labels = request.labels;
  limit = limit;
  after = after;
}

-- The plan of a request: its own filters, a limit from 1 to 100 that is 25 if none is given, a
-- trimmed query, and the position of its cursor.
pub record IsSearchPlan (request : SearchResourcesRequest) (plan : ResourceSearchPlan)
    : Type 0 where
  pub limited : IsLimit request.limit 25 100 plan.limit
  pub cleaned : Cleaned request.query plan.query
  pub positioned : Positioned request.cursor plan.after
  pub kinds : plan.kinds ≡ request.kinds
  pub connector_types : plan.connector_types ≡ request.connector_types
  pub health : plan.health ≡ request.health
  pub freshness : plan.freshness ≡ request.freshness
  pub labels : plan.labels ≡ request.labels

search_plan-IsSearchPlan :
    (request : SearchResourcesRequest) (plan : ResourceSearchPlan)
    → search_plan request ≡ ok plan
    → IsSearchPlan request plan
unfolding search_plan bounded_limit
search_plan-IsSearchPlan request plan h =
    let (limit, limited, h1) = >>=-eq-ok (bounded_limit request.limit 25 100) _ h in
    let (query, cleaned, h2) = >>=-eq-ok (clean_optional_text request.query "query") _ h1 in
    let (after, positioned, h3) = >>=-eq-ok (decode_cursor request.cursor) _ h2 in
    let limit_is = (bounded-ok_iff _ request.limit 25 100 limit).0 limited in
    let query_is = (clean_optional_text-ok_iff request.query query "query").0 cleaned in
    let after_is = decode_cursor-Positioned request.cursor after positioned in
    let same : planned request limit query after ≡ plan = ok-injective {E = ErrorEnvelope} _ _ h3 in
    subst (IsSearchPlan request) same (record {
      limited = limit_is;
      cleaned = query_is;
      positioned = after_is;
      kinds = refl;
      connector_types = refl;
      health = refl;
      freshness = refl;
      labels = refl;
    })

IsSearchPlan-search_plan :
    (request : SearchResourcesRequest) (plan : ResourceSearchPlan)
    → IsSearchPlan request plan
    → search_plan request ≡ ok plan
unfolding search_plan bounded_limit
IsSearchPlan-search_plan request plan h =
    rw
      (
        (bounded-ok_iff "limit is outside the supported range" request.limit 25 100 plan.limit).1
            h.limited,
        (clean_optional_text-ok_iff request.query plan.query "query").1 h.cleaned,
        Positioned-decode_cursor request.cursor plan.after h.positioned,
      )
      (ground arith)

module _ {E : Type 0} (source : QuerySource E) where
  -- A search is answered exactly if its limit is from 1 to 100 (25 if none is given), its query is
  -- valid once trimmed and its cursor is the cursor of some position, the source answers the plan
  -- with these and the request's filters, and no more items come back than the limit. The answer is
  -- the source's snapshot and items, with the cursor of the position after them.
  pub search_resources-ok_iff :
      (request : SearchResourcesRequest) (answer : ResourcePageDto)
      → (search_resources source request ≡ ok answer) ↔ (
          (plan : ResourceSearchPlan) × (snapshot : SourceSnapshot (SourcePage ResourceDto))
          × IsSearchPlan request plan
          × (source.search_resources plan ≡ ok snapshot)
          × (length snapshot.body.items ≤ plan.limit)
          × (answer ≡ record {
            metadata = snapshot.metadata;
            items = snapshot.body.items;
            page_info = page_info snapshot.body.next_after;
          }))
  unfolding search_resources validate_page_size
  search_resources-ok_iff request answer = (
    λ h.
        let (plan, planned', h1) = >>=-eq-ok (search_plan request) _ h in
        let (snapshot, answered, h2) = >>=-eq-ok (hide (source.search_resources plan)) _ h1 in
        let sized = >>=-eq-ok (validate_page_size (length snapshot.body.items) plan.limit) _ h2 in
        (
          plan,
          snapshot,
          search_plan-IsSearchPlan request plan planned',
          map_err-eq-ok _ (source.search_resources plan) answered,
          ground (arith, sized.1),
          sym (ok-injective {E = ErrorEnvelope} _ _ sized.2),
        ),
    λ (plan, snapshot, is_plan, answered, few, same).
        rw (IsSearchPlan-search_plan request plan is_plan, answered, same) (ground arith),
  )
