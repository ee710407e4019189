-- ===== src/Sync/Build/Draft.antt =====
-- The error type and the local variables of `build_commit`.
use next_infra.Base.{
  ◌<◌, ◌≡◌, arith, suc, ap, ◌∙◌, true, false, ℕ, ◌+◌, ◌^◌, ◌%◌, Bool, List, Text, text_eq,
  if◌then◌else◌,
}
use next_infra.Base.Maps.{text_ord}
use next_infra.Core.Error.{DomainError}
use next_infra.Core.Ids.{ResourceId}
use next_infra.Core.Status.{lifecycle_eq}
use next_infra.Core.Model.{
  Resource, ResourceVersion, Relation, RelationVersion, Change, SyncRunCounts,
}

-- `SyncEngineError`
pub data EngineError (E : Type 0) : Type 0 where
  store_error : E → EngineError E
  domain_error : DomainError → EngineError E
  invalid_run : Text → EngineError E
  missing_resource : ResourceId → EngineError E

-- The local variables of `build_commit`.
pub record Draft : Type 0 where
  pub resources : List Resource
  pub resource_versions : List ResourceVersion
  pub relations : List Relation
  pub relation_versions : List RelationVersion
  pub changes : List Change
  pub counts : SyncRunCounts
  pub observed_resource_ids : List ResourceId

-- `+= 1` on a `u64`.
abbrev pub increment : ℕ → ℕ
increment n = (n + 1) % 2 ^ 64

-- How a row counts: new, updated or unchanged.
abbrev pub count_row : Bool → Bool → SyncRunCounts → SyncRunCounts
count_row created updated counts =
    if created
    then record counts { created = increment counts.created }
    else if updated
    then record counts { updated = increment counts.updated }
    else record counts { unchanged = increment counts.unchanged }

-- The rows that the counts speak of.
abbrev pub total : SyncRunCounts → ℕ
total counts = counts.created + counts.updated + counts.unchanged

pub total-count_row :
    (created updated : Bool) (counts : SyncRunCounts)
    → total counts + 1 < 2 ^ 64
    → total (count_row created updated counts) ≡ total counts + 1
total-count_row true updated counts h = omega arith
total-count_row false true counts h = omega arith
total-count_row false false counts h = omega arith

pub read-count_row :
    (created updated : Bool) (counts : SyncRunCounts)
    → ((count_row created updated counts).read ≡ counts.read)
      × ((count_row created updated counts).warnings ≡ counts.warnings)
read-count_row created updated counts = (ground arith, ground arith)

-- One more row after another: the sum that a loop needs at each turn.
pub total-step :
    (created updated : Bool) (before after last : SyncRunCounts) (n : ℕ)
    → after ≡ count_row created updated before
    → (total after + n < 2 ^ 64 → total last ≡ total after + n)
    → total before + suc n < 2 ^ 64
    → total last ≡ total before + suc n
total-step created updated before after last n counted rest small =
    let one : total after ≡ total before + 1 =
      ap total counted ∙ total-count_row created updated before (omega arith) in
    omega (arith, rest (omega arith))
