-- ===== src/Binding/Input.antt =====
-- What a caller of the binding service hands in, and how a mutation fails.
use next_infra.Base.{text, text_eq, Result, reject_if, ◌==◌, leb}
use next_infra.Core.Error.{DomainError, invalid_value}
use next_infra.Core.Ids.{ResourceId, RelationKind, Timestamp}

pub record BindingInput : Type 0 where
  pub source_resource_id : ResourceId
  pub target_resource_id : ResourceId
  pub kind : RelationKind

pub data BindingError (E : Type 0) : Type 0 where
  store_error : E → BindingError E
  invalid : DomainError → BindingError E
  not_found duplicate temporal_conflict : BindingError E

unfoldable pub validate_input : BindingInput → Result DomainError (Unit {0})
validate_input input =
    reject_if (input.source_resource_id == input.target_resource_id)
      (invalid_value (text "binding source and target must be different"))

unfoldable pub ensure_later :
    {E : Type 0} → Timestamp → Timestamp → Result (BindingError E) (Unit {0})
ensure_later at previous = reject_if (leb at previous) temporal_conflict
