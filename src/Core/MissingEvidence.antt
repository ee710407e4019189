-- ===== src/Core/MissingEvidence.antt =====
-- crates/next-infra-core/src/missing_evidence.rs: how often each resource of a scope was absent.
use next_infra.Base.{ℕ, [], Option, none, some, BTreeMap, text_eq}
use next_infra.Base.Maps
use next_infra.Core.Ids.{ResourceId, Scope}

pub record MissingEvidenceState : Type 0 where
  pub scope : Scope
  pub counts : BTreeMap ResourceId ℕ

unfoldable pub new_state : Scope → MissingEvidenceState
new_state scope = record { scope = scope; counts = [] }

abbrev unwrap_or_zero : Option ℕ → ℕ
unwrap_or_zero (some n) = n
unwrap_or_zero none = 0

unfoldable pub count_for : MissingEvidenceState → ResourceId → ℕ
count_for state resource_id = unwrap_or_zero (Maps.get state.counts resource_id)
