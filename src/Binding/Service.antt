-- ===== src/Binding/Service.antt =====
-- `BindingService`: a mutation first plans, against the store as it is, and then writes one commit.
pub mod Plans
pub mod Written
pub mod Mutations
pub mod Unique
use next_infra.Base.{
  ◌&&◌, ◌||◌, Bool, false, true, not, List, any, Option, none, some, Text, text, text_eq, ◌++◌,
  Result, ok, err, ◌>>=◌, ◌>>◌, map_err, reject_if, ok_or, if◌then◌else◌, ◌==◌, ◌!=◌,
}
use next_infra.Core.Ids.{BindingId, Timestamp, string_value}
use next_infra.Core.Status.{Lifecycle, lifecycle_eq, BindingStatus, binding_status_eq}
use next_infra.Core.Model.{Binding, binding_eq, Resource}
use next_infra.Core.Ports.{BindingCommit, BindingStore}
use next_infra.Sync.Project.{is_some_and}
use next_infra.Binding.Input.{
  BindingInput, BindingError, store_error, invalid, not_found, duplicate, validate_input,
  ensure_later,
}
use next_infra.Binding.Commit.{binding_commit}
use next_infra.Core.Hashing.{Hashing}

-- The binding that a mutation answers, and what it writes, if anything.
abbrev pub Plan : Type 0 → Type 0
Plan E = Result (BindingError E) (Binding × Option BindingCommit)

abbrev pub is_live : BindingStatus → Bool
is_live status = (status == BindingStatus.active) || (status == BindingStatus.unresolved)

abbrev is_active : Option Resource → Bool
is_active found = is_some_and (λ resource. resource.lifecycle == Lifecycle.active) found

abbrev pub is_excluded : Option BindingId → BindingId → Bool
is_excluded excluded id = is_some_and (λ e. e == id) excluded

-- A live binding between the same endpoints and of the same kind.
abbrev pub is_duplicate : BindingInput → Option BindingId → Binding → Bool
is_duplicate input excluded existing =
    not (is_excluded excluded existing.binding_id)
    && (existing.source_resource_id == input.source_resource_id)
    && (existing.target_resource_id == input.target_resource_id)
    && (existing.kind == input.kind)
    && is_live existing.status

abbrev pub created_binding : BindingId → BindingInput → BindingStatus → Timestamp → Binding
created_binding id input status at = record {
  binding_id = id;
  source_resource_id = input.source_resource_id;
  target_resource_id = input.target_resource_id;
  kind = input.kind;
  status = status;
  created_at = at;
  updated_at = at;
}

abbrev pub updated_binding : Binding → BindingInput → BindingStatus → Timestamp → Binding
updated_binding existing input status at = record {
  binding_id = existing.binding_id;
  source_resource_id = input.source_resource_id;
  target_resource_id = input.target_resource_id;
  kind = input.kind;
  status = status;
  created_at = existing.created_at;
  updated_at = at;
}

abbrev pub input_of : Binding → BindingInput
input_of existing = record {
  source_resource_id = existing.source_resource_id;
  target_resource_id = existing.target_resource_id;
  kind = existing.kind;
}

module _ {S E : Type 0} (store : BindingStore S E) where
  unfoldable pub get_existing : S → BindingId → Result (BindingError E) Binding
  get_existing s id = do found ← map_err store_error (store.get_binding s id); ok_or found not_found

  unfoldable pub endpoint_status : S → BindingInput → Result (BindingError E) BindingStatus
  endpoint_status s input = do
    source ← map_err store_error (store.reader.get_resource s input.source_resource_id)
    target ← map_err store_error (store.reader.get_resource s input.target_resource_id)
    ok (
        if is_active source && is_active target
        then BindingStatus.active
        else BindingStatus.unresolved)

  unfoldable pub ensure_unique :
      S → BindingInput → Option BindingId → Result (BindingError E) (Unit {0})
  ensure_unique s input excluded = do
    bindings ← map_err store_error (store.list_bindings s)
    reject_if (any (is_duplicate input excluded) bindings) duplicate

  -- `commit_binding`, where there is something to write.
  unfoldable pub write : S → Plan E → Result (BindingError E) Binding × S
  write s (err error) = (err error, s)
  write s (ok (binding, none)) = (ok binding, s)
  write s (ok (binding, some commit)) =
      let (committed, s') = store.commit_binding s commit in
      (map_err store_error (committed >>= λ _. ok binding), s')

module _ {S E : Type 0} (hashing : Hashing) (store : BindingStore S E) where
  -- A plan that writes `binding`.
  unfoldable pub planned : Option Binding → Binding → Timestamp → Plan E
  planned previous binding at = do
    commit ← map_err invalid (binding_commit hashing previous binding at)
    ok (binding, some commit)

  -- `uuid` is the text of `Uuid::new_v4()`.
  unfoldable pub plan_create : S → BindingInput → Text → Timestamp → Plan E
  plan_create s input uuid at = do
    map_err invalid (validate_input input)
    ensure_unique store s input none
    status ← endpoint_status store s input
    id ← map_err invalid (string_value "BindingId" (text "binding:v1:" ++ uuid))
    planned none (created_binding id input status at) at

  unfoldable pub updated_status : S → Binding → BindingInput → Result (BindingError E) BindingStatus
  updated_status s existing input =
      if existing.status == BindingStatus.disabled
      then ok BindingStatus.disabled
      else endpoint_status store s input

  -- A disabled binding need not be unique.
  unfoldable pub ensure_unique_unless_disabled :
      S → Binding → BindingId → BindingInput → Result (BindingError E) (Unit {0})
  ensure_unique_unless_disabled s existing binding_id input =
      if existing.status != BindingStatus.disabled
      then ensure_unique store s input (some binding_id)
      else ok tt

  unfoldable pub planned_change : Binding → Binding → Timestamp → Plan E
  planned_change existing binding at =
      if binding == existing then ok (existing, none) else planned (some existing) binding at

  unfoldable pub plan_update : S → BindingId → BindingInput → Timestamp → Plan E
  plan_update s binding_id input at = do
    map_err invalid (validate_input input)
    existing ← get_existing store s binding_id
    ensure_later at existing.updated_at
    ensure_unique_unless_disabled s existing binding_id input
    status ← updated_status s existing input
    planned_change existing (updated_binding existing input status at) at

  -- Another status at a later time.
  unfoldable pub planned_status : Binding → BindingStatus → Timestamp → Plan E
  planned_status existing status at = do
    ensure_later at existing.updated_at
    planned (some existing) (record existing { status = status; updated_at = at }) at

  unfoldable pub plan_disable : S → BindingId → Timestamp → Plan E
  plan_disable s binding_id at = do
    existing ← get_existing store s binding_id
    if existing.status == BindingStatus.disabled
        then ok (existing, none)
        else planned_status existing BindingStatus.disabled at

  unfoldable pub reconciled : S → Binding → Timestamp → Plan E
  reconciled s existing at = do
    status ← endpoint_status store s (input_of existing)
    if status == existing.status then ok (existing, none) else planned_status existing status at

  unfoldable pub plan_reconcile : S → BindingId → Timestamp → Plan E
  plan_reconcile s binding_id at = do
    existing ← get_existing store s binding_id
    if existing.status == BindingStatus.disabled
        then ok (existing, none)
        else reconciled s existing at

  unfoldable pub create : S → BindingInput → Text → Timestamp → Result (BindingError E) Binding × S
  create s input uuid at = write store s (plan_create s input uuid at)

  unfoldable pub update :
      S → BindingId → BindingInput → Timestamp → Result (BindingError E) Binding × S
  update s binding_id input at = write store s (plan_update s binding_id input at)

  unfoldable pub disable : S → BindingId → Timestamp → Result (BindingError E) Binding × S
  disable s binding_id at = write store s (plan_disable s binding_id at)

  unfoldable pub reconcile : S → BindingId → Timestamp → Result (BindingError E) Binding × S
  reconcile s binding_id at = write store s (plan_reconcile s binding_id at)
