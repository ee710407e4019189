-- ===== src/Binding/Service/Plans/Changes.antt =====
-- The plans of update, disable and reconcile that succeed.
use next_infra.Base.{
  ◌<◌, false, Option, none, some, text_eq, ok, ◌>>=◌, ◌>>◌, map_err, if◌then◌else◌, ◌==◌, ◌≡◌, ◌≢◌,
  refl, arith, subst, >>=-eq-ok, Bool-cases, inl, inr, ◌⊎◌,
}
use next_infra.Core.Ids.{BindingId, Timestamp}
use next_infra.Core.Status.{lifecycle_eq, BindingStatus, binding_status_eq}
use next_infra.Core.Model.{Binding, binding_eq}
use next_infra.Core.Ports.{BindingCommit, BindingStore}
use next_infra.Binding.Input.{BindingInput, BindingError, invalid, validate_input, ensure_later}
use next_infra.Core.Hashing.{Hashing}
use next_infra.Binding.Service.{
  Plan, get_existing, endpoint_status, ensure_unique_unless_disabled, planned_change,
  planned_status, plan_update, plan_disable, plan_reconcile, reconciled, updated_status,
  updated_binding, input_of,
}
use next_infra.Binding.Service.Plans.{
  get_existing-eq-ok, ensure_later-eq-ok, plan-injective, later_differs, planned-Writes, Writes,
}

module _ {S E : Type 0} (hashing : Hashing) (store : BindingStore S E) where
  pub record Updated (s : S) (binding_id : BindingId) (input : BindingInput) (at : Timestamp)
      (b : Binding) (written : Option BindingCommit) : Type 0 where
    pub differ : input.source_resource_id ≢ input.target_resource_id
    pub old : Binding
    pub read : store.get_binding s binding_id ≡ ok (some old)
    pub later : old.updated_at < at
    pub unique : ensure_unique_unless_disabled hashing store s old binding_id input ≡ ok tt
    pub status : BindingStatus
    pub found : updated_status hashing store s old input ≡ ok status
    pub writes : Writes hashing store (some old) (updated_binding old input status at) at b written

  planned_change-Writes :
      (old b : Binding) (at : Timestamp) (binding : Binding) (written : Option BindingCommit)
      → old.updated_at < b.updated_at
      → planned_change hashing store old b at ≡ ok (binding, written)
      → Writes hashing store (some old) b at binding written
  unfolding planned_change
  planned_change-Writes old b at binding written later h =
      let differs : (b == old) ≡ false = later_differs old b later in
      planned-Writes hashing store (some old) b at binding written (rw differs at h)

  pub plan_update-Updated :
      (s : S) (binding_id : BindingId) (input : BindingInput) (at : Timestamp) (b : Binding)
      (written : Option BindingCommit)
      → plan_update hashing store s binding_id input at ≡ ok (b, written)
      → Updated s binding_id input at b written
  unfolding plan_update validate_input
  plan_update-Updated s binding_id input at b written h =
      let (_, valid, h₁) =
        >>=-eq-ok (map_err {F = BindingError E} invalid (validate_input input)) _ h in
      let (old, read, h₂) = >>=-eq-ok (get_existing store s binding_id) with_old h₁ in
      let (_, later, h₃) =
        >>=-eq-ok (ensure_later {E = E} at old.updated_at) (λ _. when_later old) h₂ in
      let (_, unique, h₄) =
        >>=-eq-ok (ensure_unique_unless_disabled hashing store s old binding_id input)
          (λ _. when_unique old) h₃ in
      let (status, found, h₅) =
        >>=-eq-ok (updated_status hashing store s old input) (with_status old) h₄ in
      let later' = ensure_later-eq-ok {E = E} at old.updated_at later in
      record {
        differ = λ same. absurd (ground arith);
        old = old;
        read = get_existing-eq-ok store s binding_id old read;
        later = later';
        unique = unique;
        status = status;
        found = found;
        writes =
            planned_change-Writes old (updated_binding old input status at) at b written later' h₅;
      }
    where
      with_status : Binding → BindingStatus → Plan E
      with_status old status =
          planned_change hashing store old (updated_binding old input status at) at

      when_unique : Binding → Plan E
      when_unique old = updated_status hashing store s old input >>= with_status old

      when_later : Binding → Plan E
      when_later old =
          ensure_unique_unless_disabled hashing store s old binding_id input >> when_unique old

      with_old : Binding → Plan E
      with_old old = ensure_later at old.updated_at >> when_later old

  -- The two ways of a plan that only sets the status: nothing to do, or a later time.
  pub data Set (old : Binding) (at : Timestamp) (status : BindingStatus)
      : Binding → Option BindingCommit → Type 0 where
    kept : old.status ≡ status → Set old at status old none
    set :
        {b : Binding} {written : Option BindingCommit}
        → old.updated_at < at
        → Writes hashing store
            (some old)
            (record old { status = status; updated_at = at })
            at
            b
            written
        → Set old at status b written

  kept_pair :
      (old : Binding) (at : Timestamp) (status : BindingStatus) (b : Binding)
      (written : Option BindingCommit)
      → old.status ≡ status
      → ◌≡◌ {A = Plan E} (ok (old, none)) (ok (b, written))
      → Set old at status b written
  kept_pair old at status b written same h =
      subst (λ p. Set old at status p.0 p.1) (plan-injective h) (kept same)

  planned_status-Set :
      (old : Binding) (status : BindingStatus) (at : Timestamp) (b : Binding)
      (written : Option BindingCommit)
      → planned_status hashing store old status at ≡ ok (b, written)
      → Set old at status b written
  unfolding planned_status
  planned_status-Set old status at b written h =
      let (_, later, h₁) = >>=-eq-ok (ensure_later {E = E} at old.updated_at) _ h in
      set (ensure_later-eq-ok {E = E} at old.updated_at later) (
        planned-Writes hashing store (some old) (record old { status = status; updated_at = at }) at
          b written h₁)

  pub record Disabled (s : S) (binding_id : BindingId) (at : Timestamp) (b : Binding)
      (written : Option BindingCommit) : Type 0 where
    pub old : Binding
    pub read : store.get_binding s binding_id ≡ ok (some old)
    pub sets : Set old at BindingStatus.disabled b written

  disable-Set :
      (old : Binding) (at : Timestamp) (b : Binding) (written : Option BindingCommit)
      → (if old.status == BindingStatus.disabled
          then ok (old, none)
          else planned_status hashing store old BindingStatus.disabled at)
        ≡ ok (b, written)
      → Set old at BindingStatus.disabled b written
  disable-Set old at b written h = elim (Bool-cases (old.status == BindingStatus.disabled)) [
    | inl disabled ↦
        kept_pair old at BindingStatus.disabled b written (ground arith) (rw disabled at h)
    | inr live ↦ planned_status-Set old BindingStatus.disabled at b written (rw live at h)
  ]

  pub plan_disable-Disabled :
      (s : S) (binding_id : BindingId) (at : Timestamp) (b : Binding)
      (written : Option BindingCommit)
      → plan_disable hashing store s binding_id at ≡ ok (b, written)
      → Disabled s binding_id at b written
  unfolding plan_disable
  plan_disable-Disabled s binding_id at b written h =
      let (old, read, h₁) = >>=-eq-ok (get_existing store s binding_id) _ h in
      record {
        old = old;
        read = get_existing-eq-ok store s binding_id old read;
        sets = disable-Set old at b written h₁;
      }

  -- The status that reconciling gives: disabled stays, all else follows the endpoints.
  abbrev pub Reconciles : S → Binding → BindingStatus → Type 0
  Reconciles s old status =
      ((old.status ≡ BindingStatus.disabled) × (status ≡ BindingStatus.disabled))
      ⊎ ((old.status ≢ BindingStatus.disabled)
          × (endpoint_status store s (input_of old) ≡ ok status))

  pub record Reconciled (s : S) (binding_id : BindingId) (at : Timestamp) (b : Binding)
      (written : Option BindingCommit) : Type 0 where
    pub old : Binding
    pub read : store.get_binding s binding_id ≡ ok (some old)
    pub status : BindingStatus
    pub follows : Reconciles s old status
    pub sets : Set old at status b written

  reconciled-Set :
      (s : S) (old : Binding) (at : Timestamp) (b : Binding) (written : Option BindingCommit)
      → reconciled hashing store s old at ≡ ok (b, written)
      → (status : BindingStatus) × (endpoint_status store s (input_of old) ≡ ok status)
        × Set old at status b written
  unfolding reconciled
  reconciled-Set s old at b written h =
      let (status, found, h₁) = >>=-eq-ok (endpoint_status store s (input_of old)) _ h in
      (
        status,
        found,
        elim (Bool-cases (status == old.status)) [
          | inl same ↦ kept_pair old at status b written (ground arith) (rw same at h₁)
          | inr differs ↦ planned_status-Set old status at b written (rw differs at h₁)
        ],
      )

  reconcile-Set :
      (s : S) (old : Binding) (at : Timestamp) (b : Binding) (written : Option BindingCommit)
      → (if old.status == BindingStatus.disabled
          then ok (old, none)
          else reconciled hashing store s old at)
        ≡ ok (b, written)
      → (status : BindingStatus) × Reconciles s old status × Set old at status b written
  reconcile-Set s old at b written h = elim (Bool-cases (old.status == BindingStatus.disabled)) [
    | inl disabled ↦ (
      BindingStatus.disabled,
      inl (ground arith, refl),
      kept_pair old at BindingStatus.disabled b written (ground arith) (rw disabled at h),
    )
    | inr live ↦
        let (status, found, sets) = reconciled-Set s old at b written (rw live at h) in
        (status, inr (ground arith, found), sets)
  ]

  pub plan_reconcile-Reconciled :
      (s : S) (binding_id : BindingId) (at : Timestamp) (b : Binding)
      (written : Option BindingCommit)
      → plan_reconcile hashing store s binding_id at ≡ ok (b, written)
      → Reconciled s binding_id at b written
  unfolding plan_reconcile
  plan_reconcile-Reconciled s binding_id at b written h =
      let (old, read, h₁) = >>=-eq-ok (get_existing store s binding_id) _ h in
      let (status, follows, sets) = reconcile-Set s old at b written h₁ in
      record {
        old = old;
        read = get_existing-eq-ok store s binding_id old read;
        status = status;
        follows = follows;
        sets = sets;
      }
