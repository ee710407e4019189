-- ===== src/Binding/Service/Mutations.antt =====
-- What a mutation of a binding answers and writes, and that it leaves the store alone where it fails.
use next_infra.Base.{
  ◌<◌, false, List, any, Option, none, some, Text, text_eq, text, ◌++◌, Result, ok, err, ◌≡◌, ◌≢◌,
  refl, sym, ap, ◌∙◌, arith, subst, inl, inr, ◌⊎◌,
}
use next_infra.Core.Ids.{BindingId, Timestamp, string_value}
use next_infra.Core.Status.{lifecycle_eq, BindingStatus, binding_status_eq}
use next_infra.Core.Model.{Binding, binding_eq}
use next_infra.Core.Ports.{BindingCommit, BindingStore}
use next_infra.Binding.Input.{BindingInput, BindingError}
use next_infra.Binding.Commit.{binding_commit}
use next_infra.Core.Hashing.{Hashing}
use next_infra.Binding.Service.{
  is_duplicate, ensure_unique_unless_disabled, updated_status, updated_binding, created_binding,
  endpoint_status, create, update, disable, reconcile, plan_create, plan_update, plan_disable,
  plan_reconcile,
}
use next_infra.Binding.Service.Plans.{ensure_unique-eq-ok, Writes, plan_create-Created}
use next_infra.Binding.Service.Plans.Changes.{
  Set, kept, set, Reconciles, plan_update-Updated, plan_disable-Disabled, plan_reconcile-Reconciled,
}
use next_infra.Binding.Service.Written.{Commits, Wrote, write-Wrote, Refused, write-Refused}

-- A binding with the endpoints and the kind of the input, this id and these times.
abbrev pub IsMade : BindingId → BindingInput → Timestamp → Timestamp → Binding → Type 0
IsMade id input created_at updated_at b =
    (b.binding_id ≡ id)
    × (b.source_resource_id ≡ input.source_resource_id)
    × (b.target_resource_id ≡ input.target_resource_id)
    × (b.kind ≡ input.kind)
    × (b.created_at ≡ created_at)
    × (b.updated_at ≡ updated_at)

-- A request to the service. A creation comes with the text of a new uuid.
pub data Mutation : Type 0 where
  creation : BindingInput → Text → Mutation
  change : BindingId → BindingInput → Mutation
  disabling reconciliation : BindingId → Mutation

module _ {S E : Type 0} (hashing : Hashing) (store : BindingStore S E) where
  abbrev pub mutate : S → Mutation → Timestamp → Result (BindingError E) Binding × S
  mutate s (Mutation.creation input uuid) at = create hashing store s input uuid at
  mutate s (Mutation.change id input) at = update hashing store s id input at
  mutate s (Mutation.disabling id) at = disable hashing store s id at
  mutate s (Mutation.reconciliation id) at = reconcile hashing store s id at

  -- A mutation that fails leaves the store as it was, unless the store itself refused the commit, and
  -- then the error is the store's.
  pub mutate-Refused :
      (s : S) (m : Mutation) (at : Timestamp) (e : BindingError E)
      → (mutate s m at).0 ≡ err e
      → ((mutate s m at).1 ≡ s) ⊎ Refused store s e (mutate s m at).1
  unfolding create update disable reconcile
  mutate-Refused s (Mutation.creation input uuid) at e h =
      write-Refused store s (plan_create hashing store s input uuid at) e h
  mutate-Refused s (Mutation.change id input) at e h =
      write-Refused store s (plan_update hashing store s id input at) e h
  mutate-Refused s (Mutation.disabling id) at e h =
      write-Refused store s (plan_disable hashing store s id at) e h
  mutate-Refused s (Mutation.reconciliation id) at e h =
      write-Refused store s (plan_reconcile hashing store s id at) e h

  -- No live binding but the excluded one has the endpoints and the kind of the input.
  abbrev pub Ensured : S → BindingInput → Option BindingId → Type 0
  Ensured s input excluded =
      (bindings : List Binding) × (store.list_bindings s ≡ ok bindings)
      × (any (is_duplicate input excluded) bindings ≡ false)

  -- The commit for `b` was made from the stored binding and taken by the store.
  abbrev pub Stored : S → Option Binding → Binding → Timestamp → S → Type 0
  Stored s previous b at after =
      (c : BindingCommit) × (binding_commit hashing previous b at ≡ ok c) × Commits store s c after

  pub Writes-Stored :
      (s after : S) (previous : Option Binding) (b' b : Binding) (at : Timestamp)
      (written : Option BindingCommit)
      → Writes hashing store previous b' at b written
      → Wrote store s written after
      → Stored s previous b at after
  Writes-Stored s after previous b' b at written w wrote = (
    w.commit,
    subst (λ x. binding_commit hashing previous x at ≡ ok w.commit) (sym w.same) w.made,
    subst (λ x. Wrote store s x after) w.writes wrote,
  )

  -- A created binding joins two different resources that no live binding of its kind joins. Its status
  -- is that of its endpoints, its two times are the time of the call, and the store took its commit.
  pub create-Stored :
      (s after : S) (input : BindingInput) (uuid : Text) (at : Timestamp) (b : Binding)
      → create hashing store s input uuid at ≡ (ok b, after)
      → (input.source_resource_id ≢ input.target_resource_id)
        × IsMade b.binding_id input at at b
        × (string_value "BindingId" (text "binding:v1:" ++ uuid) ≡ ok b.binding_id)
        × (endpoint_status store s input ≡ ok b.status)
        × Ensured s input none
        × Stored s none b at after
  unfolding create
  create-Stored s after input uuid at b h =
      let (written, plan_is, wrote) = write-Wrote store s after _ b h in
      let p = plan_create-Created hashing store s input uuid at b written plan_is in
      let b' = created_binding p.id input p.status at in
      (
        p.differ,
        subst (λ (x : Binding). IsMade x.binding_id input at at x) (sym p.writes.same)
            (refl, refl, refl, refl, refl, refl),
        p.named ∙ ap (λ (x : Binding). ok x.binding_id) (sym p.writes.same),
        p.found ∙ ap (λ (x : Binding). ok x.status) (sym p.writes.same),
        ensure_unique-eq-ok store s input none p.unique,
        Writes-Stored s after none b' b at written p.writes wrote,
      )

  updated_status-cases :
      (s : S) (old : Binding) (input : BindingInput) (status : BindingStatus)
      → updated_status hashing store s old input ≡ ok status
      → ((old.status ≡ BindingStatus.disabled) → status ≡ BindingStatus.disabled)
        × ((old.status ≢ BindingStatus.disabled) → endpoint_status store s input ≡ ok status)
  unfolding updated_status
  updated_status-cases s old input status h = (λ disabled. ground arith, λ live. ground arith)

  Ensured-unless_disabled :
      (s : S) (old : Binding) (binding_id : BindingId) (input : BindingInput)
      → ensure_unique_unless_disabled hashing store s old binding_id input ≡ ok tt
      → (old.status ≢ BindingStatus.disabled)
      → Ensured s input (some binding_id)
  unfolding ensure_unique_unless_disabled
  Ensured-unless_disabled s old binding_id input h live =
      ensure_unique-eq-ok store s input (some binding_id) (ground arith)

  -- An updated binding keeps its id and the time of its creation, takes the endpoints and the kind of
  -- the input, and its time advances. A disabled binding stays disabled, any other gets the status of
  -- its endpoints, and no other live binding has its endpoints and kind. The update is always written:
  -- the store took a commit for it.
  pub update-Stored :
      (s after : S) (binding_id : BindingId) (input : BindingInput) (at : Timestamp) (b : Binding)
      → update hashing store s binding_id input at ≡ (ok b, after)
      → (old : Binding) × (store.get_binding s binding_id ≡ ok (some old))
        × (old.updated_at < at)
        × IsMade old.binding_id input old.created_at at b
        × (input.source_resource_id ≢ input.target_resource_id)
        × ((old.status ≡ BindingStatus.disabled) → b.status ≡ BindingStatus.disabled)
        × ((old.status ≢ BindingStatus.disabled) → endpoint_status store s input ≡ ok b.status)
        × ((old.status ≢ BindingStatus.disabled) → Ensured s input (some binding_id))
        × Stored s (some old) b at after
  unfolding update
  update-Stored s after binding_id input at b h =
      let (written, plan_is, wrote) = write-Wrote store s after _ b h in
      let p = plan_update-Updated hashing store s binding_id input at b written plan_is in
      let cases = updated_status-cases s p.old input p.status p.found in
      let b' = updated_binding p.old input p.status at in
      let same_status : p.status ≡ b.status = ap (λ (x : Binding). x.status) (sym p.writes.same) in
      (
        p.old,
        p.read,
        p.later,
        subst (IsMade p.old.binding_id input p.old.created_at at) (sym p.writes.same)
            (refl, refl, refl, refl, refl, refl),
        p.differ,
        λ disabled. sym same_status ∙ cases.0 disabled,
        λ live. cases.1 live ∙ ap ok same_status,
        Ensured-unless_disabled s p.old binding_id input p.unique,
        Writes-Stored s after (some p.old) b' b at written p.writes wrote,
      )

  -- What becomes of a binding whose status is set: it stays as it is, or is written at a later time.
  abbrev pub SetOrKept : S → Binding → Timestamp → Binding → S → Type 0
  SetOrKept s old at b after =
      ((old.status ≡ b.status) × (b ≡ old) × (after ≡ s))
      ⊎ ((old.updated_at < at)
          × (b ≡ record old { status = b.status; updated_at = at })
          × Stored s (some old) b at after)

  set-SetOrKept :
      (s after : S) (old : Binding) (at : Timestamp) (status : BindingStatus) (b : Binding)
      (written : Option BindingCommit)
      → Set hashing store old at status b written
      → Wrote store s written after
      → (b.status ≡ status) × SetOrKept s old at b after
  set-SetOrKept s after old at status b written (kept same) wrote = (same, inl (refl, refl, wrote))
  set-SetOrKept s after old at status b written (set later w) wrote = (
    ap (λ (x : Binding). x.status) w.same,
    inr (
      later,
      subst (λ x. x ≡ record old { status = x.status; updated_at = at }) (sym w.same) refl,
      Writes-Stored s after (some old) (record old { status = status; updated_at = at }) b at
          written w wrote,
    ),
  )

  -- Disabling answers the stored binding, disabled. It writes nothing if the binding was disabled
  -- already, and otherwise only its status and its time change, the time advances, and the store took
  -- a commit for it.
  pub disable-SetOrKept :
      (s after : S) (binding_id : BindingId) (at : Timestamp) (b : Binding)
      → disable hashing store s binding_id at ≡ (ok b, after)
      → (old : Binding) × (store.get_binding s binding_id ≡ ok (some old))
        × (b.status ≡ BindingStatus.disabled)
        × SetOrKept s old at b after
  unfolding disable
  disable-SetOrKept s after binding_id at b h =
      let (written, plan_is, wrote) = write-Wrote store s after _ b h in
      let p = plan_disable-Disabled hashing store s binding_id at b written plan_is in
      let r = set-SetOrKept s after p.old at BindingStatus.disabled b written p.sets wrote in
      (p.old, p.read, r.0, r.1)

  -- Reconciling gives a binding the status of its endpoints, but leaves a disabled one disabled. It
  -- writes nothing if that is the status that the binding has, and otherwise only its status and its
  -- time change, the time advances, and the store took a commit for it.
  pub reconcile-SetOrKept :
      (s after : S) (binding_id : BindingId) (at : Timestamp) (b : Binding)
      → reconcile hashing store s binding_id at ≡ (ok b, after)
      → (old : Binding) × (store.get_binding s binding_id ≡ ok (some old))
        × Reconciles hashing store s old b.status
        × SetOrKept s old at b after
  unfolding reconcile
  reconcile-SetOrKept s after binding_id at b h =
      let (written, plan_is, wrote) = write-Wrote store s after _ b h in
      let p = plan_reconcile-Reconciled hashing store s binding_id at b written plan_is in
      let r = set-SetOrKept s after p.old at p.status b written p.sets wrote in
      (p.old, p.read, subst (Reconciles hashing store s p.old) (sym r.0) p.follows, r.1)
