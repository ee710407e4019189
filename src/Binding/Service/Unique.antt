-- ===== src/Binding/Service/Unique.antt =====
-- No two live bindings have the same endpoints and kind, through any sequence of mutations.
pub mod Reachable
use next_infra.Base.{
  ℕ, ◌<◌, ◌≤◌, leb, Bool, true, false, not, ◌&&◌, ◌||◌, List, [], ◌∷◌, any, contains, Option, none,
  some, Text, text_eq, Result, ok, err, ◌==◌, ◌≡◌, ◌≢◌, refl, sym, ap, ◌∙◌, arith, subst,
  Bool-cases, Result-cases, inl, inr, ◌⊎◌, ==→≡,
}
use next_infra.Core.Ids.{BindingId, Timestamp}
use next_infra.Core.Status.{BindingStatus, binding_status_eq}
use next_infra.Core.Model.{Binding, binding_eq}
use next_infra.Core.Ports.{BindingCommit, BindingStore}
use next_infra.Binding.Input.{BindingInput, BindingError}
use next_infra.Binding.Commit.{binding_commit}
use next_infra.Core.Hashing.{Hashing}
use next_infra.Binding.Commit.Made.{binding_commit-Made}
use next_infra.Binding.Service.{
  is_live, is_duplicate, updated_binding, created_binding, endpoint_status, create, update, disable,
  reconcile, ensure_unique,
}
use next_infra.Binding.Service.Plans.{ensure_unique-eq-ok, plan_create-Created}
use next_infra.Binding.Service.Plans.Changes.{plan_update-Updated, Reconciles}
use next_infra.Binding.Service.Mutations.{
  Mutation, mutate, Stored, SetOrKept, mutate-Refused, create-Stored, update-Stored,
  disable-SetOrKept, reconcile-SetOrKept,
}

-- Two live bindings with the same endpoints and kind.
abbrev pub clashes : Binding → Binding → Bool
clashes x y =
    (x.source_resource_id == y.source_resource_id)
    && (x.target_resource_id == y.target_resource_id)
    && (x.kind == y.kind)
    && is_live x.status
    && is_live y.status

abbrev pub Unique : List Binding → Type 0
Unique bindings =
    (x y : Binding)
    → contains bindings x ≡ true
    → contains bindings y ≡ true
    → clashes x y ≡ true
    → x.binding_id ≡ y.binding_id

-- The bindings after `b` was stored in the place of the binding of its id.
abbrev pub Upserted : Binding → List Binding → List Binding → Type 0
Upserted b before after =
    (x : Binding)
    → contains after x ≡ true
    → (x ≡ b) ⊎ ((contains before x ≡ true) × (x.binding_id ≢ b.binding_id))

-- What the service relies on: a binding that is found is listed under its id, a commit that succeeds
-- stores its binding in the place of the binding of that id, and one that fails stores nothing.
pub record StoreLaws {S E : Type 0} (store : BindingStore S E) : Type 0 where
  pub finds :
      (s : S) (id : BindingId) (b : Binding) (bindings : List Binding)
      → store.get_binding s id ≡ ok (some b)
      → store.list_bindings s ≡ ok bindings
      → (contains bindings b ≡ true) × (b.binding_id ≡ id)
  pub upserts :
      (s : S) (c : BindingCommit) (before : List Binding)
      → (store.commit_binding s c).0 ≡ ok tt
      → store.list_bindings s ≡ ok before
      → (after : List Binding) × (store.list_bindings (store.commit_binding s c).1 ≡ ok after)
        × Upserted c.binding before after
  pub refuses :
      (s : S) (c : BindingCommit) (e : E)
      → (store.commit_binding s c).0 ≡ err e
      → store.list_bindings (store.commit_binding s c).1 ≡ store.list_bindings s

clashes_symmetric : (x y : Binding) → clashes x y ≡ clashes y x
clashes_symmetric x y = ground arith

any-contains :
    (p : Binding → Bool) (bindings : List Binding) (x : Binding)
    → any p bindings ≡ false
    → contains bindings x ≡ true
    → p x ≡ false
unfolding contains
any-contains p [] x h k = absurd (ground arith)
any-contains p (b ∷ bindings) x h k = elim (Bool-cases (x == b)) [
  | inl same ↦ subst (λ y. p y ≡ false) (sym (==→≡ x b same)) (ground arith)
  | inr other ↦ any-contains p bindings x (ground arith) (ground arith)
]

-- Nothing else that is listed clashes with `b`.
abbrev pub Fresh : List Binding → Binding → Type 0
Fresh bindings b =
    (x : Binding) → contains bindings x ≡ true → x.binding_id ≢ b.binding_id → clashes x b ≡ false

upsert-Unique :
    (b : Binding) (before after : List Binding)
    → Unique before
    → Fresh before b
    → Upserted b before after
    → Unique after
upsert-Unique b before after unique fresh upserted x y in_x in_y clash = elim (upserted x in_x) [
  | inl x_is ↦ elim (upserted y in_y) [
    | inl y_is ↦ ap (λ (z : Binding). z.binding_id) (x_is ∙ sym y_is)
    | inr (in_before, other) ↦ absurd (
        clash_absurd (fresh y in_before other)
          (clashes_symmetric y b ∙ ap (λ z. clashes z y) (sym x_is) ∙ clash))
  ]
  | inr (in_before, other) ↦ elim (upserted y in_y) [
    | inl y_is ↦
        absurd (clash_absurd (fresh x in_before other) (ap (λ z. clashes x z) (sym y_is) ∙ clash))
    | inr (in_before', _) ↦ unique x y in_before in_before' clash
  ]
]
  where
    clash_absurd : {c : Bool} → c ≡ false → c ≡ true → ⊥
    clash_absurd {c} refuted clashing = ground arith

some-injective : {a b : BindingId} → ◌≡◌ {A = Option BindingId} (some a) (some b) → a ≡ b
some-injective h = cc

disabled-Fresh :
    (bindings : List Binding) (b : Binding) → b.status ≡ BindingStatus.disabled → Fresh bindings b
disabled-Fresh bindings b disabled x listed other = ground arith

live_status : (status : BindingStatus) → status ≢ BindingStatus.disabled → is_live status ≡ true
live_status BindingStatus.active h = ground arith
live_status BindingStatus.unresolved h = ground arith
live_status BindingStatus.disabled h = absurd (h refl)

-- A listed live binding only changes its status.
status-Fresh :
    (bindings : List Binding) (old : Binding) (status : BindingStatus) (at : Timestamp)
    → Unique bindings
    → contains bindings old ≡ true
    → old.status ≢ BindingStatus.disabled
    → Fresh bindings (record old { status = status; updated_at = at })
status-Fresh bindings old status at unique listed live x in_x other =
    elim (Bool-cases (clashes x (record old { status = status; updated_at = at }))) [
      | inr free ↦ free
      | inl clash ↦
          absurd (other (unique x old in_x listed (clash_before x old status at live clash)))
    ]
  where
    clash_before :
        (x old : Binding) (status : BindingStatus) (at : Timestamp)
        → old.status ≢ BindingStatus.disabled
        → clashes x (record old { status = status; updated_at = at }) ≡ true
        → clashes x old ≡ true
    clash_before x old status at live clash = ground (arith, live_status old.status live)

-- What `ensure_unique` let through: any binding with the endpoints and the kind of the input.
ensured-Fresh :
    (bindings : List Binding) (input : BindingInput) (excluded : Option BindingId) (b : Binding)
    → any (is_duplicate input excluded) bindings ≡ false
    → ((id : BindingId) → excluded ≡ some id → b.binding_id ≡ id)
    → b.source_resource_id ≡ input.source_resource_id
    → b.target_resource_id ≡ input.target_resource_id
    → b.kind ≡ input.kind
    → Fresh bindings b
ensured-Fresh bindings input none b free excludes source target kind x listed other =
    ground (arith, any-contains (is_duplicate input none) bindings x free listed)
ensured-Fresh bindings input (some id) b free excludes source target kind x listed other =
    ground
      (arith, any-contains (is_duplicate input (some id)) bindings x free listed, excludes id refl)
