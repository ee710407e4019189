-- ===== src/Binding/Tests/Fixture.antt =====
-- The in-memory store of the tests of crates/next-infra-binding/src/lib.rs.
use next_infra.Base.{
  ℕ, Bool, true, false, List, [], ◌∷◌, contains, Option, none, some, text_eq, ok, err,
  if◌then◌else◌, ◌==◌, ◌≡◌, ◌≢◌, sym, ap, ◌∙◌, subst, arith, inl, inr, Bool-cases, ==→≡, ≡→==,
}
use next_infra.Core.Ids.{BindingId, ResourceId}
use next_infra.Core.Status.{BindingStatus, Lifecycle, ResourceHealth}
use next_infra.Core.Json.{null}
use next_infra.Core.Model.{Binding, binding_eq, Resource}
use next_infra.Core.Ports.{BindingStore}
use next_infra.Binding.Input.{BindingInput}
use next_infra.Core.Hashing.{Hashing}
use next_infra.Binding.Service.Unique.{Upserted, StoreLaws}

unfoldable pub find_binding : List Binding → BindingId → Option Binding
find_binding [] id = none
find_binding (b ∷ rows) id =
    let rest = find_binding rows id in if id == b.binding_id then some b else rest

unfoldable pub without : BindingId → List Binding → List Binding
without id [] = []
without id (b ∷ rows) = let rest = without id rows in if b.binding_id == id then rest else b ∷ rest

-- The bindings, and whether the store refuses to write.
pub record MemoryStore : Type 0 where
  pub bindings : List Binding
  pub refuses : Bool

-- Every resource exists and is active, but `x`.
abbrev resource : ResourceId → Resource
resource id = record {
  resource_id = id;
  connection_id = b'c' ∷ [];
  kind = b'a' ∷ b'.' ∷ b'b' ∷ [];
  external_id = id;
  name = id;
  display_name = id;
  scope = b's' ∷ [];
  labels = [];
  lifecycle = Lifecycle.active;
  health = ResourceHealth.healthy;
  attributes = null;
  attribute_schema_version = 1;
  fingerprint = b'f' ∷ [];
  first_seen_at = 1;
  last_seen_at = 1;
  last_changed_at = 1;
  last_sync_run_id = b'1' ∷ [];
}

abbrev pub memory : BindingStore MemoryStore ℕ
memory = record {
  reader = record {
    get_connection = λ s id. ok none;
    get_resource = λ s id. ok (if id == b'x' ∷ [] then none else some (resource id));
    get_relation = λ s id. ok none;
    latest_relation_version_fingerprint = λ s id. ok none;
    get_sync_run = λ s id. ok none;
    sync_cursor = λ s id. ok none;
    list_resources_for_scope = λ s id scope. ok [];
    missing_evidence_state = λ s id scope. ok none;
  };
  get_binding = λ s id. ok (find_binding s.bindings id);
  list_bindings = λ s. ok s.bindings;
  commit_binding = λ s c.
      if s.refuses
      then (err 7, s)
      else (ok tt, record s { bindings = c.binding ∷ without c.binding.binding_id s.bindings });
}

find_binding-finds :
    (rows : List Binding) (id : BindingId) (b : Binding)
    → find_binding rows id ≡ some b
    → (contains rows b ≡ true) × (b.binding_id ≡ id)
unfolding find_binding contains
find_binding-finds [] id b h = absurd cc
find_binding-finds (r ∷ rows) id b h = elim (Bool-cases (id == r.binding_id)) [
  | inl same ↦
      let r_is : r ≡ b = ground arith in
      (
        ground (arith, ≡→== b r (sym r_is)),
        sym (ap (λ (x : Binding). x.binding_id) r_is) ∙ ground arith,
      )
  | inr other ↦
      let rest = find_binding-finds rows id b (rw other at h) in (ground (arith, rest.0), rest.1)
]

contains-without :
    (rows : List Binding) (id : BindingId) (x : Binding)
    → contains (without id rows) x ≡ true
    → (contains rows x ≡ true) × (x.binding_id ≢ id)
unfolding without contains
contains-without [] id x h = absurd (ground arith)
contains-without (r ∷ rows) id x h = elim (Bool-cases (r.binding_id == id)) [
  | inl same ↦
      let rest = contains-without rows id x (rw same at h) in (ground (arith, rest.0), rest.1)
  | inr other ↦ elim (Bool-cases (x == r)) [
    | inl x_is ↦ (
      ground arith,
      subst (λ (y : Binding). y.binding_id ≢ id) (sym (==→≡ x r x_is)) (ground arith),
    )
    | inr not_r ↦
        let rest = contains-without rows id x (rw (not_r) at (rw other at h)) in
        (ground (arith, rest.0), rest.1)
  ]
]

put-Upserted : (b : Binding) (rows : List Binding) → Upserted b rows (b ∷ without b.binding_id rows)
unfolding contains
put-Upserted b rows x listed = elim (Bool-cases (x == b)) [
  | inl same ↦ inl (==→≡ x b same)
  | inr other ↦ inr (contains-without rows b.binding_id x (rw other at listed))
]

pub memory-StoreLaws : StoreLaws memory
unfolding contains
memory-StoreLaws = record {
  finds = λ s id b bindings found listed.
      subst (λ rows. (contains rows b ≡ true) × (b.binding_id ≡ id)) (ground arith)
        (find_binding-finds s.bindings id b (ground arith));
  upserts = λ s c before done listed. (
    c.binding ∷ without c.binding.binding_id s.bindings,
    ground arith,
    subst (λ rows. Upserted c.binding rows (c.binding ∷ without c.binding.binding_id s.bindings))
        (ground arith) (put-Upserted c.binding s.bindings),
  );
  refuses = λ s c e failed. ground arith;
}

-- A binding from `p` to `q`, and its input.
abbrev pub stored : Binding
stored = record {
  binding_id = b'o' ∷ [];
  source_resource_id = b'p' ∷ [];
  target_resource_id = b'q' ∷ [];
  kind = b'k' ∷ b'.' ∷ b'l' ∷ [];
  status = BindingStatus.active;
  created_at = 1;
  updated_at = 3;
}

abbrev pub store : MemoryStore
store = record { bindings = stored ∷ []; refuses = false }

abbrev pub input_to : ResourceId → BindingInput
input_to target = record {
  source_resource_id = b'p' ∷ [];
  target_resource_id = target;
  kind = b'k' ∷ b'.' ∷ b'l' ∷ [];
}

abbrev pub hashing : Hashing
hashing = record { to_vec = λ value. ok (171 ∷ []); digest = λ bytes. bytes }
