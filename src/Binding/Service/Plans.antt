-- ===== src/Binding/Service/Plans.antt =====
-- What a plan of the binding service that succeeds has read, checked and made.
pub mod Changes
use next_infra.Base.{
  ℕ, ◌<◌, ◌≤◌, leb, Bool, true, false, not, ◌&&◌, ◌||◌, List, any, Option, none, some, Text,
  text_eq, text, ◌++◌, Result, ok, err, ◌>>=◌, ◌>>◌, map_err, reject_if, ok_or, if◌then◌else◌, ◌==◌,
  ◌!=◌, ◌≡◌, ◌≢◌, refl, sym, ap, ◌∙◌, arith, subst, >>=-eq-ok, map_err-eq-ok, reject_if-eq-ok,
  ok-injective, ==→≡, Bool-cases, Result-cases, Option-cases, inl, inr, ◌⊎◌,
}
use next_infra.Core.Ids.{BindingId, Timestamp, string_value}
use next_infra.Core.Status.{Lifecycle, lifecycle_eq, BindingStatus, binding_status_eq}
use next_infra.Core.Model.{Binding, binding_eq, Resource}
use next_infra.Core.Ports.{BindingCommit, BindingStore}
use next_infra.Binding.Input.{
  BindingInput, BindingError, store_error, invalid, not_found, duplicate, validate_input,
  ensure_later,
}
use next_infra.Binding.Commit.{
  binding_commit, replaced_relations, configured_relation, relation_lifecycle, relation_versions,
  binding_changes, commit_changes,
}
use next_infra.Core.Hashing.{Hashing}
use next_infra.Binding.Service.{
  Plan, is_duplicate, get_existing, endpoint_status, ensure_unique, ensure_unique_unless_disabled,
  planned, planned_change, planned_status, plan_create, plan_update, plan_disable, plan_reconcile,
  reconciled, updated_status, updated_binding, created_binding, input_of,
}

module _ {S E : Type 0} (store : BindingStore S E) where
  pub get_existing-eq-ok :
      (s : S) (id : BindingId) (old : Binding)
      → get_existing store s id ≡ ok old
      → store.get_binding s id ≡ ok (some old)
  unfolding get_existing
  get_existing-eq-ok s id old h =
      let (found, read, h₁) = >>=-eq-ok (map_err store_error (store.get_binding s id)) _ h in
      elim (Option-cases found) [
        | inl none_found ↦ absurd (ground arith)
        | inr (b, some_found) ↦ map_err-eq-ok store_error _ read ∙ ground arith
      ]

  -- No live binding but the excluded one has these endpoints and this kind.
  pub ensure_unique-eq-ok :
      (s : S) (input : BindingInput) (excluded : Option BindingId)
      → ensure_unique store s input excluded ≡ ok tt
      → (bindings : List Binding) × (store.list_bindings s ≡ ok bindings)
        × (any (is_duplicate input excluded) bindings ≡ false)
  unfolding ensure_unique
  ensure_unique-eq-ok s input excluded h =
      let (bindings, listed, h₁) = >>=-eq-ok (map_err store_error (store.list_bindings s)) _ h in
      (bindings, map_err-eq-ok store_error _ listed, unique h₁)
    where
      unique : {b : Bool} → reject_if {E = BindingError E} b duplicate ≡ ok tt → b ≡ false
      unique {b} k = reject_if-eq-ok b duplicate k

pub ensure_later-eq-ok :
    {E : Type 0} (at previous : Timestamp)
    → ensure_later {E = E} at previous ≡ ok tt
    → previous < at
unfolding ensure_later
ensure_later-eq-ok at previous h = ground arith

plan-injective :
    {E : Type 0} {p q : Binding × Option BindingCommit} → ◌≡◌ {A = Plan E} (ok p) (ok q) → p ≡ q
plan-injective {p = p} {q = q} h = ok-injective p q h

later_differs : (old b : Binding) → old.updated_at < b.updated_at → (b == old) ≡ false
later_differs old b later = elim (Bool-cases (b == old)) [
  | inl same ↦ absurd (omega (arith, ap (λ (x : Binding). x.updated_at) (==→≡ b old same)))
  | inr differs ↦ differs
]

module _ {S E : Type 0} (hashing : Hashing) (store : BindingStore S E) where
  -- A plan that writes: its binding, and a commit made for it.
  pub record Writes (previous : Option Binding) (b : Binding) (at : Timestamp) (binding : Binding)
      (written : Option BindingCommit) : Type 0 where
    pub commit : BindingCommit
    pub same : binding ≡ b
    pub writes : written ≡ some commit
    pub made : binding_commit hashing previous b at ≡ ok commit

  pub planned-Writes :
      (previous : Option Binding) (b : Binding) (at : Timestamp) (binding : Binding)
      (written : Option BindingCommit)
      → planned hashing store previous b at ≡ ok (binding, written)
      → Writes previous b at binding written
  unfolding planned
  planned-Writes previous b at binding written h =
      let (c, made, h₁) =
        >>=-eq-ok (map_err {F = BindingError E} invalid (binding_commit hashing previous b at)) _
          h in
      record {
        commit = c;
        same = ground (arith, h₁);
        writes = ground (arith, h₁);
        made = map_err-eq-ok invalid _ made;
      }

  -- The four plans, each with the stages of its `do` block.
  pub record Created (s : S) (input : BindingInput) (uuid : Text) (at : Timestamp) (b : Binding)
      (written : Option BindingCommit) : Type 0 where
    pub differ : input.source_resource_id ≢ input.target_resource_id
    pub unique : ensure_unique store s input none ≡ ok tt
    pub status : BindingStatus
    pub id : BindingId
    pub found : endpoint_status store s input ≡ ok status
    pub named : string_value "BindingId" (text "binding:v1:" ++ uuid) ≡ ok id
    pub writes : Writes none (created_binding id input status at) at b written

  pub plan_create-Created :
      (s : S) (input : BindingInput) (uuid : Text) (at : Timestamp) (b : Binding)
      (written : Option BindingCommit)
      → plan_create hashing store s input uuid at ≡ ok (b, written)
      → Created s input uuid at b written
  unfolding plan_create validate_input
  plan_create-Created s input uuid at b written h =
      let (_, valid, h₁) =
        >>=-eq-ok (map_err {F = BindingError E} invalid (validate_input input)) _ h in
      let (_, unique, h₂) =
        >>=-eq-ok (ensure_unique store s input none)
          (λ _. endpoint_status store s input >>= with_status) h₁ in
      let (status, found, h₃) = >>=-eq-ok (endpoint_status store s input) with_status h₂ in
      let (id, named, h₄) =
        >>=-eq-ok
          (map_err {F = BindingError E} invalid
            (string_value "BindingId" (text "binding:v1:" ++ uuid)))
          (with_id status) h₃ in
      record {
        differ = λ same. absurd (ground arith);
        unique = unique;
        status = status;
        id = id;
        found = found;
        named = map_err-eq-ok invalid _ named;
        writes = planned-Writes none (created_binding id input status at) at b written h₄;
      }
    where
      with_id : BindingStatus → BindingId → Plan E
      with_id status id = planned hashing store none (created_binding id input status at) at

      with_status : BindingStatus → Plan E
      with_status status =
          map_err invalid (string_value "BindingId" (text "binding:v1:" ++ uuid)) >>= with_id status
