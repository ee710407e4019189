-- ===== src/Binding/Tests/Service.antt =====
-- The theorems of the binding service at concrete inputs.
use next_infra.Base.{
  ℕ, ◌<◌, ◌++◌, true, [], ◌∷◌, contains, none, some, text, text_eq, trim, is_whitespace,
  Text-discrete, ℕ_discrete, decimal, Result, ok, err, ◌≡◌, ◌≢◌, refl, ap, ◌⊎◌, arith,
}
use next_infra.Base.Texts.{trim_start, text_lt, decimal_digits}
use next_infra.Core.Json.{insert_fields, insert_member, json_object, Value-discrete}
use next_infra.Core.Encode.{lifecycle_json, evidence_json, binding_status_json}
use next_infra.Core.Ids.{string_value, schema_version}
use next_infra.Core.Status.{BindingStatus, BindingStatus-discrete, Lifecycle-discrete}
use next_infra.Core.Model.{Binding, Binding-discrete}
use next_infra.Core.Ports.{BindingCommit}
use next_infra.Core.Error.{DomainError}
use next_infra.Binding.Input.{BindingError, store_error, validate_input, ensure_later}
use next_infra.Binding.Commit.{
  relation_lifecycle, relation_id, configured_relation, field_change, binding_changes,
  identity_changed, replaced_relations, commit_changes, fingerprint, relation_version,
  relation_versions, binding_commit,
}
use next_infra.Core.Hashing.{hex}
use next_infra.Core.Hashing.{hex_digit}
use next_infra.Binding.Service.{
  get_existing, endpoint_status, ensure_unique, write, planned, plan_create, updated_status,
  ensure_unique_unless_disabled, planned_change, plan_update, planned_status, plan_disable,
  reconciled, plan_reconcile, create, update, disable, reconcile,
}
use next_infra.Binding.Service.Mutations.{
  IsMade, Mutation, mutate, Stored, Ensured, SetOrKept, mutate-Refused, create-Stored,
  update-Stored, disable-SetOrKept,
}
use next_infra.Binding.Service.Written.{Refused}
use next_infra.Binding.Service.Unique.Reachable.{IsUnique, Reaches, Reaches-IsUnique}
use next_infra.Binding.Tests.Fixture.{
  MemoryStore, memory, memory-StoreLaws, find_binding, without, stored, store, input_to, hashing,
}

abbrev or_stored : Result (BindingError ℕ) Binding → Binding
or_stored (ok b) = b
or_stored (err e) = stored

abbrev creation : Mutation
creation = Mutation.creation (input_to (b'z' ∷ [])) (b'u' ∷ [])

abbrev change : Mutation
change = Mutation.change (b'o' ∷ []) (input_to (b'x' ∷ []))

abbrev answer : MemoryStore → Mutation → Result (BindingError ℕ) Binding
answer s m = (mutate hashing memory s m 5).0

abbrev after : Mutation → MemoryStore
after m = (mutate hashing memory store m 5).1

abbrev refusing : MemoryStore
refusing = record store { refuses = true }

answers :
    (answer store creation ≡ ok (or_stored (answer store creation)))
    × (answer store change ≡ ok (or_stored (answer store change)))
    × (answer store (Mutation.disabling (b'o' ∷ []))
        ≡ ok (or_stored (answer store (Mutation.disabling (b'o' ∷ [])))))
    × (answer store (Mutation.reconciliation (b'o' ∷ [])) ≡ ok stored)
    × (answer refusing change ≡ err (store_error 7))
unfolding create update disable reconcile write plan_create plan_update plan_disable plan_reconcile
    reconciled planned planned_change planned_status updated_status ensure_unique_unless_disabled
    ensure_unique endpoint_status get_existing validate_input ensure_later binding_commit
    relation_versions relation_version fingerprint commit_changes replaced_relations
    identity_changed binding_changes field_change configured_relation relation_id relation_lifecycle
    hex hex_digit string_value schema_version lifecycle_json evidence_json binding_status_json
    insert_fields insert_member json_object Value-discrete BindingStatus-discrete Lifecycle-discrete
    trim_start text_lt text trim is_whitespace Text-discrete ℕ_discrete decimal decimal_digits
    find_binding without Binding-discrete
answers = (refl, refl, refl, refl, refl)

abbrev created : Binding
created = or_stored (answer store creation)

abbrev updated : Binding
updated = or_stored (answer store change)

abbrev disabled : Binding
disabled = or_stored (answer store (Mutation.disabling (b'o' ∷ [])))

create-Stored_example :
    ((input_to (b'z' ∷ [])).source_resource_id ≢ (input_to (b'z' ∷ [])).target_resource_id)
    × IsMade created.binding_id (input_to (b'z' ∷ [])) 5 5 created
    × (string_value "BindingId" (text "binding:v1:" ++ b'u' ∷ []) ≡ ok created.binding_id)
    × (endpoint_status memory store (input_to (b'z' ∷ [])) ≡ ok created.status)
    × Ensured hashing memory store (input_to (b'z' ∷ [])) none
    × Stored hashing memory store none created 5 (after creation)
create-Stored_example =
    create-Stored hashing memory store (after creation) (input_to (b'z' ∷ [])) (b'u' ∷ []) 5 created
      (ap (λ r. (r, after creation)) answers.0)

update-Stored_example :
    (old : Binding) × (memory.get_binding store (b'o' ∷ []) ≡ ok (some old))
    × (old.updated_at < 5)
    × IsMade old.binding_id (input_to (b'x' ∷ [])) old.created_at 5 updated
    × ((input_to (b'x' ∷ [])).source_resource_id ≢ (input_to (b'x' ∷ [])).target_resource_id)
    × ((old.status ≡ BindingStatus.disabled) → updated.status ≡ BindingStatus.disabled)
    × ((old.status ≢ BindingStatus.disabled)
        → endpoint_status memory store (input_to (b'x' ∷ [])) ≡ ok updated.status)
    × ((old.status ≢ BindingStatus.disabled)
        → Ensured hashing memory store (input_to (b'x' ∷ [])) (some (b'o' ∷ [])))
    × Stored hashing memory store (some old) updated 5 (after change)
update-Stored_example =
    update-Stored hashing memory store (after change) (b'o' ∷ []) (input_to (b'x' ∷ [])) 5 updated
      (ap (λ r. (r, after change)) answers.1)

disable-SetOrKept_example :
    (old : Binding) × (memory.get_binding store (b'o' ∷ []) ≡ ok (some old))
    × (disabled.status ≡ BindingStatus.disabled)
    × SetOrKept hashing memory store old 5 disabled (after (Mutation.disabling (b'o' ∷ [])))
disable-SetOrKept_example =
    disable-SetOrKept hashing memory store (after (Mutation.disabling (b'o' ∷ []))) (b'o' ∷ []) 5
      disabled (ap (λ r. (r, after (Mutation.disabling (b'o' ∷ [])))) answers.2)

mutate-Refused_example :
    ((mutate hashing memory refusing change 5).1 ≡ refusing)
    ⊎ Refused memory refusing (store_error 7) (mutate hashing memory refusing change 5).1
mutate-Refused_example = mutate-Refused hashing memory refusing change 5 (store_error 7) answers.4

store-IsUnique : IsUnique hashing memory memory-StoreLaws store
unfolding contains
store-IsUnique = (stored ∷ [], refl, λ x y in_x in_y clash. ground arith)

abbrev twice :
    Reaches hashing memory memory-StoreLaws store
      (mutate hashing memory (after creation) change 6).1
twice = Reaches.then change 6 (Reaches.then creation 5 Reaches.here)

Reaches-IsUnique_example :
    IsUnique hashing memory memory-StoreLaws (mutate hashing memory (after creation) change 6).1
Reaches-IsUnique_example = Reaches-IsUnique hashing memory memory-StoreLaws twice store-IsUnique

abbrev empty_commit : BindingCommit
empty_commit = record { binding = stored; relations = []; relation_versions = []; changes = [] }

abbrev or_empty : Result DomainError BindingCommit → BindingCommit
or_empty (ok c) = c
or_empty (err e) = empty_commit

abbrev made : BindingCommit
made = or_empty (binding_commit hashing (some stored) updated 5)
