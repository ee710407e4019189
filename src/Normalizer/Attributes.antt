-- ===== src/Normalizer/Attributes.antt =====
-- The projection of a resource's attributes onto the paths that its schema allows.
pub mod Laws
use next_infra.Base.{
  ℕ, zero, suc, ◌+◌, ◌-◌, ◌^◌, ◌%◌, List, [], ◌∷◌, Option, none, some, Text, text_eq, text_lt,
  split, if◌then◌else◌, ◌==◌,
}
use next_infra.Core.Json.{
  Value, null, boolean, number, string, array, object, Values, nil, cons, Members, end, member,
  get_member, insert_member,
}

unfoldable pub value_at_path : Value → List Text → Option Value
value_at_path value [] = some value
value_at_path (object members) (segment ∷ rest) = elim (get_member members segment) [
  | none ↦ none
  | some value ↦ value_at_path value rest
]
value_at_path _ (segment ∷ rest) = none

-- An object on the way is made where there is none; any other value on the way stays.
unfoldable pub insert_at_path : Members → List Text → Value → Members
insert_at_path target [] value = target
insert_at_path target (first ∷ []) value = insert_member target first value
insert_at_path target (first ∷ second ∷ rest) value = elim (get_member target first) [
  | none ↦ insert_member target first (object (insert_at_path end (second ∷ rest) value))
  | some (object members) ↦
      insert_member target first (object (insert_at_path members (second ∷ rest) value))
  | some _ ↦ target
]

unfoldable mutual
  -- The counts are `u64`.

  pub count_leaf_fields : Value → ℕ
  count_leaf_fields (object members) = count_members members
  count_leaf_fields (array values) = 1
  count_leaf_fields (string value) = 1
  count_leaf_fields null = 1
  count_leaf_fields (boolean b) = 1
  count_leaf_fields (number n) = 1

  pub count_members : Members → ℕ
  count_members end = 0
  count_members (member key value members) =
      (count_leaf_fields value + count_members members) % 2 ^ 64

-- The projection so far, and the leaves that it selected.
unfoldable pub project_path : Members → Members × ℕ → Text → Members × ℕ
project_path source (projected, selected) path =
    elim (value_at_path (object source) (split b'.' path)) [
      | none ↦ (projected, selected)
      | some value ↦ (
        insert_at_path projected (split b'.' path) value,
        (selected + count_leaf_fields value) % 2 ^ 64,
      )
    ]

unfoldable pub project_paths : Members → Members × ℕ → List Text → Members × ℕ
project_paths source progress [] = progress
project_paths source progress (path ∷ paths) =
    project_paths source (project_path source progress path) paths

unfoldable pub project_attributes : Members → List Text → Value × ℕ
project_attributes source allowed_paths =
    let (projected, selected) = project_paths source (end, 0) allowed_paths in
    (object projected, count_leaf_fields (object source) - selected)
