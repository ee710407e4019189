-- ===== src/Sync/Changes/Diff.antt =====
-- A difference lists exactly the fields whose values differ.
use mathlib.Core.List.{map}
use next_infra.Base.{
  List, [], ◌∷◌, some, Text, text, trim, Text-discrete, ℕ_discrete, ok, ◌≡◌, refl, if◌then◌else◌,
  All, Bool-cases, inl, inr,
}
use next_infra.Base.Texts.{is_whitespace}
use next_infra.Core.Ids.{string_value}
use next_infra.Core.Json.{Value, get_field}
use next_infra.Core.Model.{Resource, FieldChange}
use next_infra.Sync.Changes.{
  same_field, diff_fields, resource_diff, resource_fields, resource_snapshot,
}

abbrev pub field_change : Value → Value → Text → FieldChange
field_change before after field = record {
  path = field;
  before = get_field before field;
  after = get_field after field;
}

-- The fields at which the two values differ, in the order of the list.
abbrev pub differing : Value → Value → List Text → List Text
differing before after [] = []
differing before after (field ∷ fields) =
    let rest = differing before after fields in
    if same_field (get_field before field) (get_field after field) then rest else field ∷ rest

-- If all the names are valid field paths, the difference of two values is one change for each field
-- at which they differ, in order, with both values.
pub diff_fields-differing :
    (before after : Value) (fields : List Text)
    → All (λ f. string_value "FieldPath" f ≡ ok f) fields
    → diff_fields before after fields
      ≡ ok (map (field_change before after) (differing before after fields))
unfolding diff_fields
diff_fields-differing before after [] valid = refl
diff_fields-differing before after (field ∷ fields) valid =
    elim (Bool-cases (same_field (get_field before field) (get_field after field))) [
      | inl same ↦ rw (same) (diff_fields-differing before after fields valid.1)
      | inr differs ↦ rw (differs, valid.0, diff_fields-differing before after fields valid.1) refl
    ]

-- The paths that the code writes out are valid.
resource_fields-valid : All (λ f. string_value "FieldPath" f ≡ ok f) resource_fields
unfolding string_value text trim is_whitespace Text-discrete ℕ_discrete
resource_fields-valid = (refl, (refl, (refl, (refl, (refl, (refl, (refl, (refl, (refl, tt)))))))))

-- The difference between two stored resources never fails.
pub resource_diff-differing :
    (old new : Resource)
    → resource_diff (some old) new
      ≡ ok (
          map
            (field_change (resource_snapshot old) (resource_snapshot new))
            (differing (resource_snapshot old) (resource_snapshot new) resource_fields))
unfolding resource_diff
resource_diff-differing old new =
    diff_fields-differing (resource_snapshot old) (resource_snapshot new) resource_fields
      resource_fields-valid
