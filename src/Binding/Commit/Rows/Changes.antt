-- ===== src/Binding/Commit/Rows/Changes.antt =====
-- What a binding's commit reports as changed.
use next_infra.Base.{
  true, List, [], ◌∷◌, ◌++◌, Option, none, some, String, text, text_eq, decimal, trim,
  is_whitespace, Text-discrete, ℕ_discrete, ok, ◌≡◌, refl, sym, ◌∙◌, >>=-eq-ok, ok-injective, subst,
  arith, if◌then◌else◌, ◌!=◌, Bool-cases, inl, inr,
}
use mathlib.Core.Option
use mathlib.Core.List.{append-nil}
use next_infra.Core.Error.{DomainError}
use next_infra.Core.Ids.{Timestamp, string_value}
use next_infra.Core.Evidence.{OriginRef}
use next_infra.Core.Json.{Value, value_eq, string}
use next_infra.Core.Encode.{binding_status_json}
use next_infra.Core.Model.{Binding, FieldChange, Change, ChangeSubject}
use next_infra.Core.Ports.{BindingCommit}
use next_infra.Binding.Commit.{binding_commit, binding_changes, field_change, commit_changes}
use next_infra.Core.Hashing.{Hashing}
use next_infra.Binding.Commit.Made.{binding_commit-Made}

-- A field that differs, as a list of one, and no field otherwise.
abbrev pub changed : String → Option Value → Value → List FieldChange
changed path before after =
    if elim before [ none ↦ true | some value ↦ value != after ]
    then record { path = text path; before = before; after = some after } ∷ []
    else []

-- The fields in which a binding differs from what was stored, all of them for a new binding.
abbrev pub changed_fields : Option Binding → Binding → List FieldChange
changed_fields previous b =
    ((changed "binding.source_resource_id"
          (Option.map (λ old. string old.source_resource_id) previous) (string b.source_resource_id)
        ++ changed "binding.target_resource_id"
            (Option.map (λ old. string old.target_resource_id) previous)
            (string b.target_resource_id))
      ++ changed "binding.kind" (Option.map (λ old. string old.kind) previous) (string b.kind))
    ++ changed "binding.status" (Option.map (λ old. binding_status_json old.status) previous)
        (binding_status_json b.status)

field_change-changed :
    (changes : List FieldChange) (path : String) (before : Option Value) (after : Value)
    → string_value "FieldPath" (text path) ≡ ok (text path)
    → field_change changes path before after ≡ ok (changes ++ changed path before after)
unfolding field_change
field_change-changed changes path none after valid = rw valid refl
field_change-changed changes path (some value) after valid = elim (Bool-cases (value != after)) [
  | inl differs ↦ rw (differs, valid) refl
  | inr same ↦ rw (same, append-nil changes) refl
]

paths-valid :
    (string_value "FieldPath" (text "binding.source_resource_id")
      ≡ ok (text "binding.source_resource_id"))
    × (string_value "FieldPath" (text "binding.target_resource_id")
        ≡ ok (text "binding.target_resource_id"))
    × (string_value "FieldPath" (text "binding.kind") ≡ ok (text "binding.kind"))
    × (string_value "FieldPath" (text "binding.status") ≡ ok (text "binding.status"))
unfolding string_value text trim is_whitespace Text-discrete ℕ_discrete
paths-valid = (refl, refl, refl, refl)

binding_changes-changed :
    (previous : Option Binding) (b : Binding)
    → binding_changes previous b ≡ ok (changed_fields previous b)
unfolding binding_changes
binding_changes-changed previous b =
    rw
      (
        field_change-changed [] "binding.source_resource_id" _ _ paths-valid.0,
        field_change-changed _ "binding.target_resource_id" _ _ paths-valid.1,
        field_change-changed _ "binding.kind" _ _ paths-valid.2,
        field_change-changed _ "binding.status" _ _ paths-valid.3,
      )
      refl

-- What a commit reports: nothing where no field differs, else one change of the binding at this time
-- with exactly these fields.
abbrev pub Reports : Binding → Timestamp → List FieldChange → List Change → Type 0
Reports b at [] changes = changes ≡ []
Reports b at (f ∷ fields) changes =
    (change : Change) × (changes ≡ change ∷ [])
    × (change.subject ≡ ChangeSubject.binding b.binding_id)
    × (change.observed_at ≡ at)
    × (change.fields ≡ f ∷ fields)
    × (change.origin ≡ OriginRef.binding b.binding_id)

commit_changes-Reports :
    (b : Binding) (at : Timestamp) (fields : List FieldChange) (changes : List Change)
    → commit_changes b at fields ≡ ok changes
    → Reports b at fields changes
unfolding commit_changes
commit_changes-Reports b at [] changes h = ground arith
commit_changes-Reports b at (f ∷ fields) changes h =
    let (id, _, h₁) =
      >>=-eq-ok
        (string_value "ChangeId"
          (text "binding-change:" ++ (b.binding_id ++ (text ":" ++ decimal at))))
        _ h in
    subst (Reports b at (f ∷ fields)) (ok-injective {E = DomainError} _ changes h₁) (
      record {
        change_id = id;
        subject = ChangeSubject.binding b.binding_id;
        observed_at = at;
        fields = f ∷ fields;
        origin = OriginRef.binding b.binding_id;
      },
      refl,
      refl,
      refl,
      refl,
      refl,
    )

-- The changes of a binding's commit: none if the binding has the endpoints, the kind and the status
-- that were stored, and otherwise one change that lists exactly the fields that differ, with both
-- values.
pub binding_commit-Reports :
    (hashing : Hashing) (previous : Option Binding) (b : Binding) (at : Timestamp)
    (c : BindingCommit)
    → binding_commit hashing previous b at ≡ ok c
    → Reports b at (changed_fields previous b) c.changes
binding_commit-Reports hashing previous b at c h =
    let m = binding_commit-Made hashing previous b at c h in
    let fields_are : m.fields ≡ changed_fields previous b =
      ok-injective {E = DomainError} m.fields (changed_fields previous b)
        (sym m.differs ∙ binding_changes-changed previous b) in
    subst (λ fields. Reports b at fields c.changes) fields_are
      (commit_changes-Reports b at m.fields c.changes m.reports)
