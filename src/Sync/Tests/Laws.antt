-- ===== src/Sync/Tests/Laws.antt =====
-- The theorems on identifiers, projections, differences and absences at concrete inputs.
use next_infra.Base.{
  List, [], ◌∷◌, Result, ok, err, ◌≡◌, refl, text, trim, is_whitespace, Text-discrete, ℕ_discrete,
  text_eq, contains, split,
}
use next_infra.Base.Texts.{trim_start, text_lt}
use next_infra.Core.Ids.{string_value, validate_namespaced, validated_string}
use next_infra.Core.Status.{Lifecycle-discrete}
use next_infra.Core.Model.{Resource, Change}
use next_infra.Base.Maps.{insert, get}
use next_infra.Core.Json.{
  insert_fields, insert_member, get_member, get_field, json_object, Value-discrete,
}
use next_infra.Core.Encode.{label_members, labels_json, lifecycle_json, health_json}
use next_infra.Core.MissingEvidence.{count_for}
use next_infra.Sync.Identity.{stable_resource_id, change_id}
use next_infra.Sync.Identity.Laws.{
  resource_id_text, stable_resource_id-accepts, stable_resource_id-injective,
}
use next_infra.Sync.Project.{tombstone_resource}
use next_infra.Sync.Changes.{
  diff_fields, resource_diff, resource_snapshot, OptionValue-discrete, same_field, change_fields,
  resource_change,
}
use next_infra.Sync.Build.Absences.{
  Absences, tombstone_change, missing_count, counted_state, count_missing, observe_missing,
  observe_absences,
}
use next_infra.Sync.Build.Commit.{empty_draft}
use next_infra.Sync.Tests.Fixture.{handle, key, nothing_shown, row}

external_id-valid : string_value "ExternalId" (b'y' ∷ []) ≡ ok (b'y' ∷ [])
unfolding string_value text trim trim_start is_whitespace Text-discrete ℕ_discrete
external_id-valid = refl

accepted : stable_resource_id (key (b'y' ∷ [])) ≡ ok (resource_id_text (key (b'y' ∷ [])))
accepted = stable_resource_id-accepts (key (b'y' ∷ [])) external_id-valid

kind-valid :
    validated_string validate_namespaced "ResourceKind" (b'a' ∷ b'.' ∷ b'b' ∷ [])
    ≡ ok (b'a' ∷ b'.' ∷ b'b' ∷ [])
unfolding validated_string validate_namespaced split ℕ_discrete
kind-valid = refl

stable_resource_id-injective_example : key (b'y' ∷ []) ≡ key (b'y' ∷ [])
stable_resource_id-injective_example =
    stable_resource_id-injective (key (b'y' ∷ [])) (key (b'y' ∷ []))
      (resource_id_text (key (b'y' ∷ []))) refl kind-valid kind-valid accepted accepted

abbrev renamed : Resource
renamed = record row { name = b'm' ∷ [] }

abbrev or_no_change : {E : Type 0} → Result E Change → List Change
or_no_change (ok change) = change ∷ []
or_no_change (err e) = []

abbrev struck_once : Absences
struck_once = record {
  state = record { scope = b's' ∷ []; counts = (b'r' ∷ [], 1) ∷ [] };
  draft = empty_draft nothing_shown;
}

abbrev struck_twice : Absences
struck_twice = record {
  state = record { scope = b's' ∷ []; counts = (b'r' ∷ [], 2) ∷ [] };
  draft = record (empty_draft nothing_shown) {
    resources = tombstone_resource row handle.run 9 ∷ [];
    counts = record (empty_draft nothing_shown).counts { updated = 1 };
    changes =
        or_no_change (tombstone_change handle.run 9 row (tombstone_resource row handle.run 9));
  };
}

observe_absences-twice : observe_absences handle.run 9 struck_once (row ∷ []) ≡ ok struck_twice
unfolding observe_absences tombstone_change missing_count counted_state count_missing
    observe_missing resource_snapshot OptionValue-discrete same_field diff_fields resource_diff
    change_fields resource_change change_id tombstone_resource count_for Lifecycle-discrete
    string_value label_members labels_json lifecycle_json health_json insert_fields insert_member
    get_member get_field json_object Value-discrete insert get trim_start text_lt text trim
    is_whitespace Text-discrete ℕ_discrete contains
observe_absences-twice = refl
