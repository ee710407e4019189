-- ===== src/Normalizer/Normalize/Clean.antt =====
-- Schemas, labels and resources without a secret.
use next_infra.Base.{
  false, List, [], ◌∷◌, any, Option, none, some, Text, text, text_eq, BTreeMap, values, ok,
  reject_if, ok_or, ◌≡◌, subst, arith, All, >>=-eq-ok, reject_if-eq-ok, ok-injective, nat_eq,
}
use next_infra.Base.Maps.{get, insert}
use next_infra.Base.Maps.Values.{All-insert}
use next_infra.Core.Error.{DomainError, ErrorCode, invalid_value}
use next_infra.Core.Ids.{LabelKey}
use next_infra.Core.Json.{Value, Members, object, null, boolean, number, string, array}
use next_infra.Normalizer.Batch.{AttributeSchema, RelationSchema, ValidatedResource}
use next_infra.Normalizer.Scan.{contract_error, is_sensitive_field_name, has_sentinel, scan_text}
use next_infra.Normalizer.Scan.Laws.{IsClean}
use next_infra.Normalizer.Attributes.Laws.{IsPlain}
use next_infra.Normalizer.Normalize.{
  Normalizer, is_invalid_path, is_some, schema_key, register, new_normalizer, as_object,
  scan_labels,
}
use next_infra.Normalizer.Normalize.Keys.{
  SchemaKey, schema_key_eq, schema_key_ord, relation_schema_eq, relation_schema_ord,
  resource_key_eq, resource_key_ord,
}

-- A schema that allows no secret field.
abbrev pub IsSafe : AttributeSchema → Type 0
IsSafe schema = All IsPlain schema.allowed_attributes

valid_paths-IsPlain : (paths : List Text) → any is_invalid_path paths ≡ false → All IsPlain paths
valid_paths-IsPlain [] h = tt
valid_paths-IsPlain (path ∷ paths) h = (ground arith, valid_paths-IsPlain paths (ground arith))

register-IsSafe :
    (registered after : BTreeMap SchemaKey AttributeSchema) (schemas : List AttributeSchema)
    → All IsSafe (values registered)
    → register registered schemas ≡ ok after
    → All IsSafe (values after)
unfolding register
register-IsSafe registered after [] safe h =
    subst (λ m. All IsSafe (values m)) (ok-injective {E = DomainError} registered after h) safe
register-IsSafe registered after (schema ∷ rest) safe h =
    let (_, valid, h₁) =
      >>=-eq-ok
        (reject_if (any is_invalid_path schema.allowed_attributes)
          (invalid_value (text "attribute schema contains an invalid or sensitive path")))
        _ h in
    let (_, fresh, h₂) =
      >>=-eq-ok
        (reject_if (is_some (get registered (schema_key schema)))
          (invalid_value (text "duplicate attribute schema registration")))
        (λ _. register (insert registered (schema_key schema) schema) rest) h₁ in
    register-IsSafe (insert registered (schema_key schema) schema) after rest
      (All-insert IsSafe registered (schema_key schema) schema safe
        (valid_paths-IsPlain schema.allowed_attributes (reject_if-eq-ok _ _ valid)))
      h₂

pub new_normalizer-IsSafe :
    (schemas : List AttributeSchema) (relations : List RelationSchema) (n : Normalizer)
    → new_normalizer schemas relations ≡ ok n
    → All IsSafe (values n.attribute_schemas)
unfolding new_normalizer
new_normalizer-IsSafe schemas relations n h =
    let (attributes, registered, h₁) = >>=-eq-ok (register [] schemas) _ h in
    let same : attributes ≡ n.attribute_schemas = ground (arith, h₁) in
    subst (λ m. All IsSafe (values m)) same (register-IsSafe [] attributes schemas tt registered)

-- Labels without a secret.
abbrev pub AreCleanLabels : BTreeMap LabelKey Text → Type 0
AreCleanLabels [] = Unit
AreCleanLabels ((key, value) ∷ labels) =
    (is_sensitive_field_name key ≡ false) × (has_sentinel value ≡ false) × AreCleanLabels labels

pub scan_text-eq-ok : (t : Text) → scan_text t ≡ ok tt → has_sentinel t ≡ false
unfolding scan_text
scan_text-eq-ok t h = ground arith

pub scan_labels-AreCleanLabels :
    (labels : BTreeMap LabelKey Text) → scan_labels labels ≡ ok tt → AreCleanLabels labels
unfolding scan_labels
scan_labels-AreCleanLabels [] h = tt
scan_labels-AreCleanLabels ((key, value) ∷ labels) h =
    let (_, plain, h₁) =
      >>=-eq-ok
        (reject_if (is_sensitive_field_name key) (
          contract_error ErrorCode.invalid_response
            (text "resource labels contain a forbidden secret field")))
        _ h in
    let (_, scanned, h₂) = >>=-eq-ok (scan_text value) (λ _. scan_labels labels) h₁ in
    (reject_if-eq-ok _ _ plain, scan_text-eq-ok value scanned, scan_labels-AreCleanLabels labels h₂)

-- A resource without a secret in its attributes, its names and its labels.
abbrev pub IsCleanResource : ValidatedResource → Type 0
IsCleanResource r =
    IsClean r.attributes
    × (has_sentinel r.name ≡ false)
    × (has_sentinel r.display_name ≡ false)
    × AreCleanLabels r.labels

pub as_object-eq-some :
    (value : Value) (members : Members) → as_object value ≡ some members → value ≡ object members
unfolding as_object
as_object-eq-some (object m) members h = cc
as_object-eq-some null members h = absurd cc
as_object-eq-some (boolean b) members h = absurd cc
as_object-eq-some (number n) members h = absurd cc
as_object-eq-some (string t) members h = absurd cc
as_object-eq-some (array vs) members h = absurd cc

pub ok_or-eq-ok :
    {A : Type 0} (o : Option A) (e : DomainError) (a : A) → ok_or o e ≡ ok a → o ≡ some a
ok_or-eq-ok none e a h = absurd cc
ok_or-eq-ok (some b) e a h = cc
