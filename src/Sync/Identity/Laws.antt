-- ===== src/Sync/Identity/Laws.antt =====
-- The stable identifiers are always accepted, and tell the resources of one connection apart.
use mathlib.Core.List.{append_cancel_left}
use next_infra.Base.{
  ℕ, [], ◌∷◌, ◌++◌, Text, text, is_empty, true, false, ok, ◌≡◌, refl, sym, ap, ◌∙◌, arith,
  ℕ_discrete, >>=-eq-ok,
}
use next_infra.Base.Texts.{starts_unpadded, is_whitespace}
use next_infra.Base.Texts.Trim.{append-Closes}
use next_infra.Core.Ids.{
  ResourceKind, ResourceId, string_value, validated_string, validate_namespaced,
}
use next_infra.Core.Ids.Strings.{string_value-inv, string_value-append}
use next_infra.Core.Ids.Tokens.{Lacks, namespaced-Lacks}
use next_infra.Core.Model.{ResourceKey}
use next_infra.Sync.Identity.{stable_resource_id}

abbrev pub after_connection : ResourceKey → Text
after_connection key = text ":" ++ (key.kind ++ (text ":" ++ key.external_id))

abbrev pub resource_id_text : ResourceKey → Text
resource_id_text key = text "resource:" ++ (key.connection_id ++ after_connection key)

opens_resource : (is_empty (text "resource:") ≡ false) × (starts_unpadded (text "resource:") ≡ true)
unfolding text starts_unpadded is_whitespace ℕ_discrete
opens_resource = (refl, refl)

-- A key whose external id is a valid `ExternalId` has a stable resource id: the constructor of
-- `ResourceId` never refuses the formatted text.
pub stable_resource_id-accepts :
    (key : ResourceKey)
    → string_value "ExternalId" key.external_id ≡ ok key.external_id
    → stable_resource_id key ≡ ok (resource_id_text key)
unfolding stable_resource_id
stable_resource_id-accepts key valid =
    let r = string_value-inv "ExternalId" key.external_id key.external_id valid in
    string_value-append "ResourceId" (text "resource:") _ opens_resource.0 opens_resource.1 (
      append-Closes key.connection_id _ (
        append-Closes (text ":") _
          (append-Closes key.kind _ (append-Closes (text ":") key.external_id (r.2, r.1.1)))))

-- The first separator splits a text in one way only.
split_unique :
    (c : ℕ) (a b x y : Text) → Lacks c a → Lacks c b → a ++ c ∷ x ≡ b ++ c ∷ y → (a ≡ b) × (x ≡ y)
split_unique c [] [] x y p q h = ground arith
split_unique c [] (d ∷ b) x y p q h = absurd (q.0 (ground arith))
split_unique c (d ∷ a) [] x y p q h = absurd (p.0 (ground arith))
split_unique c (d ∷ a) (e ∷ b) x y p q h =
    let r = split_unique c a b x y p.1 q.1 (ground arith) in ground (arith, r.0, r.1)

split_at_colon :
    (a b x y : Text)
    → Lacks b':' a
    → Lacks b':' b
    → a ++ (text ":" ++ x) ≡ b ++ (text ":" ++ y)
    → (a ≡ b) × (x ≡ y)
unfolding text
split_at_colon a b x y p q h = split_unique b':' a b x y p q h

colon_free_kind :
    (k : ResourceKind) → validated_string validate_namespaced "ResourceKind" k ≡ ok k → Lacks b':' k
unfolding validated_string
colon_free_kind k h =
    let r = >>=-eq-ok (validate_namespaced k (text "ResourceKind")) _ h in
    namespaced-Lacks k (text "ResourceKind") r.1

-- Two resources of one connection with the same stable id have the same kind and external id.
pub stable_resource_id-injective :
    (a b : ResourceKey) (id : ResourceId)
    → a.connection_id ≡ b.connection_id
    → validated_string validate_namespaced "ResourceKind" a.kind ≡ ok a.kind
    → validated_string validate_namespaced "ResourceKind" b.kind ≡ ok b.kind
    → stable_resource_id a ≡ ok id
    → stable_resource_id b ≡ ok id
    → a ≡ b
unfolding stable_resource_id
stable_resource_id-injective a b id same_connection kind_a kind_b id_a id_b =
    let id_of_a = (string_value-inv "ResourceId" (resource_id_text a) id id_a).0 in
    let id_of_b = (string_value-inv "ResourceId" (resource_id_text b) id id_b).0 in
    let texts = append_cancel_left (text "resource:") _ _ (sym id_of_a ∙ id_of_b) in
    let tails =
      append_cancel_left a.connection_id _ _
        (texts ∙ ap (λ c. c ++ after_connection b) (sym same_connection)) in
    let parts =
      split_at_colon a.kind b.kind a.external_id b.external_id (colon_free_kind a.kind kind_a)
        (colon_free_kind b.kind kind_b) (append_cancel_left (text ":") _ _ tails) in
    ground (arith, parts)
