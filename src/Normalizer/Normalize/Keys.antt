-- ===== src/Normalizer/Normalize/Keys.antt =====
-- Equality and order of the keys of the normalizer's maps, as `derive` gives them.
use next_infra.Base.{
  Bool, ◌&&◌, ◌||◌, text_eq, text_lt, Ord, text_ord, Eq, ◌==◌, nat_eq, ltb, ℕ_discrete,
}
use next_infra.Core.Ids.{ResourceKind, SchemaVersion}
use next_infra.Core.Model.{ResourceKey}
use next_infra.Normalizer.Batch.{RelationSchema, ValidatedRelationKey}

abbrev pub SchemaKey : Type 0
SchemaKey = ResourceKind × SchemaVersion

unfoldable pub SchemaKey-discrete : Discrete SchemaKey
SchemaKey-discrete = hlevel ℕ_discrete

instance abbrev pub schema_key_eq : Eq SchemaKey
schema_key_eq = record { decides = SchemaKey-discrete }

unfoldable pub RelationSchema-discrete : Discrete RelationSchema
RelationSchema-discrete = hlevel ℕ_discrete

instance abbrev pub relation_schema_eq : Eq RelationSchema
relation_schema_eq = record { decides = RelationSchema-discrete }

unfoldable pub ResourceKey-discrete : Discrete ResourceKey
ResourceKey-discrete = hlevel ℕ_discrete

instance abbrev pub resource_key_eq : Eq ResourceKey
resource_key_eq = record { decides = ResourceKey-discrete }

unfoldable pub ValidatedRelationKey-discrete : Discrete ValidatedRelationKey
ValidatedRelationKey-discrete = hlevel ℕ_discrete

instance abbrev pub relation_key_eq : Eq ValidatedRelationKey
relation_key_eq = record { decides = ValidatedRelationKey-discrete }

-- Lexicographic, field by field.
abbrev pub schema_key_lt : SchemaKey → SchemaKey → Bool
schema_key_lt (kind, version) (kind', version') =
    text_lt kind kind' || ((kind == kind') && ltb version version')

instance abbrev pub schema_key_ord : Ord SchemaKey
schema_key_ord = record { lt = schema_key_lt }

abbrev pub relation_schema_lt : RelationSchema → RelationSchema → Bool
relation_schema_lt a b =
    text_lt a.kind b.kind
    || ((a.kind == b.kind)
        && (text_lt a.source_kind b.source_kind
            || ((a.source_kind == b.source_kind) && text_lt a.target_kind b.target_kind)))

instance abbrev pub relation_schema_ord : Ord RelationSchema
relation_schema_ord = record { lt = relation_schema_lt }

abbrev pub resource_key_lt : ResourceKey → ResourceKey → Bool
resource_key_lt a b =
    text_lt a.connection_id b.connection_id
    || ((a.connection_id == b.connection_id)
        && (text_lt a.kind b.kind || ((a.kind == b.kind) && text_lt a.external_id b.external_id)))

instance abbrev pub resource_key_ord : Ord ResourceKey
resource_key_ord = record { lt = resource_key_lt }

abbrev pub relation_key_lt : ValidatedRelationKey → ValidatedRelationKey → Bool
relation_key_lt a b =
    resource_key_lt a.source b.source
    || ((a.source == b.source)
        && (resource_key_lt a.target b.target
            || ((a.target == b.target)
                && (text_lt a.kind b.kind
                    || ((a.kind == b.kind) && text_lt a.evidence_key b.evidence_key)))))

instance abbrev pub relation_key_ord : Ord ValidatedRelationKey
relation_key_ord = record { lt = relation_key_lt }
