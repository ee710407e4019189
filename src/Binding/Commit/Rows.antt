-- ===== src/Binding/Commit/Rows.antt =====
-- The relations, their versions and the changes of a binding's commit.
pub mod Changes
use next_infra.Base.{
  Bool, true, false, not, ◌||◌, ◌&&◌, List, [], ◌∷◌, ◌++◌, Option, none, some, String, Text, text,
  text_eq, decimal, trim, is_whitespace, Text-discrete, ℕ_discrete, Result, ok, err, ◌>>=◌, ◌≡◌,
  ◌≢◌, refl, sym, ap, ◌∙◌, >>=-eq-ok, ok-injective, subst, arith, if◌then◌else◌, ◌==◌, ◌!=◌,
  Bool-cases, inl, inr, ◌⊎◌,
}
use next_infra.Base.Texts.{trim_start}
use mathlib.Core.Option
use mathlib.Core.List.{append-nil}
use next_infra.Core.Error.{DomainError}
use next_infra.Core.Ids.{
  BindingId, Fingerprint, SchemaVersion, Timestamp, string_value, schema_version,
}
use next_infra.Core.Status.{Lifecycle, BindingStatus}
use next_infra.Core.Evidence.{RelationEvidence, OriginRef}
use next_infra.Core.Json.{Value, value_eq, string}
use next_infra.Core.Encode.{binding_status_json}
use next_infra.Core.Model.{Binding, Relation, RelationVersion, FieldChange, Change, ChangeSubject}
use next_infra.Core.Ports.{BindingCommit}
use next_infra.Binding.Commit.{
  binding_commit, replaced_relations, configured_relation, relation_lifecycle, relation_id,
  relation_version, relation_versions, binding_changes, field_change, commit_changes,
  identity_changed, fingerprint, snapshot, version_of, no_fields,
}
use next_infra.Core.Hashing.{Hashing}
use next_infra.Binding.Commit.Made.{Made, binding_commit-Made}

-- The relation that a binding stands for, with this lifecycle at this time.
pub record Configures (b : Binding) (lifecycle : Lifecycle) (at : Timestamp) (r : Relation)
    : Type 0 where
  pub identified : relation_id b ≡ ok r.relation_id
  pub source : r.source_resource_id ≡ b.source_resource_id
  pub target : r.target_resource_id ≡ b.target_resource_id
  pub kind : r.kind ≡ b.kind
  pub evidence : r.evidence ≡ RelationEvidence.configured b.binding_id
  pub first_seen : r.first_seen_at ≡ b.created_at
  pub last_seen : r.last_seen_at ≡ at
  pub lifecycle_is : r.lifecycle ≡ lifecycle

configured_relation-Configures :
    (b : Binding) (lifecycle : Lifecycle) (at : Timestamp) (r : Relation)
    → configured_relation b lifecycle at ≡ ok r
    → Configures b lifecycle at r
unfolding configured_relation
configured_relation-Configures b lifecycle at r h =
    let (id, identified, h₁) = >>=-eq-ok (relation_id b) _ h in
    let (key, keyed, h₂) =
      >>=-eq-ok (string_value "EvidenceKey" (text "binding:" ++ b.binding_id)) _ h₁ in
    subst (Configures b lifecycle at) (ok-injective {E = DomainError} _ r h₂) (record {
      identified = identified;
      source = refl;
      target = refl;
      kind = refl;
      evidence = refl;
      first_seen = refl;
      last_seen = refl;
      lifecycle_is = refl;
    })

-- The relations of a commit: the old identity's, if there is one and it changes, and the binding's.
abbrev pub Replaces : Option Binding → Binding → Timestamp → List Relation → Type 0
Replaces none b at replaced = replaced ≡ []
Replaces (some old) b at replaced =
    ((identity_changed old b ≡ false) × (replaced ≡ []))
    ⊎ ((identity_changed old b ≡ true)
        × ((r : Relation) × (replaced ≡ r ∷ []) × Configures old Lifecycle.tombstoned at r))

replaced_relations-Replaces :
    (previous : Option Binding) (b : Binding) (at : Timestamp) (replaced : List Relation)
    → replaced_relations previous b at ≡ ok replaced
    → Replaces previous b at replaced
unfolding replaced_relations
replaced_relations-Replaces none b at replaced h = ground arith
replaced_relations-Replaces (some old) b at replaced h =
    elim (Bool-cases (identity_changed old b)) [
      | inr same ↦ inl (same, ground arith)
      | inl changed ↦
          let (r, configured, h₁) =
            >>=-eq-ok (configured_relation old Lifecycle.tombstoned at)
              (λ relation. ok (relation ∷ [])) (rw changed at h) in
          inr (
            changed,
            (
              r,
              ground arith,
              configured_relation-Configures old Lifecycle.tombstoned at r configured,
            ),
          )
    ]

module _ (hashing : Hashing) (binding_id : BindingId) (at : Timestamp) where
  pub record VersionOf (r : Relation) (v : RelationVersion) : Type 0 where
    pub relation_is : v.relation_id ≡ r.relation_id
    pub observed : v.observed_at ≡ at
    pub snapshot_is : v.normalized_snapshot ≡ snapshot hashing r
    pub hashed : fingerprint hashing (snapshot hashing r) ≡ ok v.fingerprint
    pub origin_is : v.origin ≡ OriginRef.binding binding_id

  abbrev pub AllVersions : List Relation → List RelationVersion → Type 0
  AllVersions [] [] = Unit
  AllVersions [] (v ∷ vs) = ⊥
  AllVersions (r ∷ rs) [] = ⊥
  AllVersions (r ∷ rs) (v ∷ vs) = VersionOf r v × AllVersions rs vs

  relation_version-VersionOf :
      (r : Relation) (v : RelationVersion)
      → relation_version hashing r binding_id at ≡ ok v
      → VersionOf r v
  unfolding relation_version
  relation_version-VersionOf r v h =
      let (id, _, h₁) =
        >>=-eq-ok
          (string_value "RelationVersionId"
            (text "binding-relation-version:" ++ (r.relation_id ++ (text ":" ++ decimal at))))
          _ h in
      let (hashed, hashes, h₂) =
        >>=-eq-ok (fingerprint hashing (snapshot hashing r))
          (λ hashed.
            schema_version 1 >>= λ schema. ok (version_of hashing r binding_id at id hashed schema))
          h₁ in
      let (schema, _, h₃) =
        >>=-eq-ok (schema_version 1)
          (λ schema. ok (version_of hashing r binding_id at id hashed schema)) h₂ in
      subst VersionOf'
        (ok-injective {E = DomainError} (version_of hashing r binding_id at id hashed schema) v h₃)
        (record {
          relation_is = refl;
          observed = refl;
          snapshot_is = refl;
          hashed = hashes;
          origin_is = refl;
        })
    where
      VersionOf' : RelationVersion → Type 0
      VersionOf' w = VersionOf r w

  relation_versions-AllVersions :
      (rs : List Relation) (vs : List RelationVersion)
      → relation_versions hashing binding_id at rs ≡ ok vs
      → AllVersions rs vs
  unfolding relation_versions
  relation_versions-AllVersions [] [] h = tt
  relation_versions-AllVersions [] (v ∷ vs) h = absurd (ground arith)
  relation_versions-AllVersions (r ∷ rs) vs h =
      let (w, made, h₁) = >>=-eq-ok (relation_version hashing r binding_id at) _ h in
      let (ws, all_made, h₂) =
        >>=-eq-ok (relation_versions hashing binding_id at rs) (λ versions. ok (w ∷ versions)) h₁ in
      subst (AllVersions (r ∷ rs)) (ok-injective {E = DomainError} (w ∷ ws) vs h₂)
        (relation_version-VersionOf r w made, relation_versions-AllVersions rs ws all_made)

-- The configured relation of a binding follows its status, and comes last in the commit. If the
-- binding's endpoints or kind change, the relation of the old ones is tombstoned before it, and there
-- is no other relation. Each relation gets one version, with its snapshot and the hash of it.
pub binding_commit-relations :
    (hashing : Hashing) (previous : Option Binding) (b : Binding) (at : Timestamp)
    (c : BindingCommit)
    → binding_commit hashing previous b at ≡ ok c
    → (replaced : List Relation) × (current : Relation) × (c.relations ≡ replaced ++ current ∷ [])
      × Replaces previous b at replaced
      × Configures b (relation_lifecycle b.status) at current
      × AllVersions hashing b.binding_id at c.relations c.relation_versions
binding_commit-relations hashing previous b at c h =
    let m = binding_commit-Made hashing previous b at c h in
    (
      m.replaced,
      m.current,
      m.relations,
      replaced_relations-Replaces previous b at m.replaced m.replaces,
      configured_relation-Configures b (relation_lifecycle b.status) at m.current m.configures,
      subst (λ rs. AllVersions hashing b.binding_id at rs c.relation_versions) (sym m.relations)
          (relation_versions-AllVersions hashing b.binding_id at (m.replaced ++ m.current ∷ [])
            c.relation_versions m.versions),
    )
