-- ===== src/Binding/Commit/Made.antt =====
-- The parts of a commit that `binding_commit` made.
use next_infra.Base.{
  List, [], ◌∷◌, ◌++◌, Option, Result, ok, ◌>>=◌, ◌≡◌, refl, >>=-eq-ok, ok-injective, subst,
}
use next_infra.Core.Error.{DomainError}
use next_infra.Core.Ids.{Timestamp}
use next_infra.Core.Model.{Binding, Relation, RelationVersion, FieldChange}
use next_infra.Core.Ports.{BindingCommit}
use next_infra.Binding.Commit.{
  binding_commit, replaced_relations, configured_relation, relation_lifecycle, relation_versions,
  binding_changes, commit_changes, assemble,
}
use next_infra.Core.Hashing.{Hashing}

module _ (hashing : Hashing) (previous : Option Binding) (b : Binding) (at : Timestamp) where
  pub record Made (c : BindingCommit) : Type 0 where
    pub replaced : List Relation
    pub current : Relation
    pub fields : List FieldChange
    pub replaces : replaced_relations previous b at ≡ ok replaced
    pub configures : configured_relation b (relation_lifecycle b.status) at ≡ ok current
    pub versions :
        relation_versions hashing b.binding_id at (replaced ++ current ∷ [])
        ≡ ok c.relation_versions
    pub differs : binding_changes previous b ≡ ok fields
    pub reports : commit_changes b at fields ≡ ok c.changes
    pub binding : c.binding ≡ b
    pub relations : c.relations ≡ replaced ++ current ∷ []

  -- The stages of `binding_commit` after the relations.
  abbrev with_changes :
      List Relation
      → Relation
      → List RelationVersion
      → List FieldChange
      → Result DomainError BindingCommit
  with_changes replaced current versions fields =
      commit_changes b at fields >>= λ changes. ok (assemble b replaced current versions changes)

  abbrev with_versions :
      List Relation → Relation → List RelationVersion → Result DomainError BindingCommit
  with_versions replaced current versions =
      binding_changes previous b >>= with_changes replaced current versions

  abbrev with_relations : List Relation → Relation → Result DomainError BindingCommit
  with_relations replaced current =
      relation_versions hashing b.binding_id at (replaced ++ current ∷ [])
      >>= with_versions replaced current

  pub binding_commit-Made :
      (c : BindingCommit) → binding_commit hashing previous b at ≡ ok c → Made c
  unfolding binding_commit
  binding_commit-Made c h =
      let (replaced, replaces, h₁) =
        >>=-eq-ok (replaced_relations previous b at)
          (λ replaced.
            configured_relation b (relation_lifecycle b.status) at >>= with_relations replaced)
          h in
      let (current, configures, h₂) =
        >>=-eq-ok (configured_relation b (relation_lifecycle b.status) at) (with_relations replaced)
          h₁ in
      let (versions, versioned, h₃) =
        >>=-eq-ok (relation_versions hashing b.binding_id at (replaced ++ current ∷ []))
          (with_versions replaced current) h₂ in
      let (fields, differs, h₄) =
        >>=-eq-ok (binding_changes previous b) (with_changes replaced current versions) h₃ in
      let (changes, reports, h₅) =
        >>=-eq-ok (commit_changes b at fields)
          (λ changes. ok (assemble b replaced current versions changes)) h₄ in
      subst Made
        (ok-injective {E = DomainError} (assemble b replaced current versions changes) c h₅)
        (record {
          replaced = replaced;
          current = current;
          fields = fields;
          replaces = replaces;
          configures = configures;
          versions = versioned;
          differs = differs;
          reports = reports;
          binding = refl;
          relations = refl;
        })
