-- ===== src/Inference/Engine/Made.antt =====
-- What the relations of a run of a rule are made from.
use mathlib.Core.List.{Memᴰ}
use next_infra.Base.{
  ◌==◌, List, All, Option, none, some, text_eq, text_ord, BTreeMap, values, ok, ◌≡◌, refl, sym,
  subst, ◌∙◌, ap, arith, inl, inr, ◌⊎◌, map_err, ==→≡, Bool-cases, >>=-eq-ok, map_err-eq-ok,
  ok-injective,
}
use next_infra.Base.Maps.{get, insert}
use next_infra.Base.Maps.Values.{All-insert}
use next_infra.Core.Error.{DomainError}
use next_infra.Core.Ids.{RelationId, RuleVersion, Timestamp}
use next_infra.Core.Status.{Lifecycle, lifecycle_eq}
use next_infra.Core.Evidence.{RelationEvidence}
use next_infra.Core.Hashing.{Hashing}
use next_infra.Core.Model.{Relation, relation_eq}
use next_infra.Core.Ports.{InferenceStore}
use next_infra.Inference.Candidates.{
  InferenceCandidate, InferenceError, invalid, normalize_candidate, candidate_relation_id,
  candidate_evidence_key, inferred_relation, first_seen,
}
use next_infra.Inference.Engine.{Produced, keep, validate_candidate, infer, extend}
use next_infra.Inference.Engine.Valid.{
  Normal, normalize_candidate-Normal, Valid, validate_candidate-Valid,
}

module _ {S E : Type 0} (hashing : Hashing) (store : InferenceStore S E) (s : S) where
  -- A relation with its rule, and the candidate that it stands for.
  pub record Inferred (rule : RuleVersion) (at : Timestamp)
      (existing : BTreeMap RelationId Relation) (candidates : List InferenceCandidate)
      (relation : Relation) : Type 0 where
    pub raw : InferenceCandidate
    pub candidate : InferenceCandidate
    pub listed : Memᴰ raw candidates
    pub normal : Normal raw candidate
    pub valid : Valid hashing store s candidate
    pub named : candidate_relation_id hashing rule candidate ≡ ok relation.relation_id
    pub source : relation.source_resource_id ≡ candidate.source_resource_id
    pub target : relation.target_resource_id ≡ candidate.target_resource_id
    pub kind : relation.kind ≡ candidate.kind
    pub evidence :
        relation.evidence
        ≡ RelationEvidence.inferred rule candidate.input_resource_version_ids
            candidate.input_relation_version_ids candidate.confidence
    pub active : relation.lifecycle ≡ Lifecycle.active
    pub since : relation.first_seen_at ≡ first_seen (get existing relation.relation_id) at
    pub seen : relation.last_seen_at ≡ at

  abbrev pub Adds : BTreeMap RelationId Relation → BTreeMap RelationId Relation → Relation → Type 0
  Adds before after relation =
      (after ≡ insert before relation.relation_id relation)
      ⊎ ((get before relation.relation_id ≡ some relation) × (after ≡ before))

  -- A candidate that was accepted adds its relation, or repeats one that is there, and its inputs.
  pub record Infers (rule : RuleVersion) (at : Timestamp) (existing : BTreeMap RelationId Relation)
      (candidates : List InferenceCandidate) (raw : InferenceCandidate) (before after : Produced)
      : Type 0 where
    pub candidate : InferenceCandidate
    pub relation : Relation
    pub normal : Normal raw candidate
    pub named : candidate_relation_id hashing rule candidate ≡ ok relation.relation_id
    pub inferred : Inferred rule at existing candidates relation
    pub adds : Adds before.relations after.relations relation
    pub resource_inputs :
        after.resource_inputs ≡ extend before.resource_inputs candidate.input_resource_version_ids
    pub relation_inputs :
        after.relation_inputs ≡ extend before.relation_inputs candidate.input_relation_version_ids

  keep-Adds :
      (produced : BTreeMap RelationId Relation) (relation : Relation) (found : Option Relation)
      (after : BTreeMap RelationId Relation)
      → get produced relation.relation_id ≡ found
      → keep {E = E} produced relation found ≡ ok after
      → Adds produced after relation
  keep-Adds produced relation none after stored h = inl (sym (ok-injective _ _ h))
  keep-Adds produced relation (some previous) after stored h =
      elim (Bool-cases (previous == relation)) [
        | inl same ↦ inr (stored ∙ ap some (==→≡ previous relation same), ground arith)
        | inr differs ↦ absurd (ground arith)
      ]

  inferred_relation-named :
      (rule : RuleVersion) (at : Timestamp) (candidate : InferenceCandidate) (relation : Relation)
      (known : Option Relation)
      → inferred_relation hashing rule candidate at known ≡ ok relation
      → candidate_relation_id hashing rule candidate ≡ ok relation.relation_id
  unfolding inferred_relation
  inferred_relation-named rule at candidate relation known h =
      let (id, named, h₁) = >>=-eq-ok (candidate_relation_id hashing rule candidate) _ h in
      let (key, keyed, h₂) = >>=-eq-ok (candidate_evidence_key hashing rule candidate) _ h₁ in
      subst (λ (r : Relation). candidate_relation_id hashing rule candidate ≡ ok r.relation_id)
        (ok-injective _ _ h₂) named

  inferred_relation-Inferred :
      (rule : RuleVersion) (at : Timestamp) (existing : BTreeMap RelationId Relation)
      (candidates : List InferenceCandidate) (raw candidate : InferenceCandidate) (id : RelationId)
      (relation : Relation)
      → Memᴰ raw candidates
      → Normal raw candidate
      → Valid hashing store s candidate
      → candidate_relation_id hashing rule candidate ≡ ok id
      → inferred_relation hashing rule candidate at (get existing id) ≡ ok relation
      → Inferred rule at existing candidates relation
  unfolding inferred_relation
  inferred_relation-Inferred rule at existing candidates raw candidate id relation listed normal
        valid identified h =
      let (id', named, h₁) = >>=-eq-ok (candidate_relation_id hashing rule candidate) _ h in
      let (key, keyed, h₂) = >>=-eq-ok (candidate_evidence_key hashing rule candidate) _ h₁ in
      let same : id ≡ id' = ok-injective {E = DomainError} id id' (sym identified ∙ named) in
      subst (Inferred rule at existing candidates) (ok-injective _ _ h₂) (record {
        raw = raw;
        candidate = candidate;
        listed = listed;
        normal = normal;
        valid = valid;
        named = named;
        source = refl;
        target = refl;
        kind = refl;
        evidence = refl;
        active = refl;
        since = ap (λ i. first_seen (get existing i) at) same;
        seen = refl;
      })

  pub infer-Infers :
      (rule : RuleVersion) (at : Timestamp) (existing : BTreeMap RelationId Relation)
      (produced produced' : Produced) (candidates : List InferenceCandidate)
      (raw : InferenceCandidate)
      → Memᴰ raw candidates
      → infer hashing store s rule at existing produced raw ≡ ok produced'
      → Infers rule at existing candidates raw produced produced'
  unfolding infer
  infer-Infers rule at existing produced produced' candidates raw listed h =
      let (candidate, normal, h₁) =
        >>=-eq-ok (map_err {F = InferenceError E} invalid (normalize_candidate raw)) _ h in
      let (_, valid, h₂) = >>=-eq-ok (validate_candidate hashing store s candidate) _ h₁ in
      let (id, named, h₃) =
        >>=-eq-ok
          (map_err {F = InferenceError E} invalid (candidate_relation_id hashing rule candidate)) _
          h₂ in
      let (relation, made, h₄) =
        >>=-eq-ok
          (map_err {F = InferenceError E} invalid
            (inferred_relation hashing rule candidate at (get existing id)))
          _ h₃ in
      let (relations, kept, h₅) =
        >>=-eq-ok
          (keep {E = E} produced.relations relation (get produced.relations relation.relation_id)) _
          h₄ in
      let accepted = normalize_candidate-Normal raw candidate (map_err-eq-ok invalid _ normal) in
      let is_made = map_err-eq-ok invalid _ made in
      subst (Infers rule at existing candidates raw produced) (ok-injective _ _ h₅) (record {
        candidate = candidate;
        relation = relation;
        normal = accepted;
        named = inferred_relation-named rule at candidate relation (get existing id) is_made;
        inferred =
            inferred_relation-Inferred rule at existing candidates raw candidate id relation listed
              accepted (validate_candidate-Valid hashing store s candidate valid)
              (map_err-eq-ok invalid _ named) is_made;
        adds = keep-Adds produced.relations relation _ relations refl kept;
        resource_inputs = refl;
        relation_inputs = refl;
      })

  pub Adds-All :
      (P : Relation → Type 0) (before after : BTreeMap RelationId Relation) (relation : Relation)
      → Adds before after relation
      → P relation
      → All P (values before)
      → All P (values after)
  Adds-All P before after relation (inl added) p ps =
      subst (λ m. All P (values m)) (sym added) (All-insert P before _ relation ps p)
  Adds-All P before after relation (inr (present, same)) p ps =
      subst (λ m. All P (values m)) (sym same) ps
