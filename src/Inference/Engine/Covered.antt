-- ===== src/Inference/Engine/Covered.antt =====
-- What the loop over the candidates collects: a relation and the inputs of each of them.
use mathlib.Core.List.{Memᴰ}
use next_infra.Base.{
  true, ◌==◌, List, [], ◌∷◌, map, contains, All, All-map, some, Text, text_eq, text_ord, BTreeMap,
  keys, values, ok, ◌≡◌, refl, sym, ap, subst, ◌∙◌, arith, inl, inr, ≡→==, if◌then◌else◌, >>=-eq-ok,
  ok-injective,
}
use next_infra.Base.Maps.{get, insert, get-insert, set_insert, contains-set_insert}
use next_infra.Core.Ids.{RelationId, ResourceVersionId, RelationVersionId, RuleVersion, Timestamp}
use next_infra.Core.Hashing.{Hashing}
use next_infra.Core.Model.{Relation}
use next_infra.Core.Ports.{InferenceStore}
use next_infra.Inference.Candidates.{InferenceCandidate, candidate_relation_id}
use next_infra.Inference.Engine.{Produced, extend, is_some, infer, infer_all}
use next_infra.Inference.Engine.Valid.{Normal}
use next_infra.Inference.Engine.Plans.{contains-keys}
use next_infra.Inference.Engine.Made.{Inferred, Infers, Adds, Adds-All, infer-Infers}

-- Each relation stands under its own id.
abbrev pub AreKeyed : BTreeMap RelationId Relation → Type 0
AreKeyed m = All (λ p. p.0 ≡ p.1.relation_id) m

insert-AreKeyed :
    (m : BTreeMap RelationId Relation) (r : Relation)
    → AreKeyed m
    → AreKeyed (insert m r.relation_id r)
unfolding insert
insert-AreKeyed [] r h = (refl, tt)
insert-AreKeyed ((k, v) ∷ m) r h = ground (arith, insert-AreKeyed m r h.1)

pub keys-values :
    (m : BTreeMap RelationId Relation)
    → AreKeyed m
    → keys m ≡ map (λ (r : Relation). r.relation_id) (values m)
keys-values [] h = refl
keys-values ((k, v) ∷ m) h =
    ap (λ i. i ∷ keys m) h.0 ∙ ap (λ ids. v.relation_id ∷ ids) (keys-values m h.1)

contains-keys-insert :
    (m : BTreeMap RelationId Relation) (r : Relation) (id : RelationId)
    → contains (keys (insert m r.relation_id r)) id
      ≡ is_some (if id == r.relation_id then some r else get m id)
contains-keys-insert m r id =
    contains-keys (insert m r.relation_id r) id ∙ ap is_some (get-insert m r.relation_id r id)

extend-contains :
    (set xs : List Text) (id : Text) → contains set id ≡ true → contains (extend set xs) id ≡ true
unfolding extend
extend-contains set [] id h = h
extend-contains set (x ∷ xs) id h =
    extend-contains (set_insert set x) xs id (ground (arith, contains-set_insert set x id))

extend-All : (set xs : List Text) → All (λ id. contains (extend set xs) id ≡ true) xs
unfolding extend
extend-All set [] = tt
extend-All set (x ∷ xs) = (
  extend-contains (set_insert set x) xs x
      (ground (arith, contains-set_insert set x x, ≡→== x x refl)),
  extend-All (set_insert set x) xs,
)

-- Nothing that was collected is lost.
pub record Grows (before after : Produced) : Type 0 where
  pub outputs :
      (id : RelationId)
      → contains (keys before.relations) id ≡ true
      → contains (keys after.relations) id ≡ true
  pub resources :
      (id : ResourceVersionId)
      → contains before.resource_inputs id ≡ true
      → contains after.resource_inputs id ≡ true
  pub relations :
      (id : RelationVersionId)
      → contains before.relation_inputs id ≡ true
      → contains after.relation_inputs id ≡ true

module _ {S E : Type 0} (hashing : Hashing) (store : InferenceStore S E) (s : S)
    (rule : RuleVersion) (at : Timestamp) (existing : BTreeMap RelationId Relation)
    (candidates : List InferenceCandidate) where
  -- The relation of a candidate is among the outputs of the run, and its inputs among those of the run.
  pub record Covered (outputs : List RelationId) (resources : List ResourceVersionId)
      (relations : List RelationVersionId) (raw : InferenceCandidate) : Type 0 where
    pub candidate : InferenceCandidate
    pub normal : Normal raw candidate
    pub id : RelationId
    pub named : candidate_relation_id hashing rule candidate ≡ ok id
    pub output : contains outputs id ≡ true
    pub cites : All (λ i. contains resources i ≡ true) candidate.input_resource_version_ids
    pub links : All (λ i. contains relations i ≡ true) candidate.input_relation_version_ids

  abbrev pub CoveredBy : Produced → InferenceCandidate → Type 0
  CoveredBy p raw = Covered (keys p.relations) p.resource_inputs p.relation_inputs raw

  Grows-Covered :
      (before after : Produced) (raw : InferenceCandidate)
      → Grows before after
      → CoveredBy before raw
      → CoveredBy after raw
  Grows-Covered before after raw g c = record {
    candidate = c.candidate;
    normal = c.normal;
    id = c.id;
    named = c.named;
    output = g.outputs c.id c.output;
    cites = All-map _ _ (λ i h. g.resources i h) c.candidate.input_resource_version_ids c.cites;
    links = All-map _ _ (λ i h. g.relations i h) c.candidate.input_relation_version_ids c.links;
  }

  Adds-contains :
      (before after : BTreeMap RelationId Relation) (r : Relation) (id : RelationId)
      → Adds hashing store s before after r
      → contains (keys before) id ≡ true
      → contains (keys after) id ≡ true
  Adds-contains before after r id (inr (present, same)) h =
      subst (λ m. contains (keys m) id ≡ true) (sym same) h
  Adds-contains before after r id (inl added) h =
      subst (λ m. contains (keys m) id ≡ true) (sym added)
        (ground (arith, contains-keys-insert before r id, contains-keys before id))

  Adds-output :
      (before after : BTreeMap RelationId Relation) (r : Relation)
      → Adds hashing store s before after r
      → contains (keys after) r.relation_id ≡ true
  Adds-output before after r (inr (present, same)) =
      subst (λ m. contains (keys m) r.relation_id ≡ true) (sym same)
        (contains-keys before r.relation_id ∙ ap is_some present)
  Adds-output before after r (inl added) =
      subst (λ m. contains (keys m) r.relation_id ≡ true) (sym added)
        (ground (
          arith,
          contains-keys-insert before r r.relation_id,
          ≡→== r.relation_id r.relation_id refl,
        ))

  Infers-Grows :
      (before after : Produced) (raw : InferenceCandidate)
      → Infers hashing store s rule at existing candidates raw before after
      → Grows before after
  Infers-Grows before after raw i = record {
    outputs = λ id h. Adds-contains before.relations after.relations i.relation id i.adds h;
    resources = λ id h.
        subst (λ set. contains set id ≡ true) (sym i.resource_inputs) (extend-contains _ _ id h);
    relations = λ id h.
        subst (λ set. contains set id ≡ true) (sym i.relation_inputs) (extend-contains _ _ id h);
  }

  Infers-Covered :
      (before after : Produced) (raw : InferenceCandidate)
      → Infers hashing store s rule at existing candidates raw before after
      → CoveredBy after raw
  Infers-Covered before after raw i = record {
    candidate = i.candidate;
    normal = i.normal;
    id = i.relation.relation_id;
    named = i.named;
    output = Adds-output before.relations after.relations i.relation i.adds;
    cites =
        subst (λ set. All (λ x. contains set x ≡ true) i.candidate.input_resource_version_ids)
          (sym i.resource_inputs)
          (extend-All before.resource_inputs i.candidate.input_resource_version_ids);
    links =
        subst (λ set. All (λ x. contains set x ≡ true) i.candidate.input_relation_version_ids)
          (sym i.relation_inputs)
          (extend-All before.relation_inputs i.candidate.input_relation_version_ids);
  }

  -- What the loop has at its end, given what it had before these candidates.
  pub record Collects (rest : List InferenceCandidate) (before after : Produced) : Type 0 where
    pub grows : Grows before after
    pub covers : All (CoveredBy after) rest
    pub inferred :
        All (Inferred hashing store s rule at existing candidates) (values before.relations)
        → All (Inferred hashing store s rule at existing candidates) (values after.relations)
    pub keyed : AreKeyed before.relations → AreKeyed after.relations

  Adds-AreKeyed :
      (before after : BTreeMap RelationId Relation) (r : Relation)
      → Adds hashing store s before after r
      → AreKeyed before
      → AreKeyed after
  Adds-AreKeyed before after r (inl added) h =
      subst AreKeyed (sym added) (insert-AreKeyed before r h)
  Adds-AreKeyed before after r (inr (present, same)) h = subst AreKeyed (sym same) h

  pub infer_all-Collects :
      (rest : List InferenceCandidate) (before after : Produced)
      → ((raw : InferenceCandidate) → Memᴰ raw rest → Memᴰ raw candidates)
      → infer_all hashing store s rule at existing before rest ≡ ok after
      → Collects rest before after
  unfolding infer_all
  infer_all-Collects [] before after from h =
      subst (Collects [] before) (ok-injective _ _ h) (record {
        grows = record { outputs = λ id k. k; resources = λ id k. k; relations = λ id k. k };
        covers = tt;
        inferred = λ k. k;
        keyed = λ k. k;
      })
  infer_all-Collects (raw ∷ rest) before after from h =
      let (next, made, h₁) = >>=-eq-ok (infer hashing store s rule at existing before raw) _ h in
      let i =
        infer-Infers hashing store s rule at existing before next candidates raw
          (from raw (Memᴰ.head refl)) made in
      let c = infer_all-Collects rest next after (λ r m. from r (Memᴰ.tail m)) h₁ in
      let g = Infers-Grows before next raw i in
      record {
        grows = record {
          outputs = λ id k. c.grows.outputs id (g.outputs id k);
          resources = λ id k. c.grows.resources id (g.resources id k);
          relations = λ id k. c.grows.relations id (g.relations id k);
        };
        covers =
            (Grows-Covered next after raw c.grows (Infers-Covered before next raw i), c.covers);
        inferred = λ k. c.inferred (
            Adds-All hashing store s _ before.relations next.relations i.relation i.adds i.inferred
              k);
        keyed = λ k. c.keyed (Adds-AreKeyed before.relations next.relations i.relation i.adds k);
      }
