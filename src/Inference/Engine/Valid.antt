-- ===== src/Inference/Engine/Valid.antt =====
-- The candidates that a run of a rule accepts.
use next_infra.Base.{
  Bool, true, false, ◌&&◌, ◌||◌, not, List, [], ◌∷◌, All, Option, none, some, Text, text_eq,
  text_ord, Result, ok, ◌≡◌, ◌≢◌, ◌∙◌, ap, arith, map_err, ==→≡, >>=-eq-ok, map_err-eq-ok,
  >>-reject_if-eq-ok,
}
use next_infra.Core.Ids.{ResourceId}
use next_infra.Core.Status.{Lifecycle, lifecycle_eq}
use next_infra.Core.Hashing.{Hashing}
use next_infra.Core.Model.{Resource, relation_eq}
use next_infra.Core.Ports.{InferenceStore}
use next_infra.Inference.Candidates.{
  InferenceCandidate, store_error, input_version_missing, no_inputs, sorted_inputs,
  normalize_candidate,
}
use next_infra.Inference.Engine.{is_active, validate_ids, validate_candidate}

-- The checks of a candidate that was accepted: it is the raw one with its inputs sorted.
pub record Normal (raw candidate : InferenceCandidate) : Type 0 where
  pub differ : candidate.source_resource_id ≢ candidate.target_resource_id
  pub cites :
      (no_inputs candidate.input_resource_version_ids
        && no_inputs candidate.input_relation_version_ids)
      ≡ false
  pub sorted : candidate ≡ sorted_inputs raw

pub normalize_candidate-Normal :
    (raw candidate : InferenceCandidate)
    → normalize_candidate raw ≡ ok candidate
    → Normal raw candidate
unfolding normalize_candidate
normalize_candidate-Normal raw candidate h = record {
  differ = λ same. absurd (ground arith);
  cites = ground arith;
  sorted = ground arith;
}

module _ {S E : Type 0} (hashing : Hashing) (store : InferenceStore S E) (s : S) where
  abbrev IsLive : ResourceId → Type 0
  IsLive id =
      (resource : Resource) × (store.reader.get_resource s id ≡ ok (some resource))
      × (resource.lifecycle ≡ Lifecycle.active)

  -- The endpoints of a candidate are active resources of the store, and its inputs exist there.
  pub record Valid (candidate : InferenceCandidate) : Type 0 where
    pub source : IsLive candidate.source_resource_id
    pub target : IsLive candidate.target_resource_id
    pub resources :
        All
          (λ id. store.resource_version_exists s id ≡ ok true)
          candidate.input_resource_version_ids
    pub relations :
        All
          (λ id. store.relation_version_exists s id ≡ ok true)
          candidate.input_relation_version_ids

  validate_ids-All :
      (exists : S → Text → Result E Bool) (ids : List Text)
      → validate_ids hashing store exists s ids ≡ ok tt
      → All (λ id. exists s id ≡ ok true) ids
  unfolding validate_ids
  validate_ids-All exists [] h = tt
  validate_ids-All exists (id ∷ ids) h =
      let (found, answered, h₁) = >>=-eq-ok (map_err store_error (exists s id)) _ h in
      let (present, h₂) = >>-reject_if-eq-ok (not found) input_version_missing _ h₁ in
      (map_err-eq-ok store_error _ answered ∙ ap ok (ground arith), validate_ids-All exists ids h₂)

  is_active-IsLive :
      (id : ResourceId) (r : Option Resource)
      → store.reader.get_resource s id ≡ ok r
      → is_active r ≡ true
      → IsLive id
  is_active-IsLive id none h active = absurd (ground arith)
  is_active-IsLive id (some r) h active = (r, h, ==→≡ _ _ active)

  pub validate_candidate-Valid :
      (candidate : InferenceCandidate)
      → validate_candidate hashing store s candidate ≡ ok tt
      → Valid candidate
  unfolding validate_candidate
  validate_candidate-Valid candidate h =
      let (source, found, h₁) =
        >>=-eq-ok (map_err store_error (store.reader.get_resource s candidate.source_resource_id)) _
          h in
      let (target, found', h₂) =
        >>=-eq-ok (map_err store_error (store.reader.get_resource s candidate.target_resource_id)) _
          h₁ in
      let (live, h₃) =
        >>-reject_if-eq-ok (not (is_active source) || not (is_active target)) input_version_missing
          _ h₂ in
      let (_, resources, h₄) =
        >>=-eq-ok
          (validate_ids hashing store store.resource_version_exists s
            candidate.input_resource_version_ids)
          _ h₃ in
      record {
        source = is_active-IsLive _ source (map_err-eq-ok store_error _ found) (ground arith);
        target = is_active-IsLive _ target (map_err-eq-ok store_error _ found') (ground arith);
        resources = validate_ids-All store.resource_version_exists _ resources;
        relations = validate_ids-All store.relation_version_exists _ h₄;
      }
