-- ===== src/Sync/Build/Absences/Ledger.antt =====
-- The whole loop over the stored resources: its ledger of absences and its tombstones.
use next_infra.Base.{
  ◌<◌, ◌≤◌, ◌^◌, length, length-append, ℕ, ◌+◌, Bool, true, false, ◌||◌, List, [], ◌∷◌, ◌++◌, ok,
  ◌≡◌, refl, sym, ap, ◌∙◌, arith, contains, >>=-eq-ok, ◌==◌, text_eq, nat_eq, Bool-cases, inl, inr,
  if◌then◌else◌, any, subst,
}
use mathlib.Core.List.{append_assoc, append-nil}
use next_infra.Base.Maps
use next_infra.Base.Maps.{get-remove, text_ord}
use next_infra.Core.Ids.{ResourceId, Timestamp}
use next_infra.Core.Status.{lifecycle_eq}
use next_infra.Core.Model.{Resource, SyncRun}
use next_infra.Core.MissingEvidence.{MissingEvidenceState, count_for}
use next_infra.Sync.Build.Draft.{total}
use next_infra.Sync.Build.Absences.{Absences, forget_observed, observe_missing, observe_absences}
use next_infra.Sync.Build.Absences.Strikes.{strike, tombstone_for, Struck, observe_missing-Struck}

-- The ids of the rows, and that no two rows share one.
abbrev pub is_row : List Resource → ResourceId → Bool
is_row rows id = any (λ r. id == r.resource_id) rows

abbrev pub Distinct : List Resource → Type 0
Distinct [] = Unit
Distinct (r ∷ rows) = (is_row rows r.resource_id ≡ false) × Distinct rows

-- The tombstones that the rows get, from the counts before the run.
abbrev pub tombstones :
    SyncRun → Timestamp → (ResourceId → Bool) → MissingEvidenceState → List Resource → List Resource
tombstones run at shown state [] = []
tombstones run at shown state (r ∷ rows) =
    tombstone_for run at shown state r ++ tombstones run at shown state rows

-- The count of a resource after the run, from its count before.
abbrev pub counted : List ResourceId → List Resource → ResourceId → ℕ → ℕ
counted observed rows id n =
    if contains observed id then n else if is_row rows id then strike n else n

counted_self :
    (shown same row : Bool) (n k k' : ℕ)
    → same ≡ true
    → row ≡ false
    → n ≡ (if shown then k' else if row then strike k' else k')
    → k' ≡ (if shown then k else strike k)
    → n ≡ (if shown then k else if same || row then strike k else k)
counted_self shown same row n k k' is_same no_row h hk = ground arith

counted_other :
    (shown shown' same row : Bool) (n k k' other : ℕ)
    → same ≡ false
    → n ≡ (if shown then k' else if row then strike k' else k')
    → k' ≡ (if shown' then k else if same then other else k)
    → n ≡ (if shown then k else if same || row then strike k else k)
counted_other shown shown' same row n k k' other is_other h hk = ground arith

module _ (run : SyncRun) (at : Timestamp) where
  tombstones-agree :
      (shown : ResourceId → Bool) (s t : MissingEvidenceState) (id : ResourceId)
      (rows : List Resource)
      → ((j : ResourceId) → (j == id) ≡ false → count_for t j ≡ count_for s j)
      → is_row rows id ≡ false
      → tombstones run at shown t rows ≡ tombstones run at shown s rows
  tombstones-agree shown s t id [] agree fresh = refl
  tombstones-agree shown s t id (r ∷ rows) agree fresh =
      ground (arith, agree r.resource_id, tombstones-agree shown s t id rows agree)

  -- What is shown gets no tombstone, whatever its count.
  pub tombstones-unshown :
      (shown : ResourceId → Bool) (s t : MissingEvidenceState) (rows : List Resource)
      → ((j : ResourceId) → shown j ≡ false → count_for t j ≡ count_for s j)
      → tombstones run at shown t rows ≡ tombstones run at shown s rows
  tombstones-unshown shown s t [] agree = refl
  tombstones-unshown shown s t (r ∷ rows) agree =
      ground (arith, agree r.resource_id, tombstones-unshown shown s t rows agree)

  counted-step :
      (a next : Absences) (r : Resource) (rows : List Resource) (id : ResourceId) (n : ℕ)
      → is_row rows r.resource_id ≡ false
      → Struck run at a next r
      → n ≡ counted a.draft.observed_resource_ids rows id (count_for next.state id)
      → n ≡ counted a.draft.observed_resource_ids (r ∷ rows) id (count_for a.state id)
  counted-step a next r rows id n fresh struck h = elim (Bool-cases (id == r.resource_id)) [
    | inl same ↦
        let e : id ≡ r.resource_id = ground arith in
        counted_self (contains a.draft.observed_resource_ids id) (id == r.resource_id)
          (is_row rows id) n (count_for a.state id) (count_for next.state id) same
          (subst (λ j. is_row rows j ≡ false) (sym e) fresh) h
          (rw (same, sym e) at (struck.counts id))
    | inr other ↦
        counted_other (contains a.draft.observed_resource_ids id)
          (contains a.draft.observed_resource_ids r.resource_id) (id == r.resource_id)
          (is_row rows id) n (count_for a.state id) (count_for next.state id)
          (strike (count_for a.state r.resource_id)) other h (struck.counts id)
  ]

  tombstones-step :
      (a next : Absences) (r : Resource) (rows : List Resource)
      → is_row rows r.resource_id ≡ false
      → Struck run at a next r
      → next.draft.resources
          ++ tombstones run at (contains next.draft.observed_resource_ids) next.state rows
        ≡ a.draft.resources
          ++ tombstones run at (contains a.draft.observed_resource_ids) a.state (r ∷ rows)
  tombstones-step a next r rows fresh struck =
      rw
        (
          struck.observed,
          struck.resources,
          append_assoc a.draft.resources
              (tombstone_for run at (contains a.draft.observed_resource_ids) a.state r)
              (tombstones run at (contains a.draft.observed_resource_ids) next.state rows),
          tombstones-agree (contains a.draft.observed_resource_ids) a.state next.state r.resource_id
              rows (λ j other. rw (struck.counts j, other) (ground arith)) fresh,
        )
        refl

  -- After the loop over distinct rows each count is what `counted` says, and the draft has gained the
  -- tombstones that the counts before the loop call for, in the order of the rows.
  pub observe_absences-ledger :
      (a b : Absences) (rows : List Resource)
      → Distinct rows
      → observe_absences run at a rows ≡ ok b
      → ((id : ResourceId)
          → count_for b.state id
            ≡ counted a.draft.observed_resource_ids rows id (count_for a.state id))
        × (b.draft.resources
            ≡ a.draft.resources
              ++ tombstones run at (contains a.draft.observed_resource_ids) a.state rows)
        × (b.draft.relations ≡ a.draft.relations)
        × (b.draft.observed_resource_ids ≡ a.draft.observed_resource_ids)
  unfolding observe_absences
  observe_absences-ledger a b [] distinct h = (
    λ id. ground arith,
    rw (append-nil a.draft.resources) (ground arith),
    ground arith,
    ground arith,
  )
  observe_absences-ledger a b (r ∷ rows) distinct h =
      let (next, did, h₁) = >>=-eq-ok (observe_missing run at a r) _ h in
      let struck = observe_missing-Struck run at a next r did in
      let (counts, resources, relations, observed) =
        observe_absences-ledger next b rows distinct.1 h₁ in
      (
        λ id. counted-step a next r rows id (count_for b.state id) distinct.0 struck (
            subst (λ o. count_for b.state id ≡ counted o rows id (count_for next.state id))
              struck.observed (counts id)),
        resources ∙ tombstones-step a next r rows distinct.0 struck,
        relations ∙ struck.relations,
        observed ∙ struck.observed,
      )

-- Forgetting the observed resources resets exactly their counts.
pub count_for-forget_observed :
    (state : MissingEvidenceState) (ids : List ResourceId) (id : ResourceId)
    → count_for (forget_observed state ids) id ≡ (if contains ids id then 0 else count_for state id)
unfolding forget_observed count_for contains
count_for-forget_observed state [] id = refl
count_for-forget_observed state (j ∷ ids) id = ground (
  arith,
  count_for-forget_observed (record state { counts = Maps.remove state.counts j }) ids id,
  get-remove state.counts j id,
)

module _ (run : SyncRun) (at : Timestamp) where
  pub observe_absences-grows :
      (a b : Absences) (rows : List Resource)
      → observe_absences run at a rows ≡ ok b
      → length a.draft.resources ≤ length b.draft.resources
  unfolding observe_absences
  observe_absences-grows a b [] h = ground arith
  observe_absences-grows a b (r ∷ rows) h =
      let (next, did, h₁) = >>=-eq-ok (observe_missing run at a r) _ h in
      let struck = observe_missing-Struck run at a next r did in
      omega (
        arith,
        observe_absences-grows next b rows h₁,
        ap length struck.resources,
        length-append a.draft.resources
            (tombstone_for run at (contains a.draft.observed_resource_ids) a.state r),
      )

  -- Each row that the loop adds is counted once.
  pub observe_absences-total :
      (a b : Absences) (rows : List Resource)
      → observe_absences run at a rows ≡ ok b
      → total a.draft.counts + length b.draft.resources < 2 ^ 64 + length a.draft.resources
      → total b.draft.counts + length a.draft.resources
        ≡ total a.draft.counts + length b.draft.resources
  unfolding observe_absences
  observe_absences-total a b [] h small = ground arith
  observe_absences-total a b (r ∷ rows) h small =
      let (next, did, h₁) = >>=-eq-ok (observe_missing run at a r) _ h in
      let struck = observe_missing-Struck run at a next r did in
      let more = observe_absences-grows next b rows h₁ in
      let step = struck.total (omega arith) in
      let rest = observe_absences-total next b rows h₁ (omega arith) in omega arith

  pub observe_absences-relations :
      (a b : Absences) (rows : List Resource)
      → observe_absences run at a rows ≡ ok b
      → b.draft.relations ≡ a.draft.relations
  unfolding observe_absences
  observe_absences-relations a b [] h = ground arith
  observe_absences-relations a b (r ∷ rows) h =
      let (next, did, h₁) = >>=-eq-ok (observe_missing run at a r) _ h in
      let struck = observe_missing-Struck run at a next r did in
      observe_absences-relations next b rows h₁ ∙ struck.relations
