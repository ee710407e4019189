-- ===== src/Sync/Build/Absences/Strikes.antt =====
-- One absence is counted, the second tombstones.
use next_infra.Base.{
  ◌<◌, ◌^◌, length, length-append, ℕ, ◌+◌, Bool, true, false, ◌&&◌, ◌||◌, List, [], ◌∷◌, ◌++◌, ok,
  ◌≡◌, sym, ap, ◌∙◌, arith, contains, >>=-eq-ok, ◌==◌, ◌!=◌, text_eq, nat_eq, Bool-cases, inl, inr,
  if◌then◌else◌, leb,
}
use Prim.Native.Nat.{min}
use mathlib.Core.List.{append-nil}
use next_infra.Base.Maps.{get-insert, text_ord}
use next_infra.Core.Ids.{ResourceId, Timestamp}
use next_infra.Core.Status.{Lifecycle, lifecycle_eq}
use next_infra.Core.Model.{Resource, SyncRun, SyncRunCounts}
use next_infra.Core.MissingEvidence.{MissingEvidenceState, count_for}
use next_infra.Sync.Project.{tombstone_resource}
use next_infra.Sync.Build.Draft.{increment, total, total-count_row}
use next_infra.Sync.Build.Absences.{
  Absences, missing_count, counted_state, count_missing, tombstone_change, observe_missing,
}

-- The count after one more absence: it stops at two.
abbrev pub strike : ℕ → ℕ
strike n = min (n + 1) 2

count_for-counted_state :
    (a : Absences) (r : Resource) (id : ResourceId)
    → count_for (counted_state a r) id ≡ (
        if id == r.resource_id
        then strike (count_for a.state r.resource_id)
        else count_for a.state id)
unfolding count_for counted_state
count_for-counted_state a r id =
    rw (get-insert a.state.counts r.resource_id (min (missing_count a r) 2) id) (ground arith)

-- The tombstone that a stored resource gets: none if this batch shows it, if it is tombstoned
-- already, or if this is its first absence.
abbrev pub tombstone_for :
    SyncRun → Timestamp → (ResourceId → Bool) → MissingEvidenceState → Resource → List Resource
tombstone_for run at shown state r =
    if shown r.resource_id
      || (r.lifecycle == Lifecycle.tombstoned)
      || (count_for state r.resource_id == 0)
    then []
    else tombstone_resource r run at ∷ []

-- What one stored resource of the scope does to the ledger and to the draft.
pub record Struck (run : SyncRun) (at : Timestamp) (a b : Absences) (r : Resource) : Type 0 where
  pub observed : b.draft.observed_resource_ids ≡ a.draft.observed_resource_ids
  pub relations : b.draft.relations ≡ a.draft.relations
  pub counts :
      (id : ResourceId)
      → count_for b.state id ≡ (
          if contains a.draft.observed_resource_ids r.resource_id
          then count_for a.state id
          else if id == r.resource_id
          then strike (count_for a.state r.resource_id)
          else count_for a.state id)
  pub resources :
      b.draft.resources
      ≡ a.draft.resources ++ tombstone_for run at (contains a.draft.observed_resource_ids) a.state r
  -- The counts grow with the rows.
  pub total :
      total a.draft.counts + length b.draft.resources < 2 ^ 64 + length a.draft.resources
      → total b.draft.counts + length a.draft.resources
        ≡ total a.draft.counts + length b.draft.resources

total-tombstone :
    (before after : SyncRunCounts) (rows : List Resource) (row : Resource)
    → after ≡ record before { updated = increment before.updated }
    → total before + length (rows ++ row ∷ []) < 2 ^ 64 + length rows
    → total after + length rows ≡ total before + length (rows ++ row ∷ [])
total-tombstone before after rows row e small =
    let one = length-append rows (row ∷ []) in
    let small' : total before + 1 < 2 ^ 64 = omega (arith, one) in
    let after' : total after ≡ total before + 1 =
      ap total e ∙ total-count_row false true before small' in
    omega (arith, one)

module _ (run : SyncRun) (at : Timestamp) where
  abbrev doomed : Absences → Resource → Bool
  doomed a r = leb 2 (missing_count a r) && (r.lifecycle != Lifecycle.tombstoned)

  tombstone_for-eq :
      (a : Absences) (r : Resource)
      → contains a.draft.observed_resource_ids r.resource_id ≡ false
      → tombstone_for run at (contains a.draft.observed_resource_ids) a.state r
        ≡ (if doomed a r then tombstone_resource r run at ∷ [] else [])
  unfolding missing_count
  tombstone_for-eq a r absent = rw absent (ground arith)

  count_missing-Struck :
      (a b : Absences) (r : Resource)
      → contains a.draft.observed_resource_ids r.resource_id ≡ false
      → count_missing run at a r ≡ ok b
      → Struck run at a b r
  unfolding count_missing
  count_missing-Struck a b r absent h = elim (Bool-cases (doomed a r)) [
    | inl hit ↦
        let (change, did, h₁) =
          >>=-eq-ok (tombstone_change run at r (tombstone_resource r run at)) _
            (rw (hit, count_missing) at h) in
        let state : b.state ≡ counted_state a r = ground (arith, h₁) in
        let rows : b.draft.resources ≡ a.draft.resources ++ tombstone_resource r run at ∷ [] =
          ground (arith, h₁) in
        record {
          observed = ground (arith, h₁);
          relations = ground (arith, h₁);
          counts =
              λ id. rw absent (ap (λ s. count_for s id) state ∙ count_for-counted_state a r id);
          resources = rw (tombstone_for-eq a r absent, hit) rows;
          total = λ small. rw rows (
              total-tombstone a.draft.counts b.draft.counts a.draft.resources
                (tombstone_resource r run at) (ground (arith, h₁)) (rw rows at small));
        }
    | inr spared ↦
        let state : b.state ≡ counted_state a r = ground arith in
        record {
          observed = ground arith;
          relations = ground arith;
          counts =
              λ id. rw absent (ap (λ s. count_for s id) state ∙ count_for-counted_state a r id);
          resources =
              rw (tombstone_for-eq a r absent, spared, append-nil a.draft.resources) (ground arith);
          total = λ small. ground arith;
        }
  ]

  pub observe_missing-Struck :
      (a b : Absences) (r : Resource) → observe_missing run at a r ≡ ok b → Struck run at a b r
  unfolding observe_missing
  observe_missing-Struck a b r h =
      elim (Bool-cases (contains a.draft.observed_resource_ids r.resource_id)) [
        | inr absent ↦ count_missing-Struck a b r absent (rw (absent, observe_missing) at h)
        | inl shown ↦
            let same : a ≡ b = ground arith in
            record {
              observed = ap (λ (c : Absences). c.draft.observed_resource_ids) (sym same);
              relations = ap (λ (c : Absences). c.draft.relations) (sym same);
              counts = λ id. rw shown (ap (λ (c : Absences). count_for c.state id) (sym same));
              resources = rw shown (
                  ap (λ (c : Absences). c.draft.resources) (sym same)
                  ∙ sym (append-nil a.draft.resources));
              total = λ small.
                  ap (λ (c : Absences). total c.draft.counts + length a.draft.resources) (sym same)
                  ∙ ap (λ (c : Absences). total a.draft.counts + length c.draft.resources) same;
            }
      ]
