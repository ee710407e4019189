-- ===== src/Inference/Engine/Plans.antt =====
-- The commit that a run of a rule plans: what was inferred and what was retired.
use mathlib.Core.List.{Memᴰ}
use mathlib.Core.List.Memᴰ
use next_infra.Base.{
  true, false, ◌==◌, List, [], ◌∷◌, contains, All, Text, text_eq, text_lt, text_ord, BTreeMap, keys,
  ◌≡◌, ◌≢◌, refl, ◌∙◌, arith, inl, inr, ◌⊎◌, Bool-cases, ==→≡,
}
use next_infra.Base.Maps.{get}
use next_infra.Core.Ids.{RelationId, Timestamp}
use next_infra.Core.Status.{Lifecycle, lifecycle_eq}
use next_infra.Core.Model.{Relation}
use next_infra.Inference.Engine.{is_some, tombstone, tombstones, insert_by_id, sort_by_id}

-- A relation of the store that the rule no longer infers, as a tombstone.
pub record Retired (existing : List Relation) (outputs : List RelationId) (at : Timestamp)
    (relation : Relation) : Type 0 where
  pub old : Relation
  pub stored : Memᴰ old existing
  pub live : old.lifecycle ≢ Lifecycle.tombstoned
  pub dropped : contains outputs old.relation_id ≡ false
  pub retired : relation ≡ tombstone old at

-- What a run does with a stored relation: it is inferred again, it was a tombstone before, or its
-- tombstone is written.
abbrev pub Settled : List RelationId → List Relation → Timestamp → Relation → Type 0
Settled outputs written at old =
    (contains outputs old.relation_id ≡ true)
    ⊎ (old.lifecycle ≡ Lifecycle.tombstoned)
    ⊎ Memᴰ (tombstone old at) written

pub contains-keys :
    {V : Type 0} (m : BTreeMap Text V) (k : Text) → contains (keys m) k ≡ is_some (get m k)
unfolding contains get
contains-keys [] k = refl
contains-keys ((j, v) ∷ m) k = ground (arith, contains-keys m k)

pub tombstones-All :
    (existing rest : List Relation) (produced : BTreeMap RelationId Relation) (at : Timestamp)
    → ((old : Relation) → Memᴰ old rest → Memᴰ old existing)
    → All (Retired existing (keys produced) at) (tombstones rest produced at)
unfolding tombstones
tombstones-All existing [] produced at from = tt
tombstones-All existing (old ∷ rest) produced at from =
    let later = tombstones-All existing rest produced at (λ r m. from r (Memᴰ.tail m)) in
    elim (Bool-cases (is_some (get produced old.relation_id))) [
      | inl again ↦ rw again later
      | inr dropped ↦ elim (Bool-cases (old.lifecycle == Lifecycle.tombstoned)) [
        | inl dead ↦ rw (dropped, dead) later
        | inr live ↦
            rw (dropped, live)
              (
                record {
                  old = old;
                  stored = from old (Memᴰ.head refl);
                  live = λ dead. absurd (ground arith);
                  dropped = contains-keys produced old.relation_id ∙ dropped;
                  retired = refl;
                },
                later,
              )
      ]
    ]

All-insert_by_id :
    (P : Relation → Type 0) (r : Relation) (rs : List Relation)
    → P r
    → All P rs
    → All P (insert_by_id r rs)
unfolding insert_by_id
All-insert_by_id P r [] p ps = (p, tt)
All-insert_by_id P r (o ∷ os) p ps = elim (Bool-cases (text_lt o.relation_id r.relation_id)) [
  | inl before ↦ rw before (ps.0, All-insert_by_id P r os p ps.1)
  | inr after ↦ rw after (p, ps)
]

pub All-sort_by_id : (P : Relation → Type 0) (rs : List Relation) → All P rs → All P (sort_by_id rs)
unfolding sort_by_id
All-sort_by_id P [] ps = tt
All-sort_by_id P (r ∷ rs) ps = All-insert_by_id P r (sort_by_id rs) ps.0 (All-sort_by_id P rs ps.1)

Memᴰ-insert_by_id :
    (x r : Relation) (rs : List Relation) → Memᴰ x (r ∷ rs) → Memᴰ x (insert_by_id r rs)
unfolding insert_by_id
Memᴰ-insert_by_id x r [] m = m
Memᴰ-insert_by_id x r (o ∷ os) m = elim (Bool-cases (text_lt o.relation_id r.relation_id)) [
  | inr after ↦ rw after m
  | inl before ↦ rw before (elim (Memᴰ.cases_cons m) [
    | inl same ↦ Memᴰ.tail (Memᴰ-insert_by_id x r os (Memᴰ.head same))
    | inr later ↦ elim (Memᴰ.cases_cons later) [
      | inl same ↦ Memᴰ.head same
      | inr within ↦ Memᴰ.tail (Memᴰ-insert_by_id x r os (Memᴰ.tail within))
    ]
  ])
]

pub Memᴰ-sort_by_id : (x : Relation) (rs : List Relation) → Memᴰ x rs → Memᴰ x (sort_by_id rs)
unfolding sort_by_id
Memᴰ-sort_by_id x [] m = m
Memᴰ-sort_by_id x (r ∷ rs) m = Memᴰ-insert_by_id x r _ (elim (Memᴰ.cases_cons m) [
  | inl same ↦ Memᴰ.head same
  | inr later ↦ Memᴰ.tail (Memᴰ-sort_by_id x rs later)
])

pub tombstones-Settled :
    (existing : List Relation) (written : List Relation) (produced : BTreeMap RelationId Relation)
    (at : Timestamp)
    → ((r : Relation) → Memᴰ r (tombstones existing produced at) → Memᴰ r written)
    → All (Settled (keys produced) written at) existing
unfolding tombstones
tombstones-Settled [] written produced at into = tt
tombstones-Settled (old ∷ rest) written produced at into =
    elim (Bool-cases (is_some (get produced old.relation_id))) [
      | inl again ↦ (
        inl (contains-keys produced old.relation_id ∙ again),
        tombstones-Settled rest written produced at (rw again at into),
      )
      | inr dropped ↦ elim (Bool-cases (old.lifecycle == Lifecycle.tombstoned)) [
        | inl dead ↦ (
          inr (inl (==→≡ old.lifecycle Lifecycle.tombstoned dead)),
          tombstones-Settled rest written produced at (rw (dropped, dead) at into),
        )
        | inr live ↦
            let into' = rw (dropped, live) at into in
            (
              inr (inr (into' _ (Memᴰ.head refl))),
              tombstones-Settled rest written produced at (λ r m. into' r (Memᴰ.tail m)),
            )
      ]
    ]
