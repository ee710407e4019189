-- ===== src/Normalizer/Normalize/Latest.antt =====
-- Of the observations of one key the normalizer keeps the latest, and they all agree.
use next_infra.Base.{
  ℕ, ◌+◌, ◌^◌, ◌%◌, ◌≤◌, false, List, [], ◌∷◌, Option, some, BTreeMap, ok, ◌==◌, ◌≡◌, refl, sym, ap,
  ◌∙◌, subst, arith, All, >>=-eq-ok, Option-cases, Bool-cases, inl, inr, leb, nat_eq, text_eq, ≡→==,
  ==→≡,
}
use next_infra.Base.Maps.{get, insert, get-insert}
use next_infra.Core.Hashing.{Hashing}
use next_infra.Core.Model.{ResourceKey}
use next_infra.ConnectorApi.Observation.{SyncRequest, ResourceObservation}
use next_infra.Normalizer.Batch.{ValidatedResource}
use next_infra.Normalizer.Normalize.{Normalizer}
use next_infra.Normalizer.Normalize.Keys.{resource_key_eq, resource_key_ord}
use next_infra.Normalizer.Normalize.Observed.{
  normalize_resource, keep_resource, normalize_resources,
}

-- The map has a resource of the same key and fingerprint that was observed no earlier.
abbrev pub Keeps : BTreeMap ResourceKey ValidatedResource → ValidatedResource → Type 0
Keeps kept v =
    (r : ValidatedResource) × (get kept v.key ≡ some r)
    × (r.fingerprint ≡ v.fingerprint)
    × (v.observed_at ≤ r.observed_at)

some-injective :
    {a b : ValidatedResource} → ◌≡◌ {A = Option ValidatedResource} (some a) (some b) → a ≡ b
some-injective h = cc

module _ (hashing : Hashing) (n : Normalizer) (request : SyncRequest) where
  -- What a step makes of the map: the entry of the resource's key, and all others as they were.
  record Stepped (kept next : BTreeMap ResourceKey ValidatedResource) (r : ValidatedResource)
      : Type 0 where
    entry : ValidatedResource
    found : get next r.key ≡ some entry
    agrees : entry.fingerprint ≡ r.fingerprint
    late : r.observed_at ≤ entry.observed_at
    before :
        (old : ValidatedResource)
        → get kept r.key ≡ some old
        → (old.fingerprint ≡ r.fingerprint) × (old.observed_at ≤ entry.observed_at)
    others : (k : ResourceKey) → (k == r.key) ≡ false → get next k ≡ get kept k

  inserted-Stepped :
      (kept next : BTreeMap ResourceKey ValidatedResource) (r : ValidatedResource)
      → next ≡ insert kept r.key r
      → ((old : ValidatedResource)
          → get kept r.key ≡ some old
          → (old.fingerprint ≡ r.fingerprint) × (old.observed_at ≤ r.observed_at))
      → Stepped kept next r
  inserted-Stepped kept next r next_is before = record {
    entry = r;
    found =
        ap (λ m. get m r.key) next_is
        ∙ get-insert kept r.key r r.key
        ∙ rw (≡→== r.key r.key refl) refl;
    agrees = refl;
    late = omega arith;
    before = before;
    others = λ k other. ap (λ m. get m k) next_is ∙ get-insert kept r.key r k ∙ rw other refl;
  }

  kept-Stepped :
      (kept next : BTreeMap ResourceKey ValidatedResource) (r existing : ValidatedResource)
      → next ≡ kept
      → get kept r.key ≡ some existing
      → existing.fingerprint ≡ r.fingerprint
      → r.observed_at ≤ existing.observed_at
      → Stepped kept next r
  kept-Stepped kept next r existing next_is found agrees late = record {
    entry = existing;
    found = ap (λ m. get m r.key) next_is ∙ found;
    agrees = agrees;
    late = late;
    before = λ old h.
        let same = some-injective (sym found ∙ h) in
        (
          sym (ap (λ (x : ValidatedResource). x.fingerprint) same) ∙ agrees,
          omega (arith, ap (λ (x : ValidatedResource). x.observed_at) same),
        );
    others = λ k other. ap (λ m. get m k) next_is;
  }

  keep_resource-Stepped :
      (kept next : BTreeMap ResourceKey ValidatedResource) (r : ValidatedResource)
      → keep_resource hashing n request kept r ≡ ok next
      → Stepped kept next r
  unfolding keep_resource
  keep_resource-Stepped kept next r h = elim (Option-cases (get kept r.key)) [
    | inl missing ↦ inserted-Stepped kept next r (ground arith) (λ old found. absurd (ground arith))
    | inr (existing, found) ↦ elim (Bool-cases (leb r.observed_at existing.observed_at)) [
      | inl earlier ↦
          kept-Stepped kept next r existing (ground arith) found (ground arith) (ground arith)
      | inr later ↦ inserted-Stepped kept next r (ground arith) (λ old read.
          let same = some-injective (sym found ∙ read) in
          let agrees : existing.fingerprint ≡ r.fingerprint = ground arith in
          (
            sym (ap (λ (x : ValidatedResource). x.fingerprint) same) ∙ agrees,
            ground (arith, ap (λ (x : ValidatedResource). x.observed_at) same),
          ))
    ]
  ]

  Stepped-Keeps :
      (kept next : BTreeMap ResourceKey ValidatedResource) (r v : ValidatedResource)
      → Stepped kept next r
      → Keeps kept v
      → Keeps next v
  Stepped-Keeps kept next r v step (old, found, agrees, late) = elim (Bool-cases (v.key == r.key)) [
    | inr other ↦ (old, step.others v.key other ∙ found, agrees, late)
    | inl same ↦
        let key = ==→≡ v.key r.key same in
        let b = step.before old (ap (get kept) (sym key) ∙ found) in
        (
          step.entry,
          ap (get next) key ∙ step.found,
          step.agrees ∙ sym b.0 ∙ agrees,
          omega (arith, b.1),
        )
  ]

  normalize_resources-Keeps :
      (kept after : BTreeMap ResourceKey ValidatedResource) (total total' : ℕ)
      (observations : List ResourceObservation) (v : ValidatedResource)
      → normalize_resources hashing n request (kept, total) observations ≡ ok (after, total')
      → Keeps kept v
      → Keeps after v
  unfolding normalize_resources
  normalize_resources-Keeps kept after total total' [] v h keeps =
      let same : kept ≡ after = ground (arith, h) in subst (λ m. Keeps m v) same keeps
  normalize_resources-Keeps kept after total total' (o ∷ rest) v h keeps =
      let ((r, dropped), _, h₁) = >>=-eq-ok (normalize_resource hashing n request o) _ h in
      let (next, kept_is, h₂) =
        >>=-eq-ok (keep_resource hashing n request kept r)
          (λ next. normalize_resources hashing n request (next, (total + dropped) % 2 ^ 64) rest)
          h₁ in
      normalize_resources-Keeps next after ((total + dropped) % 2 ^ 64) total' rest v h₂
        (Stepped-Keeps kept next r v (keep_resource-Stepped kept next r kept_is) keeps)

  -- If the resources of a batch are normalized, then each observation was accepted, and the map keeps
  -- under its key a resource of the same fingerprint that was observed no earlier: no observation is
  -- lost, and two that disagree are never both accepted.
  pub normalize_resources-AllKept :
      (kept after : BTreeMap ResourceKey ValidatedResource) (total total' : ℕ)
      (observations : List ResourceObservation)
      → normalize_resources hashing n request (kept, total) observations ≡ ok (after, total')
      → All
          (λ o.
            (v : ValidatedResource) × (dropped : ℕ) × (normalize_resource hashing n request o
              ≡ ok (v, dropped))
            × Keeps after v)
          observations
  unfolding normalize_resources
  normalize_resources-AllKept kept after total total' [] h = tt
  normalize_resources-AllKept kept after total total' (o ∷ rest) h =
      let ((r, dropped), normalized, h₁) = >>=-eq-ok (normalize_resource hashing n request o) _ h in
      let (next, kept_is, h₂) =
        >>=-eq-ok (keep_resource hashing n request kept r)
          (λ next. normalize_resources hashing n request (next, (total + dropped) % 2 ^ 64) rest)
          h₁ in
      let step = keep_resource-Stepped kept next r kept_is in
      (
        (
          r,
          dropped,
          normalized,
          normalize_resources-Keeps next after ((total + dropped) % 2 ^ 64) total' rest r h₂
              (step.entry, step.found, step.agrees, step.late),
        ),
        normalize_resources-AllKept next after ((total + dropped) % 2 ^ 64) total' rest h₂,
      )
