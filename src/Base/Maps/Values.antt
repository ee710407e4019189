-- ===== src/Base/Maps/Values.antt =====
-- What holds of all the values of a map.
use mathlib.Core.Path.{◌≡◌}
use mathlib.Core.Logic.{inl, inr}
use mathlib.Core.Option.{Option, some}
use mathlib.Core.List.{[], ◌∷◌}
use mathlib.Core.Path.{subst}
use next_infra.Base.Tests.{Eq, ◌==◌, Bool-cases}
use next_infra.Base.Lists.{All}
use next_infra.Base.Maps.{BTreeMap, Ord, get, insert, values}

module _ {K V : Type 0} ⦃e : Eq K⦄ ⦃o : Ord K⦄ (P : V → Type 0) where
  pub All-insert :
      (m : BTreeMap K V) (k : K) (v : V) → All P (values m) → P v → All P (values (insert m k v))
  unfolding insert
  All-insert [] k v h p = (p, tt)
  All-insert ((j, w) ∷ m) k v h p = elim (Bool-cases (k == j)) [
    | inl same ↦ rw same (p, h.1)
    | inr other ↦ elim (Bool-cases (o.lt k j)) [
      | inl before ↦ rw (other, before) (p, h)
      | inr after ↦ rw (other, after) (h.0, All-insert m k v h.1 p)
    ]
  ]

  pub All-get : (m : BTreeMap K V) (k : K) (v : V) → All P (values m) → get m k ≡ some v → P v
  unfolding get
  All-get [] k v h found = absurd cc
  All-get ((j, w) ∷ m) k v h found = elim (Bool-cases (k == j)) [
    | inl same ↦ subst P (injective (rw same at found)) h.0
    | inr other ↦ All-get m k v h.1 (rw other at found)
  ]
    where
      injective : {a b : V} → ◌≡◌ {A = Option V} (some a) (some b) → a ≡ b
      injective s = cc
