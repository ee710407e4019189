-- ===== src/Base/Maps.antt =====
-- `BTreeMap<K, V>` as an association list in key order, over a key type with `Ord`.
pub mod Values
use mathlib.Core.Path.{◌≡◌, refl}
use mathlib.Core.Bool.{Bool, ◌||◌}
use mathlib.Core.Option.{Option, none, some}
use mathlib.Core.List.{List, [], ◌∷◌, map}
use native.Mathlib.Omega.{arith}
use next_infra.Base.Tests.{if◌then◌else◌, Eq, ◌==◌}
use next_infra.Base.Lists.{contains}
use next_infra.Base.Texts.{Text, text_eq, text_lt}

-- `#[derive(PartialOrd, Ord)]`.
pub record Ord {ℓ} (K : Type ℓ) : Type ℓ where
  pub lt : K → K → Bool

instance abbrev pub text_ord : Ord Text
text_ord = record { lt = text_lt }

abbrev pub BTreeMap {ℓ κ} : Type ℓ → Type κ → Type (ℓ ⊔ κ)
BTreeMap K V = List (K × V)

module _ {ℓ κ} {K : Type ℓ} {V : Type κ} ⦃e : Eq K⦄ where
  unfoldable pub get : BTreeMap K V → K → Option V
  get [] k = none
  get ((j, v) ∷ m) k = if k == j then some v else get m k

  unfoldable pub remove : BTreeMap K V → K → BTreeMap K V
  remove [] k = []
  remove ((j, v) ∷ m) k = let rest = remove m k in if k == j then rest else (j, v) ∷ rest

  pub get-remove :
      (m : BTreeMap K V) (k j : K) → get (remove m k) j ≡ (if j == k then none else get m j)
  unfolding get remove
  get-remove [] k j = ground arith
  get-remove ((i, v) ∷ m) k j = ground (arith, get-remove m k j)

module _ {ℓ κ} {K : Type ℓ} {V : Type κ} ⦃e : Eq K⦄ ⦃o : Ord K⦄ where
  unfoldable pub insert : BTreeMap K V → K → V → BTreeMap K V
  insert [] k v = (k, v) ∷ []
  insert ((j, w) ∷ m) k v =
      let rest = insert m k v in
      if k == j then (k, v) ∷ m else if o.lt k j then (k, v) ∷ (j, w) ∷ m else (j, w) ∷ rest

  pub get-insert :
      (m : BTreeMap K V) (k : K) (v : V) (j : K)
      → get (insert m k v) j ≡ (if j == k then some v else get m j)
  unfolding get insert
  get-insert [] k v j = refl
  get-insert ((i, w) ∷ m) k v j = ground (arith, get-insert m k v j)

module _ {ℓ κ} {K : Type ℓ} {V : Type κ} where
  abbrev pub values : BTreeMap K V → List V
  values m = map (λ p. p.1) m

  abbrev pub keys : BTreeMap K V → List K
  keys m = map (λ p. p.0) m

-- `BTreeSet<K>` as a list in key order.
module _ {ℓ} {K : Type ℓ} ⦃e : Eq K⦄ ⦃o : Ord K⦄ where
  unfoldable pub set_insert : List K → K → List K
  set_insert [] a = a ∷ []
  set_insert (b ∷ s) a =
      let rest = set_insert s a in
      if a == b then b ∷ s else if o.lt a b then a ∷ b ∷ s else b ∷ rest

  pub contains-set_insert :
      (s : List K) (a b : K) → contains (set_insert s a) b ≡ ((b == a) || contains s b)
  unfolding set_insert contains
  contains-set_insert [] a b = refl
  contains-set_insert (c ∷ s) a b = ground (arith, contains-set_insert s a b)

  -- `into_iter().collect::<BTreeSet<_>>()`, and a vector that was sorted and freed of repeats.
  unfoldable pub collect : List K → List K
  collect [] = []
  collect (x ∷ xs) = set_insert (collect xs) x
