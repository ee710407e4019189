-- ===== src/LocalRpc/Capabilities/Laws.antt =====
-- A set of capabilities has the members of its list, in order, and its list must not repeat one.
use next_infra.Base.{
  ℕ, ◌≤◌, ltb, Bool, true, false, ◌||◌, List, [], ◌∷◌, All, ok, ◌==◌, nat_eq, contains, Bool-cases,
  inl, inr, text, text_lt, ◌≡◌, ◌↔◌, refl, sym, ◌∙◌, arith,
}
unfoldable use next_infra.Base.{ℕ_discrete}
use next_infra.LocalRpc.Capabilities.{
  Capability, get_health_summary, get_recent_changes, get_resource, get_sync_status, get_topology,
  list_connector_coverage, search_resources, capability_lt, as_str, capability_eq, CapabilitySet,
  supports, sort, insert_sorted, has_duplicate, new_capability_set,
}

-- The order of the constructors is that of the names.
abbrev rank : Capability → ℕ
rank get_health_summary = 0
rank get_recent_changes = 1
rank get_resource = 2
rank get_sync_status = 3
rank get_topology = 4
rank list_connector_coverage = 5
rank search_resources = 6

capability_lt-rank : (c d : Capability) → capability_lt c d ≡ ltb (rank c) (rank d)
unfolding as_str text text_lt ℕ_discrete
capability_lt-rank c d = ground arith

rank-injective : (c d : Capability) → rank c ≡ rank d → c ≡ d
rank-injective c d h = ground arith

contains-insert_sorted :
    (c : Capability) (cs : List Capability) (d : Capability)
    → contains (insert_sorted c cs) d ≡ (d == c || contains cs d)
unfolding insert_sorted contains
contains-insert_sorted c [] d = refl
contains-insert_sorted c (e ∷ cs) d = ground (arith, contains-insert_sorted c cs d)

pub contains-sort : (cs : List Capability) (d : Capability) → contains (sort cs) d ≡ contains cs d
unfolding sort contains
contains-sort [] d = refl
contains-sort (c ∷ cs) d = ground (arith, contains-insert_sorted c (sort cs) d, contains-sort cs d)

-- Some capability stands in the list twice.
abbrev pub repeats : List Capability → Bool
repeats [] = false
repeats (c ∷ cs) = contains cs c || repeats cs

repeats-insert_sorted :
    (c : Capability) (cs : List Capability)
    → repeats (insert_sorted c cs) ≡ (contains cs c || repeats cs)
unfolding insert_sorted contains
repeats-insert_sorted c [] = refl
repeats-insert_sorted c (d ∷ cs) =
    ground (arith, repeats-insert_sorted c cs, contains-insert_sorted c cs d)

repeats-sort : (cs : List Capability) → repeats (sort cs) ≡ repeats cs
unfolding sort
repeats-sort [] = refl
repeats-sort (c ∷ cs) =
    ground (arith, repeats-insert_sorted c (sort cs), contains-sort cs c, repeats-sort cs)

abbrev AtLeast : Capability → List Capability → Type 0
AtLeast c cs = All (λ d. rank c ≤ rank d) cs

abbrev IsSorted : List Capability → Type 0
IsSorted [] = Unit
IsSorted (c ∷ cs) = AtLeast c cs × IsSorted cs

AtLeast-weaken :
    (b c : Capability) (cs : List Capability) → rank b ≤ rank c → AtLeast c cs → AtLeast b cs
AtLeast-weaken b c [] h least = tt
AtLeast-weaken b c (d ∷ cs) h least = (omega (arith, least.0), AtLeast-weaken b c cs h least.1)

AtLeast-insert_sorted :
    (b c : Capability) (cs : List Capability)
    → rank b ≤ rank c
    → AtLeast b cs
    → AtLeast b (insert_sorted c cs)
unfolding insert_sorted
AtLeast-insert_sorted b c [] h least = (h, tt)
AtLeast-insert_sorted b c (d ∷ cs) h least = elim (Bool-cases (capability_lt d c)) [
  | inl less ↦ rw less (least.0, AtLeast-insert_sorted b c cs h least.1)
  | inr not_less ↦ rw not_less (h, least)
]

insert_sorted-IsSorted :
    (c : Capability) (cs : List Capability) → IsSorted cs → IsSorted (insert_sorted c cs)
unfolding insert_sorted
insert_sorted-IsSorted c [] sorted = (tt, tt)
insert_sorted-IsSorted c (d ∷ cs) sorted = elim (Bool-cases (capability_lt d c)) [
  | inl less ↦ rw less (
    AtLeast-insert_sorted d c cs (ground (arith, capability_lt-rank d c)) sorted.0,
    insert_sorted-IsSorted c cs sorted.1,
  )
  | inr not_less ↦
      let le : rank c ≤ rank d = ground (arith, capability_lt-rank d c) in
      rw not_less ((le, AtLeast-weaken c d cs le sorted.0), sorted)
]

sort-IsSorted : (cs : List Capability) → IsSorted (sort cs)
unfolding sort
sort-IsSorted [] = tt
sort-IsSorted (c ∷ cs) = insert_sorted-IsSorted c (sort cs) (sort-IsSorted cs)

AtLeast-contains :
    (b c : Capability) (cs : List Capability)
    → AtLeast b cs
    → contains cs c ≡ true
    → rank b ≤ rank c
unfolding contains
AtLeast-contains b c [] least listed = absurd cc
AtLeast-contains b c (d ∷ cs) least listed =
    let rest = AtLeast-contains b c cs least.1 in ground (arith, rest, least.0)

has_duplicate-repeats : (cs : List Capability) → IsSorted cs → has_duplicate cs ≡ repeats cs
unfolding has_duplicate contains
has_duplicate-repeats [] sorted = refl
has_duplicate-repeats (c ∷ []) sorted = refl
has_duplicate-repeats (c ∷ d ∷ ds) sorted =
    let rest = has_duplicate-repeats (d ∷ ds) sorted.1 in
    let same : contains ds c ≡ true → c ≡ d = λ listed.
      let le = AtLeast-contains d c ds sorted.1.0 listed in
      rank-injective c d (omega (arith, le, sorted.0.0)) in
    ground (arith, rest, same)

-- In the order of the names, each once.
abbrev pub IsOrdered : List Capability → Type 0
IsOrdered [] = Unit
IsOrdered (c ∷ cs) = All (λ d. capability_lt c d ≡ true) cs × IsOrdered cs

AtLeast-lt :
    (c : Capability) (cs : List Capability)
    → AtLeast c cs
    → contains cs c ≡ false
    → All (λ d. capability_lt c d ≡ true) cs
unfolding contains
AtLeast-lt c [] least h = tt
AtLeast-lt c (d ∷ cs) least h = (
  ground (arith, capability_lt-rank c d, rank-injective c d, least.0),
  AtLeast-lt c cs least.1 (ground arith),
)

IsSorted-IsOrdered : (cs : List Capability) → IsSorted cs → repeats cs ≡ false → IsOrdered cs
IsSorted-IsOrdered [] sorted h = tt
IsSorted-IsOrdered (c ∷ cs) sorted h =
    (AtLeast-lt c cs sorted.0 (ground arith), IsSorted-IsOrdered cs sorted.1 (ground arith))

-- A set is made of a list exactly if the list has no capability twice. The set then supports what
-- the list has and nothing else, and keeps it in the order of the names.
pub new_capability_set-ok_iff :
    (cs : List Capability)
    → (repeats cs ≡ false) ↔ (
        (set : CapabilitySet) × (new_capability_set cs ≡ ok set)
        × IsOrdered set.capabilities
        × ((c : Capability) → supports set c ≡ contains cs c))
unfolding new_capability_set
new_capability_set-ok_iff cs =
    let same = has_duplicate-repeats (sort cs) (sort-IsSorted cs) ∙ repeats-sort cs in
    (
      λ distinct. (
        record { capabilities = sort cs },
        rw (same, distinct) refl,
        IsSorted-IsOrdered (sort cs) (sort-IsSorted cs) (repeats-sort cs ∙ distinct),
        contains-sort cs,
      ),
      λ h. sym same ∙ ground (arith, h.1),
    )
