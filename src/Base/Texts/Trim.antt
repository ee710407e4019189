-- ===== src/Base/Texts/Trim.antt =====
-- What `str::trim` leaves unchanged.
use Prim.Native.Nat.{ℕ, ◌≤◌, ◌<◌}
use mathlib.Core.Path.{◌≡◌, refl, ap, ◌∙◌}
use mathlib.Core.Bool.{true, false}
use mathlib.Core.Logic.{inl, inr}
use mathlib.Core.List.{[], ◌∷◌, ◌++◌, reverse, reverse-append, reverse-reverse, reverse-cons}
use native.Mathlib.Omega.{arith}
use next_infra.Base.Tests.{Bool-cases}
use next_infra.Base.Lists.{length, length-append}
use next_infra.Base.Texts.{Text, is_empty, trim_start, trim, starts_unpadded}

length-trim_start : (t : Text) → length (trim_start t) ≤ length t
unfolding trim_start
length-trim_start [] = omega arith
length-trim_start (c ∷ t) = ground (arith, length-trim_start t)

trim_start-shorter : (t : Text) → starts_unpadded t ≡ false → length (trim_start t) < length t
unfolding trim_start starts_unpadded
trim_start-shorter [] h = cc
trim_start-shorter (c ∷ t) h = ground (arith, length-trim_start t)

trim_start-unpadded : (t : Text) → starts_unpadded t ≡ true → trim_start t ≡ t
unfolding trim_start starts_unpadded
trim_start-unpadded [] h = refl
trim_start-unpadded (c ∷ t) h = ground arith

length-reverse : (t : Text) → length (reverse t) ≡ length t
length-reverse [] = refl
length-reverse (c ∷ t) =
    omega
      (arith, ap length (reverse-cons c t), length-append (reverse t) (c ∷ []), length-reverse t)

-- What `trim` leaves alone has no whitespace at either end.
abbrev pub IsUnpadded : Text → Type 0
IsUnpadded t = (starts_unpadded t ≡ true) × (starts_unpadded (reverse t) ≡ true)

pub trim-IsUnpadded : (t : Text) → trim t ≡ t → IsUnpadded t
unfolding trim
trim-IsUnpadded t h = elim (Bool-cases (starts_unpadded t)) [
  | inr padded ↦ absurd (
      omega (
        arith,
        ap length h,
        length-reverse (trim_start (reverse (trim_start t))),
        length-trim_start (reverse (trim_start t)),
        length-reverse (trim_start t),
        trim_start-shorter t padded,
      ))
  | inl front ↦ elim (Bool-cases (starts_unpadded (reverse t))) [
    | inl back ↦ (front, back)
    | inr padded ↦ absurd (
        omega (
          arith,
          ap length (rw (trim_start-unpadded t front) at h),
          length-reverse (trim_start (reverse t)),
          length-reverse t,
          trim_start-shorter (reverse t) padded,
        ))
  ]
]

pub IsUnpadded-trim : (t : Text) → IsUnpadded t → trim t ≡ t
unfolding trim
IsUnpadded-trim t (front, back) =
    rw (trim_start-unpadded t front, trim_start-unpadded (reverse t) back, reverse-reverse) refl

starts_unpadded-append :
    (a b : Text) → is_empty a ≡ false → starts_unpadded (a ++ b) ≡ starts_unpadded a
unfolding starts_unpadded
starts_unpadded-append [] b h = cc
starts_unpadded-append (c ∷ a) b h = refl

is_empty-append : (a : Text) (c : ℕ) → is_empty (a ++ c ∷ []) ≡ false
is_empty-append [] c = refl
is_empty-append (d ∷ a) c = refl

is_empty-reverse : (t : Text) → is_empty (reverse t) ≡ is_empty t
is_empty-reverse [] = refl
is_empty-reverse (c ∷ t) = rw (reverse-cons c t) (is_empty-append (reverse t) c)

-- A text that something other than whitespace closes.
abbrev pub Closes : Text → Type 0
Closes t = (is_empty t ≡ false) × (starts_unpadded (reverse t) ≡ true)

pub append-Closes : (a b : Text) → Closes b → Closes (a ++ b)
append-Closes [] b h = h
append-Closes (c ∷ a) b h = (
  refl,
  rw (reverse-append (c ∷ a) b)
      (starts_unpadded-append (reverse b) (reverse (c ∷ a)) (is_empty-reverse b ∙ h.0) ∙ h.1),
)

pub opens-IsUnpadded :
    (a b : Text)
    → is_empty a ≡ false
    → starts_unpadded a ≡ true
    → Closes b
    → IsUnpadded (a ++ b) × (is_empty (a ++ b) ≡ false)
opens-IsUnpadded a b some_a front h =
    ((starts_unpadded-append a b some_a ∙ front, (append-Closes a b h).1), (append-Closes a b h).0)
