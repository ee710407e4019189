-- ===== src/Base/Texts.antt =====
-- Rust strings as lists of Unicode scalar values; `str` methods of the standard library.
pub mod Trim
use Prim.Native.Nat.{◌≤◌, ℕ, zero, suc, ◌+◌, ◌-◌, ◌*◌, ◌/◌, ◌%◌, ◌<◌}
use Prim.Native.Char.{code}
use Prim.Native.String.{String}
use mathlib.Core.Path.{◌≡◌, refl, ap, ◌∙◌}
use mathlib.Core.Bool.{Bool, true, false, ◌&&◌, ◌||◌}
use mathlib.Core.List.{List, [], ◌∷◌, ◌++◌, reverse, reverse-append, reverse-reverse, reverse-cons}
use next_infra.Base.Lists.{length, length-append}
use mathlib.Core.Logic.{◌≢◌, inl, inr}
use native.Mathlib.Omega.{arith}
use native.Mathlib.Decide.{ℕ_discrete}
use next_infra.Base.Tests.{if◌then◌else◌, leb, ltb, Eq, ◌==◌, nat_eq, Bool-cases}

abbrev pub Text : Type 0
Text = List ℕ

unfoldable pub Text-discrete : Discrete Text
Text-discrete = hlevel ℕ_discrete

instance abbrev pub text_eq : Eq Text
text_eq = record { decides = Text-discrete }

-- A literal. It stays shut, so that proofs do not see its characters.
unfoldable pub text : String → Text
text String.[] = []
text (String.◌∷◌ c s) = code c ∷ text s

-- `char::is_whitespace`: the Unicode property White_Space.
unfoldable pub is_whitespace : ℕ → Bool
is_whitespace c =
    (leb 9 c && leb c 13)
    || (c == 32)
    || (c == 0x85)
    || (c == 0xa0)
    || (c == 0x1680)
    || (leb 0x2000 c && leb c 0x200a)
    || (c == 0x2028)
    || (c == 0x2029)
    || (c == 0x202f)
    || (c == 0x205f)
    || (c == 0x3000)

unfoldable pub trim_start : Text → Text
trim_start [] = []
trim_start (c ∷ t) = let rest = trim_start t in if is_whitespace c then rest else c ∷ t

unfoldable pub trim : Text → Text
unfolding trim_start is_whitespace
trim t = reverse (trim_start (reverse (trim_start t)))

abbrev pub is_empty : Text → Bool
is_empty [] = true
is_empty (c ∷ t) = false

-- `str::split(separator)`: at least one segment, empty segments kept.
unfoldable pub push_front : ℕ → List Text → List Text
push_front c [] = (c ∷ []) ∷ []
push_front c (s ∷ ss) = (c ∷ s) ∷ ss

unfoldable pub split : ℕ → Text → List Text
unfolding push_front
split separator [] = [] ∷ []
split separator (c ∷ t) =
    let rest = split separator t in if c == separator then [] ∷ rest else push_front c rest

-- `u8::is_ascii_lowercase` and `u8::is_ascii_digit`.
abbrev pub is_ascii_lowercase : ℕ → Bool
is_ascii_lowercase c = leb 97 c && leb c 122

abbrev pub is_ascii_digit : ℕ → Bool
is_ascii_digit c = leb 48 c && leb c 57

-- `Display` of an unsigned number: its decimal digits. The fuel is one more than the number.
unfoldable pub decimal_digits : ℕ → ℕ → Text
decimal_digits zero n = []
decimal_digits (suc fuel) n =
    let shorter = decimal_digits fuel (n / 10) in
    if ltb n 10 then (48 + n) ∷ [] else shorter ++ (48 + n % 10) ∷ []

unfoldable pub decimal : ℕ → Text
unfolding decimal_digits
decimal n = decimal_digits (suc n) n

-- `Ord for str`: lexicographic.
unfoldable pub text_lt : Text → Text → Bool
text_lt a [] = false
text_lt [] (d ∷ b) = true
text_lt (c ∷ a) (d ∷ b) = ltb c d || ((c == d) && text_lt a b)

unfoldable pub starts_unpadded : Text → Bool
starts_unpadded [] = true
starts_unpadded (c ∷ t) = if is_whitespace c then false else true

-- `str::len`: bytes of the UTF-8 encoding.
unfoldable pub utf8_length : Text → ℕ
utf8_length [] = 0
utf8_length (c ∷ t) =
    (if ltb c 0x80 then 1 else if ltb c 0x800 then 2 else if ltb c 0x10000 then 3 else 4)
    + utf8_length t

-- `char::is_control`: the general category Cc.
abbrev pub is_control : ℕ → Bool
is_control c = ltb c 32 || (leb 127 c && leb c 159)

-- `value.starts_with(prefix)` and `value.contains(pattern)`.
unfoldable pub starts_with : Text → Text → Bool
starts_with [] value = true
starts_with (c ∷ prefix) [] = false
starts_with (c ∷ prefix) (d ∷ value) = (c == d) && starts_with prefix value

unfoldable pub contains_text : Text → Text → Bool
unfolding starts_with
contains_text pattern' [] = starts_with pattern' []
contains_text pattern' (c ∷ value) =
    starts_with pattern' (c ∷ value) || contains_text pattern' value
