-- ===== src/Query/Limits/Cursors.antt =====
-- Which texts limits and cursors accept, and that cursors round trip.
use next_infra.Base.{
  ℕ, ◌≤◌, ◌<◌, false, [], ◌∷◌, ◌++◌, any, Option, none, some, Text, is_empty, trim, ok, String,
  Option-cases, inl, inr, nat_eq, ◌≡◌, ◌↔◌, sym, ap, ◌∙◌, arith,
}
use next_infra.Base.Texts.{utf8_length, is_control}
use next_infra.Query.Limits.{
  decode_cursor, encode_cursor, after_prefix, cursor_prefix, bounded, unwrap_or, required_text,
  clean_optional_text,
}

-- A position that fits a cursor.
abbrev pub IsPosition : Text → Type 0
IsPosition value =
    (is_empty value ≡ false) × (any is_control value ≡ false) × (utf8_length value ≤ 507)

-- The cursor of a position is decoded to that position exactly if the position is not empty, has no
-- control character and has at most 507 bytes.
pub decode_cursor-encode_cursor :
    (value : Text)
    → (decode_cursor (some (encode_cursor value)) ≡ ok (some value)) ↔ IsPosition value
unfolding decode_cursor after_prefix utf8_length
decode_cursor-encode_cursor value =
    (λ h. (ground arith, ground arith, ground arith), λ h. ground arith)

-- A text that a request may give, once it is trimmed.
abbrev pub IsText : Text → Type 0
IsText value = (is_empty value ≡ false) × (utf8_length value ≤ 512) × (any is_control value ≡ false)

abbrev pub Cleaned : Option Text → Option Text → Type 0
Cleaned none cleaned = cleaned ≡ none
Cleaned (some value) cleaned = (cleaned ≡ some (trim value)) × IsText (trim value)

-- The position that a cursor stands for.
abbrev pub Positioned : Option Text → Option Text → Type 0
Positioned none after = after ≡ none
Positioned (some cursor) after =
    (value : Text) × (cursor ≡ encode_cursor value) × (after ≡ some value) × IsPosition value

pub required_text-ok :
    (value result : Text) (field : String)
    → required_text value field ≡ ok result
    → (result ≡ trim value) × IsText (trim value)
unfolding required_text
required_text-ok value result field h = (ground arith, (ground arith, ground arith, ground arith))

pub IsText-required_text :
    (value : Text) (field : String)
    → IsText (trim value)
    → required_text value field ≡ ok (trim value)
unfolding required_text
IsText-required_text value field h = ground arith

pub clean_optional_text-ok_iff :
    (value result : Option Text) (field : String)
    → (clean_optional_text value field ≡ ok result) ↔ Cleaned value result
unfolding clean_optional_text required_text
clean_optional_text-ok_iff none result field = (λ h. ground arith, λ h. ground arith)
clean_optional_text-ok_iff (some value) result field = (λ h. ground arith, λ h. ground arith)

after_prefix-eq-some :
    (prefix cursor value : Text)
    → after_prefix prefix cursor ≡ some value
    → cursor ≡ prefix ++ value
unfolding after_prefix
after_prefix-eq-some [] cursor value h = ground arith
after_prefix-eq-some (c ∷ prefix) [] value h = absurd cc
after_prefix-eq-some (c ∷ prefix) (d ∷ cursor) value h =
    ground (arith, after_prefix-eq-some prefix cursor value)

decode_cursor-cases :
    (cursor : Text) (after : Option Text)
    → decode_cursor (some cursor) ≡ ok after
    → (value : Text) × (after_prefix cursor_prefix cursor ≡ some value) × (after ≡ some value)
unfolding decode_cursor
decode_cursor-cases cursor after h = elim (Option-cases (after_prefix cursor_prefix cursor)) [
  | inl absent ↦ absurd (ground arith)
  | inr (value, found) ↦ (value, found, ground arith)
]

pub decode_cursor-Positioned :
    (cursor after : Option Text) → decode_cursor cursor ≡ ok after → Positioned cursor after
unfolding decode_cursor
decode_cursor-Positioned none after h = ground arith
decode_cursor-Positioned (some cursor) after h =
    let (value, found, same) = decode_cursor-cases cursor after h in
    let is_cursor = after_prefix-eq-some cursor_prefix cursor value found in
    (
      value,
      is_cursor,
      same,
      (decode_cursor-encode_cursor value).0
          (sym (ap (λ c. decode_cursor (some c)) is_cursor) ∙ h ∙ ap ok same),
    )

pub Positioned-decode_cursor :
    (cursor after : Option Text) → Positioned cursor after → decode_cursor cursor ≡ ok after
unfolding decode_cursor
Positioned-decode_cursor none after h = ground arith
Positioned-decode_cursor (some cursor) after (value, is_cursor, same, position) =
    ap (λ c. decode_cursor (some c)) is_cursor
    ∙ (decode_cursor-encode_cursor value).1 position
    ∙ ap ok (sym same)

abbrev pub IsLimit : Option ℕ → ℕ → ℕ → ℕ → Type 0
IsLimit value default maximum chosen =
    (chosen ≡ unwrap_or value default) × (0 < chosen) × (chosen ≤ maximum)

pub bounded-ok_iff :
    (message : String) (value : Option ℕ) (default maximum chosen : ℕ)
    → (bounded message value default maximum ≡ ok chosen) ↔ IsLimit value default maximum chosen
unfolding bounded
bounded-ok_iff message value default maximum chosen =
    (λ h. (ground arith, ground arith, ground arith), λ h. ground arith)
