-- ===== src/Core/Ids/Strings.antt =====
-- What `string_value!` accepts.
use next_infra.Base.{
  ◌++◌, Text, trim, is_empty, true, false, ok, String, ◌≡◌, arith, text_eq, ◌==◌, Bool-cases, inl,
  inr, ◌↔◌,
}
use next_infra.Base.Texts.{starts_unpadded}
use next_infra.Base.Texts.Trim.{
  IsUnpadded, Closes, trim-IsUnpadded, IsUnpadded-trim, opens-IsUnpadded,
}
use next_infra.Core.Ids.{string_value}

pub string_value-accepts :
    (name : String) (t : Text) → IsUnpadded t → is_empty t ≡ false → string_value name t ≡ ok t
unfolding string_value
string_value-accepts name t h some_t = rw (IsUnpadded-trim t h, string_value) (ground arith)

-- An accepted value is the text itself, and that text is neither blank nor padded.
pub string_value-inv :
    (name : String) (t v : Text)
    → string_value name t ≡ ok v
    → (v ≡ t) × IsUnpadded t × (is_empty t ≡ false)
unfolding string_value
string_value-inv name t v h = elim (Bool-cases (trim t == t)) [
  | inl same ↦ (ground arith, trim-IsUnpadded t (ground arith), ground arith)
  | inr padded ↦ absurd (ground arith)
]

-- `string_value!` accepts exactly the texts that are neither blank nor padded with whitespace.
pub string_value-ok_iff :
    (name : String) (t : Text)
    → (string_value name t ≡ ok t) ↔ (IsUnpadded t × (is_empty t ≡ false))
string_value-ok_iff name t = (
  (λ h. let r = string_value-inv name t t h in (r.1, r.2)),
  (λ h. string_value-accepts name t h.0 h.1),
)

pub string_value-append :
    (name : String) (a b : Text)
    → is_empty a ≡ false
    → starts_unpadded a ≡ true
    → Closes b
    → string_value name (a ++ b) ≡ ok (a ++ b)
string_value-append name a b some_a front h =
    let r = opens-IsUnpadded a b some_a front h in string_value-accepts name (a ++ b) r.0 r.1
