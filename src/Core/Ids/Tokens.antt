-- ===== src/Core/Ids/Tokens.antt =====
-- A namespaced name holds nothing but lowercase letters, digits, dashes, underscores and dots.
use next_infra.Base.{
  ℕ, List, [], ◌∷◌, Text, split, true, ok, ◌≡◌, ◌≢◌, refl, arith, text_eq, nat_eq, ◌==◌, Bool-cases,
  subst, ℕ_discrete, inl, inr, all, All,
}
use next_infra.Base.Texts.{push_front}
use next_infra.Core.Ids.{is_token_byte, validate_token, validate_segments, validate_namespaced}

-- No character of the text is `c`.
abbrev pub Lacks : ℕ → Text → Type 0
Lacks c = All (λ d. d ≢ c)

validate_segments-all :
    (segments : List Text) (name : Text)
    → validate_segments segments name ≡ ok tt
    → all (all is_token_byte) segments ≡ true
unfolding validate_segments validate_token
validate_segments-all [] name h = refl
validate_segments-all (s ∷ ss) name h = ground (arith, validate_segments-all ss name)

push_front-all :
    (c : ℕ) (ss : List Text)
    → all (all is_token_byte) (push_front c ss) ≡ true
    → (is_token_byte c ≡ true) × (all (all is_token_byte) ss ≡ true)
unfolding push_front
push_front-all c [] h = (ground arith, refl)
push_front-all c (s ∷ ss) h = ground arith

is_token_byte-ne : (c : ℕ) → is_token_byte c ≡ true → c ≢ b':'
is_token_byte-ne c h e =
    let h' = subst (λ d. is_token_byte d ≡ true) e h in unfold ℕ_discrete in cc h'

split-Lacks : (t : Text) → all (all is_token_byte) (split b'.' t) ≡ true → Lacks b':' t
unfolding split
split-Lacks [] h = tt
split-Lacks (c ∷ t) h = elim (Bool-cases (c == b'.')) [
  | inl dot ↦ ((λ e. ground (arith, e)), split-Lacks t (ground arith))
  | inr other ↦
      let r = push_front-all c (split b'.' t) (ground arith) in
      (is_token_byte-ne c r.0, split-Lacks t r.1)
]

pub namespaced-Lacks :
    (value name : Text) → validate_namespaced value name ≡ ok tt → Lacks b':' value
unfolding validate_namespaced
namespaced-Lacks value name h =
    split-Lacks value (validate_segments-all (split b'.' value) name (ground arith))
