-- ===== src/Normalizer/Attributes/Laws.antt =====
-- The projection of clean attributes is clean.
use next_infra.Base.{
  ℕ, false, List, [], ◌∷◌, Option, some, Text, text_eq, text_lt, split, map, nat_eq, ◌≢◌, ◌||◌, any,
  contains, All, ◌≡◌, refl, ◌==◌, ap, ◌∙◌, sym, subst, arith, Bool-cases, inl, inr, Option-cases,
}
use next_infra.Base.Texts.{push_front}
use next_infra.Core.Ids.Tokens.{Lacks}
use next_infra.Core.Json.{
  Value, null, boolean, number, string, array, object, Members, end, member, get_member,
  insert_member,
}
use next_infra.Normalizer.Scan.{
  is_sensitive_field_name, sensitive_names, underscore, lower, to_ascii_lowercase,
}
use next_infra.Normalizer.Scan.Laws.{IsClean, HasClean}
use next_infra.Normalizer.Attributes.{
  value_at_path, insert_at_path, project_path, project_paths, project_attributes,
}

-- A name that is no secret field's.
abbrev pub IsPlain : Text → Type 0
IsPlain name = is_sensitive_field_name name ≡ false

some-injective : {a b : Value} → ◌≡◌ {A = Option Value} (some a) (some b) → a ≡ b
some-injective h = cc

get_member-IsClean :
    (members : Members) (key : Text) (value : Value)
    → HasClean members
    → get_member members key ≡ some value
    → IsClean value
unfolding get_member
get_member-IsClean end key value clean h = absurd cc
get_member-IsClean (member j v members) key value clean h = elim (Bool-cases (key == j)) [
  | inl same ↦ subst IsClean (some-injective (rw same at h)) clean.1
  | inr other ↦ get_member-IsClean members key value clean.2 (rw other at h)
]

insert_member-HasClean :
    (members : Members) (key : Text) (value : Value)
    → HasClean members
    → IsPlain key
    → IsClean value
    → HasClean (insert_member members key value)
unfolding insert_member
insert_member-HasClean end key value clean plain is_clean = (plain, is_clean, tt)
insert_member-HasClean (member j v members) key value clean plain is_clean =
    elim (Bool-cases (key == j)) [
      | inl same ↦ rw same (plain, is_clean, clean.2)
      | inr other ↦ elim (Bool-cases (text_lt key j)) [
        | inl before ↦ rw (other, before) (plain, is_clean, clean)
        | inr after ↦
            rw (other, after)
              (clean.0, clean.1, insert_member-HasClean members key value clean.2 plain is_clean)
      ]
    ]

value_at_path-IsClean :
    (source : Value) (segments : List Text) (value : Value)
    → IsClean source
    → value_at_path source segments ≡ some value
    → IsClean value
unfolding value_at_path
value_at_path-IsClean source [] value clean h = subst IsClean (some-injective h) clean
value_at_path-IsClean (object members) (segment ∷ rest) value clean h =
    elim (Option-cases (get_member members segment)) [
      | inl missing ↦ absurd (ground arith)
      | inr (inner, found) ↦
          value_at_path-IsClean inner rest value
            (get_member-IsClean members segment inner clean found) (rw (found, value_at_path) at h)
    ]
value_at_path-IsClean (string t) (segment ∷ rest) value clean h = absurd cc
value_at_path-IsClean (array vs) (segment ∷ rest) value clean h = absurd cc
value_at_path-IsClean null (segment ∷ rest) value clean h = absurd cc
value_at_path-IsClean (boolean b) (segment ∷ rest) value clean h = absurd cc
value_at_path-IsClean (number n) (segment ∷ rest) value clean h = absurd cc

insert_at_path-HasClean :
    (target : Members) (segments : List Text) (value : Value)
    → HasClean target
    → All IsPlain segments
    → IsClean value
    → HasClean (insert_at_path target segments value)
unfolding insert_at_path
insert_at_path-HasClean target [] value clean plain is_clean = clean
insert_at_path-HasClean target (first ∷ []) value clean plain is_clean =
    insert_member-HasClean target first value clean plain.0 is_clean
insert_at_path-HasClean target (first ∷ second ∷ rest) value clean plain is_clean =
    elim (Option-cases (get_member target first)) [
      | inl missing ↦
          rw (missing, insert_at_path)
            (insert_member-HasClean target first (object (insert_at_path end (second ∷ rest) value))
              clean plain.0 (insert_at_path-HasClean end (second ∷ rest) value tt plain.1 is_clean))
      | inr (found, present) ↦
          rw (present, insert_at_path)
            (replaced
              (λ members h.
                insert_at_path-HasClean members (second ∷ rest) value h plain.1 is_clean)
              found (get_member-IsClean target first found clean present))
    ]
  where
    replaced :
        ((members : Members)
          → HasClean members
          → HasClean (insert_at_path members (second ∷ rest) value))
        → (found : Value) → IsClean found
        → HasClean (elim found [
          | object members ↦
              insert_member target first (object (insert_at_path members (second ∷ rest) value))
          | _ ↦ target
        ])
    replaced inner (object members) h =
        insert_member-HasClean target first (object (insert_at_path members (second ∷ rest) value))
          clean plain.0 (inner members h)
    replaced inner null h = clean
    replaced inner (boolean b) h = clean
    replaced inner (number n) h = clean
    replaced inner (string t) h = clean
    replaced inner (array vs) h = clean

-- The segments of a path that names no secret field name none.
module _ (g : ℕ → ℕ) (keeps : (c : ℕ) → (g c == b'.') ≡ (c == b'.')) where
  push_front-map :
      (c : ℕ) (ss : List Text) → push_front (g c) (map (map g) ss) ≡ map (map g) (push_front c ss)
  unfolding push_front
  push_front-map c [] = refl
  push_front-map c (s ∷ ss) = refl

  split-map : (t : Text) → split b'.' (map g t) ≡ map (map g) (split b'.' t)
  unfolding split
  split-map [] = refl
  split-map (c ∷ t) = elim (Bool-cases (c == b'.')) [
    | inl dot ↦ rw (keeps c ∙ dot, dot, split-map t) refl
    | inr other ↦ rw (keeps c ∙ other, other, split-map t) (push_front-map c (split b'.' t))
  ]

  split-segment : (t : Text) → Lacks b'.' t → split b'.' (map g t) ≡ map g t ∷ []
  unfolding split push_front
  split-segment [] lacks = refl
  split-segment (c ∷ t) lacks =
      let other : (c == b'.') ≡ false = ground (arith, lacks.0) in
      rw (keeps c ∙ other, split-segment t lacks.1) refl

-- Lower case with underscores, character by character.
abbrev folded : ℕ → ℕ
folded c = underscore (lower c)

folded-dot : (c : ℕ) → (folded c == b'.') ≡ (c == b'.')
folded-dot c = ground arith

map-folded : (t : Text) → map underscore (to_ascii_lowercase t) ≡ map folded t
unfolding to_ascii_lowercase
map-folded [] = refl
map-folded (c ∷ t) = ap (λ u. folded c ∷ u) (map-folded t)

is_sensitive-split :
    (t : Text)
    → is_sensitive_field_name t ≡ any (contains sensitive_names) (map (map folded) (split b'.' t))
unfolding is_sensitive_field_name
is_sensitive-split t =
    ap (λ u. any (contains sensitive_names) (split b'.' u)) (map-folded t)
    ∙ ap (any (contains sensitive_names)) (split-map folded folded-dot t)

is_sensitive-segment :
    (t : Text)
    → Lacks b'.' t
    → is_sensitive_field_name t ≡ (contains sensitive_names (map folded t) || false)
unfolding is_sensitive_field_name
is_sensitive-segment t lacks =
    ap (λ u. any (contains sensitive_names) (split b'.' u)) (map-folded t)
    ∙ ap (any (contains sensitive_names)) (split-segment folded folded-dot t lacks)

push_front-AllLack :
    (c : ℕ) (ss : List Text) → c ≢ b'.' → All (Lacks b'.') ss → All (Lacks b'.') (push_front c ss)
unfolding push_front
push_front-AllLack c [] other h = ((other, tt), tt)
push_front-AllLack c (s ∷ ss) other h = ((other, h.0), h.1)

split-AllLack : (t : Text) → All (Lacks b'.') (split b'.' t)
unfolding split
split-AllLack [] = (tt, tt)
split-AllLack (c ∷ t) = elim (Bool-cases (c == b'.')) [
  | inl dot ↦ rw dot (tt, split-AllLack t)
  | inr other ↦
      rw other
        (push_front-AllLack c (split b'.' t) (λ e. absurd (ground (arith, e))) (split-AllLack t))
]

segments-IsPlain :
    (ss : List Text)
    → All (Lacks b'.') ss
    → any (contains sensitive_names) (map (map folded) ss) ≡ false
    → All IsPlain ss
segments-IsPlain [] lacks h = tt
segments-IsPlain (s ∷ ss) lacks h =
    (is_sensitive-segment s lacks.0 ∙ ground arith, segments-IsPlain ss lacks.1 (ground arith))

split-IsPlain : (path : Text) → IsPlain path → All IsPlain (split b'.' path)
split-IsPlain path plain =
    segments-IsPlain (split b'.' path) (split-AllLack path) (sym (is_sensitive-split path) ∙ plain)

project_path-HasClean :
    (source : Members) (progress : Members × ℕ) (path : Text)
    → HasClean source
    → HasClean progress.0
    → IsPlain path
    → HasClean (project_path source progress path).0
unfolding project_path
project_path-HasClean source (projected, selected) path clean so_far plain =
    elim (Option-cases (value_at_path (object source) (split b'.' path))) [
      | inl missing ↦ rw (missing, project_path) so_far
      | inr (value, found) ↦
          rw (found, project_path)
            (insert_at_path-HasClean projected (split b'.' path) value so_far
              (split-IsPlain path plain)
              (value_at_path-IsClean (object source) (split b'.' path) value clean found))
    ]

project_paths-HasClean :
    (source : Members) (progress : Members × ℕ) (paths : List Text)
    → HasClean source
    → HasClean progress.0
    → All IsPlain paths
    → HasClean (project_paths source progress paths).0
unfolding project_paths
project_paths-HasClean source progress [] clean so_far plain = so_far
project_paths-HasClean source progress (path ∷ paths) clean so_far plain =
    project_paths-HasClean source (project_path source progress path) paths clean
      (project_path-HasClean source progress path clean so_far plain.0) plain.1

-- Projecting attributes without a secret onto paths that name no secret field gives attributes
-- without a secret, at any depth.
pub project_attributes-IsClean :
    (source : Members) (allowed_paths : List Text)
    → HasClean source
    → All IsPlain allowed_paths
    → IsClean (project_attributes source allowed_paths).0
unfolding project_attributes
project_attributes-IsClean source allowed_paths clean plain =
    project_paths-HasClean source (end, 0) allowed_paths clean tt plain
