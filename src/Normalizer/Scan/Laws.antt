-- ===== src/Normalizer/Scan/Laws.antt =====
-- What passes the scan is clean.
use next_infra.Base.{false, text, ok, reject_if, ◌≡◌, ◌↔◌, refl, arith, >>=-eq-ok, reject_if-eq-ok}
use next_infra.Core.Error.{DomainError, ErrorCode}
use next_infra.Core.Json.{
  Value, null, boolean, number, string, array, object, Values, nil, cons, Members, end, member,
}
use next_infra.Normalizer.Scan.{
  contract_error, is_sensitive_field_name, has_sentinel, scan_text, scan_for_secrets, scan_values,
  scan_members,
}

abbrev forbidden : DomainError
forbidden =
    contract_error ErrorCode.invalid_response
      (text "resource attributes contain a forbidden secret field")

-- A value without a secret: no key at any depth names a secret field, no text holds a sentinel.
abbrev mutual
  pub IsClean : Value → Type 0
  IsClean (object members) = HasClean members
  IsClean (array values) = AreClean values
  IsClean (string value) = has_sentinel value ≡ false
  IsClean null = Unit
  IsClean (boolean b) = Unit
  IsClean (number n) = Unit

  pub AreClean : Values → Type 0
  AreClean nil = Unit
  AreClean (cons value values) = IsClean value × AreClean values

  pub HasClean : Members → Type 0
  HasClean end = Unit
  HasClean (member key value members) =
      (is_sensitive_field_name key ≡ false) × IsClean value × HasClean members

mutual
  unfolding scan_for_secrets scan_text

  scanned-IsClean : (value : Value) → scan_for_secrets value ≡ ok tt → IsClean value
  scanned-IsClean (object members) h = scanned-HasClean members h
  scanned-IsClean (array values) h = scanned-AreClean values h
  scanned-IsClean (string value) h = ground arith
  scanned-IsClean null h = tt
  scanned-IsClean (boolean b) h = tt
  scanned-IsClean (number n) h = tt

  scanned-AreClean : (values : Values) → scan_values values ≡ ok tt → AreClean values
  scanned-AreClean nil h = tt
  scanned-AreClean (cons value values) h =
      let (_, first, h₁) = >>=-eq-ok (scan_for_secrets value) _ h in
      (scanned-IsClean value first, scanned-AreClean values h₁)

  scanned-HasClean : (members : Members) → scan_members members ≡ ok tt → HasClean members
  scanned-HasClean end h = tt
  scanned-HasClean (member key value members) h =
      let (_, named, h₁) = >>=-eq-ok (reject_if (is_sensitive_field_name key) forbidden) _ h in
      let (_, first, h₂) = >>=-eq-ok (scan_for_secrets value) (λ _. scan_members members) h₁ in
      (reject_if-eq-ok _ forbidden named, scanned-IsClean value first, scanned-HasClean members h₂)

mutual
  unfolding scan_for_secrets scan_text

  clean-scans : (value : Value) → IsClean value → scan_for_secrets value ≡ ok tt
  clean-scans (object members) h = clean_members-scan members h
  clean-scans (array values) h = clean_values-scan values h
  clean-scans (string value) h = ground arith
  clean-scans null h = refl
  clean-scans (boolean b) h = refl
  clean-scans (number n) h = refl

  clean_values-scan : (values : Values) → AreClean values → scan_values values ≡ ok tt
  clean_values-scan nil h = refl
  clean_values-scan (cons value values) h =
      rw (clean-scans value h.0) (clean_values-scan values h.1)

  clean_members-scan : (members : Members) → HasClean members → scan_members members ≡ ok tt
  clean_members-scan end h = refl
  clean_members-scan (member key value members) h =
      rw (h.0, clean-scans value h.1) (clean_members-scan members h.2)

-- The scan accepts exactly the values that hold no secret at any depth: no key of an object is the
-- name of a secret field, and no text looks like a private key or a bearer token.
pub scan_for_secrets-ok_iff : (value : Value) → (scan_for_secrets value ≡ ok tt) ↔ IsClean value
scan_for_secrets-ok_iff value = (scanned-IsClean value, clean-scans value)
