-- ===== src/Normalizer/Scan.antt =====
-- What the normalizer refuses: names of secret fields, and texts that look like secrets.
pub mod Laws
use next_infra.Base.{
  ℕ, ◌+◌, Bool, false, ◌&&◌, ◌||◌, List, [], ◌∷◌, any, map, contains, Text, text, text_eq, split,
  Result, ok, ◌>>=◌, ◌>>◌, reject_if, if◌then◌else◌, leb, ◌==◌, nat_eq,
}
use next_infra.Base.Texts.{starts_with, contains_text}
use next_infra.Core.Error.{DomainError, ErrorCode}
use next_infra.Core.Json.{
  Value, null, boolean, number, string, array, object, Values, nil, cons, Members, end, member,
}

unfoldable pub contract_error : ErrorCode → Text → DomainError
contract_error code message = record { code = code; message = message; retryable = false }

-- `str::to_ascii_lowercase`
abbrev pub lower : ℕ → ℕ
lower c = if leb 65 c && leb c 90 then c + 32 else c

unfoldable pub to_ascii_lowercase : Text → Text
to_ascii_lowercase t = map lower t

-- `replace('-', "_")`
abbrev pub underscore : ℕ → ℕ
underscore c = if c == b'-' then b'_' else c

abbrev pub sensitive_names : List Text
sensitive_names =
    text "token"
    ∷ text "password"
    ∷ text "secret"
    ∷ text "access_key"
    ∷ text "access_token"
    ∷ text "secret_key"
    ∷ text "authorization"
    ∷ text "cookie"
    ∷ text "private_key"
    ∷ text "connection_string"
    ∷ []

unfoldable pub is_sensitive_field_name : Text → Bool
unfolding to_ascii_lowercase
is_sensitive_field_name value =
    any (contains sensitive_names) (split b'.' (map underscore (to_ascii_lowercase value)))

-- A private key in PEM, or a bearer token.
unfoldable pub has_sentinel : Text → Bool
unfolding to_ascii_lowercase
has_sentinel value =
    contains_text (text "-----begin private key-----") (to_ascii_lowercase value)
    || starts_with (text "bearer ") (to_ascii_lowercase value)

unfoldable pub scan_text : Text → Result DomainError (Unit {0})
unfolding has_sentinel
scan_text value =
    reject_if (has_sentinel value) (
      contract_error ErrorCode.invalid_response (text "normalized text contains a secret sentinel"))

unfoldable mutual
  pub scan_for_secrets : Value → Result DomainError (Unit {0})
  scan_for_secrets (object members) = scan_members members
  scan_for_secrets (array values) = scan_values values
  scan_for_secrets (string value) = scan_text value
  scan_for_secrets null = ok tt
  scan_for_secrets (boolean b) = ok tt
  scan_for_secrets (number n) = ok tt

  pub scan_values : Values → Result DomainError (Unit {0})
  scan_values nil = ok tt
  scan_values (cons value values) = do scan_for_secrets value; scan_values values

  pub scan_members : Members → Result DomainError (Unit {0})
  scan_members end = ok tt
  scan_members (member key value members) = do
    reject_if (is_sensitive_field_name key) (
        contract_error ErrorCode.invalid_response
          (text "resource attributes contain a forbidden secret field"))
    scan_for_secrets value
    scan_members members
