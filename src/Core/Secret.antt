-- ===== src/Core/Secret.antt =====
-- crates/next-infra-core/src/secret.rs: metadata that points at one Keychain generation.
use next_infra.Base.{
  ℕ, Bool, not, ◌||◌, Text, text, text_eq, is_empty, is_ascii_lowercase, is_ascii_digit, all, any,
  ltb, Result, ok, ◌>>◌, reject_if, ◌==◌, nat_eq,
}
use next_infra.Base.Texts.{starts_with, contains_text, utf8_length, is_control}
use next_infra.Core.Error.{DomainError, invalid_value}
use next_infra.Core.Ids.{Timestamp}

pub data SecretBackend : Type 0 where
  macos_data_protection_keychain_v1 : SecretBackend

pub data SecretKind : Type 0 where
  api_token personal_access_token ssh_private_key ssh_passphrase access_key_pair : SecretKind
  database_password : SecretKind

-- `SecretRefInput` has the same fields, and is what `secret_ref` validates.
pub record SecretRef : Type 0 where
  pub backend : SecretBackend
  pub service : Text
  pub account : Text
  pub secret_kind : SecretKind
  pub generation_id : Text
  pub created_at : Timestamp
  pub last_verified_at : Timestamp
  pub permission_scope_summary : Text

abbrev is_service_byte : ℕ → Bool
is_service_byte byte =
    is_ascii_lowercase byte
    || is_ascii_digit byte
    || (byte == b'.')
    || (byte == b'-')
    || (byte == b'_')

unfoldable pub validate_service : Text → Result DomainError (Unit {0})
validate_service value =
    reject_if (is_empty value || ltb 255 (utf8_length value) || not (all is_service_byte value))
      (invalid_value (text "SecretRef service must be a lowercase bundle-derived identifier"))

unfoldable pub validate_account : Text → Result DomainError (Unit {0})
validate_account value =
    reject_if
      (ltb 512 (utf8_length value)
        || not (starts_with (text "connection/") value)
        || not (contains_text (text "/kind/") value)
        || not (contains_text (text "/generation/") value)
        || any is_control value)
      (invalid_value (text "SecretRef account does not match the Keychain naming contract"))

abbrev is_generation_byte : ℕ → Bool
is_generation_byte byte = is_ascii_lowercase byte || is_ascii_digit byte || (byte == b'-')

unfoldable pub validate_generation : Text → Result DomainError (Unit {0})
validate_generation value =
    reject_if (is_empty value || ltb 128 (utf8_length value) || not (all is_generation_byte value))
      (invalid_value (text "SecretRef generation must be a lowercase identifier"))

unfoldable pub validate_summary : Text → Result DomainError (Unit {0})
validate_summary value =
    reject_if (ltb 512 (utf8_length value) || any is_control value)
      (invalid_value (text "SecretRef permission summary is invalid"))

unfoldable pub secret_ref : SecretRef → Result DomainError SecretRef
secret_ref input = do
  validate_service input.service
  validate_account input.account
  validate_generation input.generation_id
  validate_summary input.permission_scope_summary
  reject_if (ltb input.last_verified_at input.created_at)
      (invalid_value (text "SecretRef verification time precedes creation"))
  ok input
