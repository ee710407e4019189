-- ===== src/Core/Error.antt =====
-- crates/next-infra-core/src/error.rs
use next_infra.Base.{Text, Bool, false}

pub data ErrorCode : Type 0 where
  invalid_domain_value not_found conflict authentication_failed credential_unavailable : ErrorCode
  permission_denied rate_limited network_unreachable host_key_mismatch : ErrorCode
  provider_unavailable invalid_response schema_incompatible partial_pagination : ErrorCode
  cancelled internal : ErrorCode

pub record DomainError : Type 0 where
  pub code : ErrorCode
  pub message : Text
  pub retryable : Bool

unfoldable pub invalid_value : Text → DomainError
invalid_value message = record {
  code = ErrorCode.invalid_domain_value;
  message = message;
  retryable = false;
}
