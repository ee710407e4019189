-- ===== src/LocalRpc/Errors.antt =====
-- crates/next-infra-local-rpc/src/protocol/error.rs: failures that a client is told.
use next_infra.Base.{Bool, true, false, Text, text}

pub data ErrorCode : Type 0 where
  host_unavailable protocol_mismatch capability_mismatch invalid_frame : ErrorCode
  frame_too_large invalid_request_id too_many_requests query_failed : ErrorCode

pub record RpcError : Type 0 where
  pub code : ErrorCode
  pub message : Text
  pub retryable : Bool

abbrev pub protocol_mismatch_error : Text → RpcError
protocol_mismatch_error message = record {
  code = protocol_mismatch;
  message = message;
  retryable = false;
}

abbrev pub capability_mismatch_error : Text → RpcError
capability_mismatch_error message = record {
  code = capability_mismatch;
  message = message;
  retryable = false;
}

abbrev pub invalid_frame_error : Text → RpcError
invalid_frame_error message = record { code = invalid_frame; message = message; retryable = false }

abbrev pub invalid_request_id_error : RpcError
invalid_request_id_error = record {
  code = invalid_request_id;
  message = text "request_id must be a non-empty UTF-8 string no longer than 128 bytes";
  retryable = false;
}

abbrev pub too_many_requests_error : RpcError
too_many_requests_error = record {
  code = too_many_requests;
  message = text "the session has reached its in-flight request limit";
  retryable = true;
}
