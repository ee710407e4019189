-- ===== src/Query/Limits.antt =====
-- crates/next-infra-query/src/service.rs: limits, texts, cursors and errors.
pub mod Cursors
use next_infra.Base.{
  ℕ, ◌+◌, Bool, true, false, ◌||◌, List, [], ◌∷◌, ◌++◌, any, Option, none, some, Text, text, trim,
  is_empty, Result, ok, err, ◌>>=◌, ◌>>◌, reject_if, if◌then◌else◌, ltb, ◌==◌, nat_eq, String,
}
use next_infra.Base.Texts.{utf8_length, is_control}
use next_infra.Query.Dto.Common.{ErrorEnvelope, query_dto_schema_version}

abbrev pub QueryResult : Type 0 → Type 0
QueryResult A = Result ErrorEnvelope A

abbrev pub invalid_request : Text → ErrorEnvelope
invalid_request message = record {
  schema_version = query_dto_schema_version;
  code = text "invalid_request";
  message = message;
  retryable = false;
}

abbrev pub not_found : String → String → ErrorEnvelope
not_found code message = record {
  schema_version = query_dto_schema_version;
  code = text code;
  message = text message;
  retryable = false;
}

abbrev pub source_error : ErrorEnvelope
source_error = record {
  schema_version = query_dto_schema_version;
  code = text "query_source_unavailable";
  message = text "The local query snapshot is temporarily unavailable.";
  retryable = true;
}

abbrev pub contract_error : String → ErrorEnvelope
contract_error message = record {
  schema_version = query_dto_schema_version;
  code = text "query_contract_violation";
  message = text message;
  retryable = false;
}

abbrev pub unwrap_or : Option ℕ → ℕ → ℕ
unwrap_or none default = default
unwrap_or (some value) default = value

unfoldable pub bounded : String → Option ℕ → ℕ → ℕ → QueryResult ℕ
bounded message value default maximum = do
  let chosen = unwrap_or value default
  reject_if ((chosen == 0) || ltb maximum chosen) (invalid_request (text message))
  ok chosen

unfoldable pub bounded_limit : Option ℕ → ℕ → ℕ → QueryResult ℕ
bounded_limit = bounded "limit is outside the supported range"

unfoldable pub bounded_u8 : Option ℕ → ℕ → ℕ → QueryResult ℕ
bounded_u8 = bounded "depth is outside the supported range"

unfoldable pub validate_page_size : ℕ → ℕ → QueryResult (Unit {0})
validate_page_size actual limit =
    reject_if (ltb limit actual) (contract_error "query source exceeded page limit")

unfoldable pub required_text : Text → String → QueryResult Text
required_text value field = do
  let trimmed = trim value
  reject_if (is_empty trimmed || (ltb 512 (utf8_length trimmed) || any is_control trimmed))
      (invalid_request (text field ++ text " is invalid"))
  ok trimmed

abbrev pub some_text : QueryResult Text → QueryResult (Option Text)
some_text (ok value) = ok (some value)
some_text (err error) = err error

unfoldable pub clean_optional_text : Option Text → String → QueryResult (Option Text)
clean_optional_text none field = ok none
clean_optional_text (some value) field = some_text (required_text value field)

-- `niq1:`
abbrev pub cursor_prefix : Text
cursor_prefix = 110 ∷ 105 ∷ 113 ∷ 49 ∷ 58 ∷ []

abbrev pub max_cursor_length : ℕ
max_cursor_length = 512

-- What follows a prefix, of a text that starts with it.
unfoldable pub after_prefix : Text → Text → Option Text
after_prefix [] value = some value
after_prefix (c ∷ prefix) [] = none
after_prefix (c ∷ prefix) (d ∷ value) =
    let rest = after_prefix prefix value in if c == d then rest else none

abbrev pub decode_value : Option Text → QueryResult (Option Text)
decode_value none = err (invalid_request (text "cursor is invalid"))
decode_value (some value) = do
  reject_if (is_empty value || any is_control value) (invalid_request (text "cursor is invalid"))
  ok (some value)

unfoldable pub decode_cursor : Option Text → QueryResult (Option Text)
decode_cursor none = ok none
decode_cursor (some cursor) = do
  reject_if (ltb max_cursor_length (utf8_length cursor))
      (invalid_request (text "cursor is invalid"))
  decode_value (after_prefix cursor_prefix cursor)

abbrev pub encode_cursor : Text → Text
encode_cursor value = cursor_prefix ++ value
