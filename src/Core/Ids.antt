-- ===== src/Core/Ids.antt =====
-- crates/next-infra-core/src/ids.rs: validated strings and numbers. A newtype over `String` is its
-- text, and each `new` takes the type's name, which the macro puts into the error message.
pub mod Strings
pub mod Tokens
use next_infra.Base.{
  ℕ, ◌+◌, String, Bool, not, ◌&&◌, ◌||◌, List, [], ◌∷◌, ◌++◌, Text, text, text_eq, trim, split,
  is_empty, is_ascii_lowercase, is_ascii_digit, all, ltb, length, Result, ok, err, ◌>>=◌, ◌>>◌,
  reject_if, if◌then◌else◌, ◌==◌, ◌!=◌, nat_eq, ℤ, pos, negsuc,
}
use next_infra.Core.Error.{DomainError, invalid_value}

abbrev pub ConnectionId : Type 0
ConnectionId = Text

abbrev pub ResourceId : Type 0
ResourceId = Text

abbrev pub ResourceVersionId : Type 0
ResourceVersionId = Text

abbrev pub RelationId : Type 0
RelationId = Text

abbrev pub RelationVersionId : Type 0
RelationVersionId = Text

abbrev pub BindingId : Type 0
BindingId = Text

abbrev pub InferenceRunId : Type 0
InferenceRunId = Text

abbrev pub SyncRunId : Type 0
SyncRunId = Text

abbrev pub ChangeId : Type 0
ChangeId = Text

abbrev pub ExternalId : Type 0
ExternalId = Text

abbrev pub Scope : Type 0
Scope = Text

abbrev pub Fingerprint : Type 0
Fingerprint = Text

abbrev pub EvidenceKey : Type 0
EvidenceKey = Text

abbrev pub FieldPath : Type 0
FieldPath = Text

abbrev pub RuleVersion : Type 0
RuleVersion = Text

abbrev pub SyncCursor : Type 0
SyncCursor = Text

abbrev pub ConnectorType : Type 0
ConnectorType = Text

abbrev pub ResourceKind : Type 0
ResourceKind = Text

abbrev pub RelationKind : Type 0
RelationKind = Text

abbrev pub LabelKey : Type 0
LabelKey = Text

-- `string_value!`: `new` refuses what is blank or padded.
unfoldable pub string_value : String → Text → Result DomainError Text
string_value type_name value =
    if is_empty (trim value) || (trim value != value)
    then err (invalid_value (text type_name ++ text " cannot be empty or padded with whitespace"))
    else ok value

abbrev is_token_byte : ℕ → Bool
is_token_byte byte =
    is_ascii_lowercase byte || is_ascii_digit byte || (byte == b'-') || (byte == b'_')

-- The bytes of a character outside ASCII are refused, as its code point is here.
unfoldable pub validate_token : Text → Text → Result DomainError (Unit {0})
validate_token value type_name =
    reject_if (is_empty value || not (all is_token_byte value))
      (invalid_value (type_name ++ text " must be a lowercase token"))

validate_segments : List Text → Text → Result DomainError (Unit {0})
validate_segments [] type_name = ok tt
validate_segments (segment ∷ rest) type_name = do
  validate_token segment type_name
  validate_segments rest type_name

unfoldable pub validate_namespaced : Text → Text → Result DomainError (Unit {0})
unfolding validate_segments validate_token
validate_namespaced value type_name = do
  let segments = split b'.' value
  reject_if (ltb (length segments) 2)
      (invalid_value (type_name ++ text " must contain a namespace"))
  validate_segments segments type_name

-- `validated_string!`
unfoldable pub validated_string :
    (Text → Text → Result DomainError (Unit {0})) → String → Text → Result DomainError Text
validated_string validator type_name value = do validator value (text type_name); ok value

abbrev pub SchemaVersion : Type 0
SchemaVersion = ℕ

unfoldable pub schema_version : ℕ → Result DomainError SchemaVersion
schema_version value =
    if value == 0 then err (invalid_value (text "SchemaVersion must be positive")) else ok value

-- Milliseconds since the epoch, never negative.
abbrev pub Timestamp : Type 0
Timestamp = ℕ

unfoldable pub from_unix_millis : ℤ → Result DomainError Timestamp
from_unix_millis (pos value) = ok value
from_unix_millis (negsuc value) = err (invalid_value (text "Timestamp cannot be negative"))

abbrev pub Confidence : Type 0
Confidence = ℕ

unfoldable pub from_basis_points : ℕ → Result DomainError Confidence
from_basis_points value =
    if ltb 10000 value
    then err (invalid_value (text "Confidence cannot exceed 10000 basis points"))
    else ok value
