-- ===== src/Core/Hashing.antt =====
-- Hashes of JSON values, as the binding service and the normalizer take them.
use next_infra.Base.{ℕ, ◌+◌, ◌/◌, ◌%◌, List, [], ◌∷◌, Text, Result, if◌then◌else◌, ltb}
use next_infra.Core.Json.{Value}

-- `serde_json::to_vec` and `Sha256::digest`, of other packages. The error of the first
-- is its text.
pub record Hashing : Type 0 where
  pub to_vec : Value → Result Text (List ℕ)
  pub digest : List ℕ → List ℕ

-- `{byte:02x}`
unfoldable pub hex_digit : ℕ → ℕ
hex_digit n = if ltb n 10 then 48 + n else 87 + n

unfoldable pub hex : List ℕ → Text
unfolding hex_digit
hex [] = []
hex (byte ∷ bytes) = hex_digit (byte / 16) ∷ hex_digit (byte % 16) ∷ hex bytes
