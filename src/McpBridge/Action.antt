-- ===== src/McpBridge/Action.antt =====
-- Calls that read and change the world outside the bridge, as a monad for `do` blocks.
use next_infra.Base.{
  Bool, true, Option, none, some, Text, text, Result, ok, err, map_err, reject_if, ◌≡◌, refl,
}

-- `McpBridgeError`
pub record McpBridgeError : Type 0 where
  pub code : Text
  pub message : Text
  pub retryable : Bool

unfoldable pub host_unavailable : McpBridgeError
host_unavailable = record {
  code = text "host_unavailable";
  message =
      text "Next Infra is unavailable. Start it interactively or review MCP integration settings.";
  retryable = true;
}

-- Why a call stops: with an error of the bridge, or since the fuel of its model is used up.
pub data Stop : Type 0 where
  failed : McpBridgeError → Stop
  out_of_fuel : Stop

abbrev pub Action : Type 0 → Type 0 → Type 0
Action W A = W → Result Stop A × W

abbrev pub unavailable : Stop
unavailable = failed host_unavailable

abbrev pub to_option : {E A : Type 0} → Result E A → Option A
to_option (ok a) = some a
to_option (err e) = none

module _ {W A B : Type 0} where
  abbrev pub after : (A → Action W B) → Result Stop A → Action W B
  after next (ok a) w = next a w
  after next (err stop) w = (err stop, w)

  infixl 5 ◌>>=◌
  abbrev pub ◌>>=◌ : Action W A → (A → Action W B) → Action W B
  call >>= next = λ w. after next (call w).0 (call w).1

  -- What holds of `call >>= next`: it holds where the call stops, and of what comes next.
  pub >>=-holds :
      (Holds : Result Stop B → W → Type 0) (call : Action W A) (next : A → Action W B) (w : W)
      → ((stop : Stop) → (call w).0 ≡ err stop → Holds (err stop) (call w).1)
      → ((a : A) → (call w).0 ≡ ok a → Holds (next a (call w).1).0 (next a (call w).1).1)
      → Holds ((call >>= next) w).0 ((call >>= next) w).1
  >>=-holds Holds call next w stopped went = go (call w).0 stopped went
    where
      go :
          (r : Result Stop A)
          → ((stop : Stop) → r ≡ err stop → Holds (err stop) (call w).1)
          → ((a : A) → r ≡ ok a → Holds (next a (call w).1).0 (next a (call w).1).1)
          → Holds (after next r (call w).1).0 (after next r (call w).1).1
      go (ok a) stopped went = went a refl
      go (err stop) stopped went = stopped stop refl

module _ {W : Type 0} where
  infixl 5 ◌>>◌
  abbrev pub ◌>>◌ : {B : Type 0} → Action W (Unit {0}) → Action W B → Action W B
  call >> next = call >>= λ done. next

  abbrev pub pure : {A : Type 0} → A → Action W A
  pure a w = (ok a, w)

  -- `if bad { return Err(host_unavailable()) }`
  abbrev pub unavailable_if : Bool → Action W (Unit {0})
  unavailable_if bad w = (reject_if bad unavailable, w)

  -- A call that cannot fail.
  abbrev pub call : {A : Type 0} → (W → A × W) → Action W A
  call operation w = (ok (operation w).0, (operation w).1)

  -- `.map_err(|_| host_unavailable())?`
  abbrev pub attempt : {E A : Type 0} → (W → Result E A × W) → Action W A
  attempt operation w = (map_err (λ e. unavailable) (operation w).0, (operation w).1)

  -- `if let Ok(value) = ...`
  abbrev pub if_ok : {E A : Type 0} → (W → Result E A × W) → Action W (Option A)
  if_ok operation w = (ok (to_option (operation w).0), (operation w).1)

  -- The branches of `if let Some(value) = ...`
  abbrev pub if_some : {A B : Type 0} → Option A → (A → Action W B) → Action W B → Action W B
  if_some (some a) found missing = found a
  if_some none found missing = missing

  pub if_some-holds :
      {A B : Type 0} (Holds : Result Stop B → W → Type 0) (o : Option A) (found : A → Action W B)
      (missing : Action W B) (w : W)
      → ((a : A) → o ≡ some a → Holds (found a w).0 (found a w).1)
      → (o ≡ none → Holds (missing w).0 (missing w).1)
      → Holds (if_some o found missing w).0 (if_some o found missing w).1
  if_some-holds Holds (some a) found missing w there absent = there a refl
  if_some-holds Holds none found missing w there absent = absent refl
