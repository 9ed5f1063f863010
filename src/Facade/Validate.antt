-- ===== src/Facade/Validate.antt =====
-- facade-runtime.mjs: the checks on plain arguments.
pub mod Uuid
pub mod Values
use symbol_nem_wallet_core.Prelude.{
  ℕ, zero, suc, Bool, true, false, ◌&&◌, ◌||◌, Option, none, some, List, [], ◌∷◌, codes, ◌==◌, leb,
  if◌then◌else◌,
}
use symbol_nem_wallet_core.Js.Value.{Value, number, string, integer, negative_zero}
use symbol_nem_wallet_core.Js.Outcome.{Outcome, returned, thrown}
use symbol_nem_wallet_core.Facade.Errors.{binding_failure, invalid_argument, invalid_account_index}

-- [0-9a-fA-F]
abbrev pub is_hex : ℕ → Bool
is_hex c = (leb 48 c && leb c 57) || (leb 97 c && leb c 102) || (leb 65 c && leb c 70)

-- [0-9a-fA-F]{n}
unfoldable pub skip_hex : ℕ → List ℕ → Option (List ℕ)
skip_hex zero cs = some cs
skip_hex (suc n) [] = none
skip_hex (suc n) (c ∷ cs) = if is_hex c then skip_hex n cs else none

unfoldable pub skip_dash : List ℕ → Option (List ℕ)
skip_dash [] = none
skip_dash (c ∷ cs) = if c == b'-' then some cs else none

infixl 5 ◌>>=◌
abbrev ◌>>=◌ : Option (List ℕ) → (List ℕ → Option (List ℕ)) → Option (List ℕ)
none >>= f = none
some cs >>= f = f cs

abbrev at_end : Option (List ℕ) → Bool
at_end (some []) = true
at_end (some (c ∷ cs)) = false
at_end none = false

-- UUID_PATTERN.test
unfoldable pub uuid_pattern : List ℕ → Bool
uuid_pattern cs = at_end (
    skip_hex 8 cs
    >>= skip_dash
    >>= skip_hex 4
    >>= skip_dash
    >>= skip_hex 4
    >>= skip_dash
    >>= skip_hex 4
    >>= skip_dash
    >>= skip_hex 12)

unfoldable pub validate_uuid_value : Value → Outcome (Unit {0})
validate_uuid_value (string s) =
    if uuid_pattern (codes s) then returned tt else thrown invalid_argument
validate_uuid_value _ = thrown binding_failure

unfoldable pub validate_network_or_chain : Value → Outcome (Unit {0})
validate_network_or_chain (number (integer n)) =
    if n == 0 || n == 1 then returned tt else thrown invalid_argument
validate_network_or_chain (number negative_zero) = returned tt
validate_network_or_chain (number n) = thrown invalid_argument
validate_network_or_chain _ = thrown binding_failure

abbrev pub max_account_index : ℕ
max_account_index = 2147483647

unfoldable pub validate_account_index : Value → Outcome (Unit {0})
validate_account_index (number (integer n)) =
    if leb n max_account_index then returned tt else thrown invalid_account_index
validate_account_index (number negative_zero) = returned tt
validate_account_index (number n) = thrown invalid_account_index
validate_account_index _ = thrown binding_failure
