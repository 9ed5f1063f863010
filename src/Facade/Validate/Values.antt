-- ===== src/Facade/Validate/Values.antt =====
-- Which argument values pass the checks.
use symbol_nem_wallet_core.Prelude.{ℕ, String, ◌≤◌, ◌≡◌, codes, arith}
use symbol_nem_wallet_core.Js.Value.{Value, string, number, integer, negative_zero}
use symbol_nem_wallet_core.Js.Outcome.{returned}
use symbol_nem_wallet_core.Facade.Validate.{
  validate_uuid_value, validate_network_or_chain, max_account_index, validate_account_index,
}
use symbol_nem_wallet_core.Facade.Validate.Uuid.{IsUuid, uuid_pattern_iff}

pub data IsUuidValue : Value → Type 0 where
  uuid : (s : String) → IsUuid (codes s) → IsUuidValue (string s)

-- 0 (also as -0) or 1
pub data IsNetworkOrChain : Value → Type 0 where
  plain : (n : ℕ) → n ≤ 1 → IsNetworkOrChain (number (integer n))
  minus_zero : IsNetworkOrChain (number negative_zero)

pub data IsAccountIndex : Value → Type 0 where
  plain : (n : ℕ) → n ≤ max_account_index → IsAccountIndex (number (integer n))
  minus_zero : IsAccountIndex (number negative_zero)

pub validate_uuid_value-IsUuidValue :
    (v : Value) (u : Unit {0}) → validate_uuid_value v ≡ returned u → IsUuidValue v
unfolding validate_uuid_value
validate_uuid_value-IsUuidValue (string s) u t =
    uuid s ((uuid_pattern_iff (codes s)).0 (ground arith))
validate_uuid_value-IsUuidValue _ u t = cc

pub validate_network_or_chain-IsNetworkOrChain :
    (v : Value) (u : Unit {0}) → validate_network_or_chain v ≡ returned u → IsNetworkOrChain v
unfolding validate_network_or_chain
validate_network_or_chain-IsNetworkOrChain (number (integer n)) u t =
    IsNetworkOrChain.plain n (ground arith)
validate_network_or_chain-IsNetworkOrChain (number negative_zero) u t = IsNetworkOrChain.minus_zero
validate_network_or_chain-IsNetworkOrChain (number n) u t = cc
validate_network_or_chain-IsNetworkOrChain _ u t = cc

pub validate_account_index-IsAccountIndex :
    (v : Value) (u : Unit {0}) → validate_account_index v ≡ returned u → IsAccountIndex v
unfolding validate_account_index
validate_account_index-IsAccountIndex (number (integer n)) u t =
    IsAccountIndex.plain n (ground arith)
validate_account_index-IsAccountIndex (number negative_zero) u t = IsAccountIndex.minus_zero
validate_account_index-IsAccountIndex (number n) u t = cc
validate_account_index-IsAccountIndex _ u t = cc
