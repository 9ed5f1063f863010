-- ===== src/Facade/Results.antt =====
-- facade-runtime.mjs: the results that carry bytes, and those with warnings or a new store.
use symbol_nem_wallet_core.Prelude.{ℕ, String, none, some, List}
use symbol_nem_wallet_core.Js.Value.{Value}
use symbol_nem_wallet_core.Js.Outcome
use symbol_nem_wallet_core.Js.Outcome.{Outcome, returned}
use symbol_nem_wallet_core.Js.Storage.{Js, pure, ◌>>=◌}
use symbol_nem_wallet_core.Facade.Access.{property, required_string}
use symbol_nem_wallet_core.Facade.Bytes.{output_bytes}
use symbol_nem_wallet_core.Facade.Output.{Warning, output_warnings, output_chain, output_network}

pub record PublicAccount : Type 0 where
  pub key_id : String
  pub chain : String
  pub network : String
  -- the storage of the copy
  pub public_key : ℕ
  pub address : String

pub record ReadResult (A : Type 0) : Type 0 where
  pub value : A
  pub warnings : List Warning

pub record MutationResult (A : Type 0) : Type 0 where
  pub store : ℕ
  pub value : A
  pub warnings : List Warning

abbrev get : Value → String → Js Value
get value name = pure (property value name)

abbrev get_string : Value → String → Js String
get_string value name = pure (Outcome.◌>>=◌ (property value name) required_string)

unfoldable pub output_public_account : Value → Js PublicAccount
output_public_account value = do
  key_id ← get_string value "key_id"
  chain ← pure (Outcome.◌>>=◌ (property value "chain") output_chain)
  network ← pure (Outcome.◌>>=◌ (property value "network") output_network)
  public_key_value ← get value "public_key"
  public_key ← output_bytes public_key_value (some 32)
  address ← get_string value "address"
  pure (
      returned (record {
        key_id = key_id;
        chain = chain;
        network = network;
        public_key = public_key;
        address = address;
      }))

-- the storage of the signature's copy
unfoldable pub output_signature : Value → Js ℕ
output_signature value = do signature ← get value "signature"; output_bytes signature (some 64)

unfoldable pub output_read_result : {A : Type 0} → Value → (Value → Js A) → Js (ReadResult A)
output_read_result value normalizer = do
  raw ← get value "value"
  normalized ← normalizer raw
  warnings ← pure (Outcome.◌>>=◌ (property value "warnings") output_warnings)
  pure (returned (record { value = normalized; warnings = warnings }))

unfoldable pub output_mutation_result :
    {A : Type 0} → Value → (Value → Js A) → Js (MutationResult A)
output_mutation_result value normalizer = do
  store_value ← get value "store"
  store ← output_bytes store_value none
  raw ← get value "value"
  normalized ← normalizer raw
  warnings ← pure (Outcome.◌>>=◌ (property value "warnings") output_warnings)
  pure (returned (record { store = store; value = normalized; warnings = warnings }))
