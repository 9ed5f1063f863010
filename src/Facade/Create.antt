-- ===== src/Facade/Create.antt =====
-- facade-runtime.mjs: createFacade, which takes a complete backend only.
pub mod Complete
use symbol_nem_wallet_core.Prelude.{ℕ, String, Bool, true, false, List, [], ◌∷◌, if◌then◌else◌}
use symbol_nem_wallet_core.Js.Value.{Value, function, Number, is_object}
use symbol_nem_wallet_core.Js.Outcome.{Exception, foreign, Outcome, returned, thrown, ◌>>=◌}
use symbol_nem_wallet_core.Js.Storage.{Js}
use symbol_nem_wallet_core.Facade.Errors.{error_object, read}
use symbol_nem_wallet_core.Facade.Output.{ProfileInfo, SoftwareKeyInfo, SoftwareKeyListItem}
use symbol_nem_wallet_core.Facade.Results.{PublicAccount, ReadResult, MutationResult}
use symbol_nem_wallet_core.Facade.Secret.{SecretCopy}
use symbol_nem_wallet_core.Facade.Operations
use symbol_nem_wallet_core.Facade.Operations.{Backend, operation_names}

pub record Network : Type 0 where
  pub testnet : Number
  pub mainnet : Number

pub record Chain : Type 0 where
  pub nem : Number
  pub symbol : Number

pub record Facade : Type 0 where
  pub network : Network
  pub chain : Chain
  pub create_empty_store : Js ℕ
  pub prepare_generated_profile : Value → Value → Value → Js (ReadResult (List SecretCopy))
  pub finalize_generated_profile : Value → Value → Value → Js (MutationResult ProfileInfo)
  pub restore_profile : Value → Value → Value → Value → Js (MutationResult ProfileInfo)
  pub list_profiles : Value → Js (ReadResult (List ProfileInfo))
  pub export_mnemonic : Value → Value → Value → Js (ReadResult (List SecretCopy))
  pub export_private_key : Value → Value → Value → Js (ReadResult (List SecretCopy))
  pub list_software_keys : Value → Value → Js (ReadResult (List SoftwareKeyListItem))
  pub derive_software_key :
      Value → Value → Value → Value → Value → Js (MutationResult SoftwareKeyInfo)
  pub import_software_key :
      Value → Value → Value → Value → Value → Js (MutationResult SoftwareKeyInfo)
  pub generate_software_key : Value → Value → Value → Value → Js (MutationResult SoftwareKeyInfo)
  pub get_public_account : Value → Value → Value → Value → Value → Js (ReadResult PublicAccount)
  pub sign : Value → Value → Value → Js (ReadResult ℕ)
  pub change_profile_password : Value → Value → Value → Value → Js (MutationResult (Unit {0}))
  pub delete_software_key : Value → Value → Value → Value → Js (MutationResult (Unit {0}))
  pub delete_profile : Value → Value → Value → Js (MutationResult (Unit {0}))

abbrev incomplete : Exception
incomplete = foreign (error_object "backend operation set is incomplete")

-- one round of `some`: `rest` is what the later names give
abbrev unless_function : Outcome Value → Outcome Bool → Outcome Bool
unless_function (returned (function f)) rest = rest
unless_function (returned v) rest = returned true
unless_function (thrown e) rest = thrown e

-- OPERATION_NAMES.some((name) => typeof backend[name] !== "function"), of an object
unfoldable pub lacks_operation : Value → List String → Outcome Bool
lacks_operation value [] = returned false
lacks_operation value (name ∷ names) =
    unless_function (read value name) (lacks_operation value names)

abbrev pub facade_of : Backend → Facade
facade_of b = record {
  network = record { testnet = Operations.testnet; mainnet = Operations.mainnet };
  chain = record { nem = Operations.nem; symbol = Operations.symbol_chain };
  create_empty_store = Operations.create_empty_store b;
  prepare_generated_profile = Operations.prepare_generated_profile b;
  finalize_generated_profile = Operations.finalize_generated_profile b;
  restore_profile = Operations.restore_profile b;
  list_profiles = Operations.list_profiles b;
  export_mnemonic = Operations.export_mnemonic b;
  export_private_key = Operations.export_private_key b;
  list_software_keys = Operations.list_software_keys b;
  derive_software_key = Operations.derive_software_key b;
  import_software_key = Operations.import_software_key b;
  generate_software_key = Operations.generate_software_key b;
  get_public_account = Operations.get_public_account b;
  sign = Operations.sign b;
  change_profile_password = Operations.change_profile_password b;
  delete_software_key = Operations.delete_software_key b;
  delete_profile = Operations.delete_profile b;
}

unfoldable pub create_facade : Backend → Outcome Facade
create_facade b =
    if is_object b.value
    then (lacks_operation b.value operation_names >>= λ lacking.
        if lacking then thrown incomplete else returned (facade_of b))
    else thrown incomplete
