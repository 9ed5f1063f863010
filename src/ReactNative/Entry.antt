-- ===== src/ReactNative/Entry.antt =====
-- packages/wallet-core/src/react-native/index.mjs: the backend that passes each operation on to the
-- native module, and the facade over it.
pub mod Forwarding
use symbol_nem_wallet_core.Prelude.{
  ℕ, zero, suc, ◌+◌, ◌==◌, String, Option, List, [], ◌∷◌, if◌then◌else◌,
}
use symbol_nem_wallet_core.Js.Value.{
  Value, object, object_prototype, function, plain, Fields, end, field,
}
use symbol_nem_wallet_core.Js.Outcome.{Outcome}
use symbol_nem_wallet_core.Js.Storage.{Heap, Js}
use symbol_nem_wallet_core.Facade.Operations.{Backend}
use symbol_nem_wallet_core.Facade.Create.{Facade, create_facade}
use symbol_nem_wallet_core.ReactNative.Module.{or_initialization_error}

-- OPERATIONS
abbrev pub operations : List String
operations =
    "create_empty_store" ∷ "prepare_generated_profile" ∷ "finalize_generated_profile"
    ∷ "restore_profile" ∷ "list_profiles" ∷ "export_mnemonic" ∷ "export_private_key"
    ∷ "list_software_keys" ∷ "derive_software_key" ∷ "import_software_key" ∷ "generate_software_key"
    ∷ "get_public_account" ∷ "sign" ∷ "change_profile_password" ∷ "delete_software_key"
    ∷ "delete_profile" ∷ []

-- one function for each operation, known by its position
abbrev functions : ℕ → List String → Fields
functions n [] = end
functions n (name ∷ names) = field name (plain (function n)) (functions (n + 1) names)

abbrev name_at : ℕ → ℕ → List String → String
name_at n i [] = ""
name_at n i (name ∷ names) = let rest = name_at (n + 1) i names in if n == i then name else rest

-- nativeModule.invoke, on the operation and the arguments: what it does, and what it leaves at the
-- payload of a signing request.
pub record Invocation : Type 0 where
  pub run : String → List Value → Js Value
  pub payload_left : String → List Value → Heap → Option Value

unfoldable pub react_native_backend : Invocation → Backend
react_native_backend invoke = record {
  value = object object_prototype (functions 0 operations);
  apply = λ i args. invoke.run (name_at 0 i operations) args;
  payload_left = λ i args h. invoke.payload_left (name_at 0 i operations) args h;
}

unfoldable pub react_native_facade : Invocation → Outcome Facade
react_native_facade invoke = or_initialization_error (create_facade (react_native_backend invoke))
