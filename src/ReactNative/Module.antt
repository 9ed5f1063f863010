-- ===== src/ReactNative/Module.antt =====
-- native-module.mjs: getReactNativeModule. The registry of React Native is a parameter.
pub mod Trusted
use symbol_nem_wallet_core.Prelude.{
  ℕ, String, Bool, true, false, not, ◌||◌, ◌&&◌, Option, none, some, List, [], ◌∷◌, ◌===◌,
  if◌then◌else◌,
}
use symbol_nem_wallet_core.Js.Value.{other_prototype}
use symbol_nem_wallet_core.Js.Value
use symbol_nem_wallet_core.Js.Json.{
  Json, string, array, nil, object, field, end, is_plain_object, get, is_string,
}
use symbol_nem_wallet_core.Js.Outcome.{Exception, foreign, Outcome, returned, thrown, ◌>>=◌}
use symbol_nem_wallet_core.ReactNative.Identities.{keys_differ, manifest_artifact_identities}

-- A module with its identity as an object, and its function `invoke`.
pub record NativeModule : Type 0 where
  pub handle : ℕ
  pub invoke : String → Json → Outcome Json

abbrev pub initialization_error : Exception
initialization_error = foreign (
    Value.object other_prototype (
      Value.field "message" (Value.plain (Value.string "backend initialization failed")) (
        Value.field "name" (Value.plain (Value.string "WalletCoreBackendInitializationError"))
          Value.end)))

-- `try { … } catch { throw backendInitializationError(); }`
abbrev pub or_initialization_error : {A : Type 0} → Outcome A → Outcome A
or_initialization_error (returned a) = returned a
or_initialization_error (thrown e) = thrown initialization_error

abbrev pub require_module : Option NativeModule → Outcome NativeModule
require_module none = thrown initialization_error
require_module (some m) = returned m

-- Map.prototype.get
abbrev pub lookup : List (String × String) → String → Option String
lookup [] id = none
lookup ((key, value) ∷ entries) id = if key === id then some value else lookup entries id

abbrev pub is_identity : Json → Option String → Bool
is_identity value none = false
is_identity value (some identity) = is_string value identity

abbrev pub is_expected : List (String × String) → Json → Json → Bool
is_expected identities (string id) value = is_identity value (lookup identities id)
is_expected identities _ value = false

unfoldable pub identity_differs : List (String × String) → Json → Bool
identity_differs identities identity =
    not (is_plain_object identity)
    || keys_differ identity (
        "architecture" ∷ "artifact_identity" ∷ "module_identity" ∷ "module_name" ∷ "target_id" ∷ [])
    || not (is_string (get identity "module_name") "NativeSymbolNemWalletCore")
    || not (is_string (get identity "module_identity") "symbol-nem-wallet-core-react-native-v1")
    || not (is_string (get identity "architecture") "new")
    || not (is_expected identities (get identity "target_id") (get identity "artifact_identity"))

-- { args: [] }
abbrev pub no_arguments : Json
no_arguments = object (field "args" (array nil) end)

unfoldable pub check_identity : List (String × String) → NativeModule → Outcome NativeModule
check_identity identities m =
    or_initialization_error (m.invoke "__snwc_runtime_identity" no_arguments) >>= λ identity.
    if identity_differs identities identity then thrown initialization_error else returned m

-- `registry` is what TurboModuleRegistry.getEnforcing does: it throws, or gives a module, or `none`
-- for what is no object with a function `invoke`.
unfoldable pub get_react_native_module : Json → Outcome (Option NativeModule) → Outcome NativeModule
get_react_native_module manifest registry =
    or_initialization_error (manifest_artifact_identities manifest) >>= λ identities.
    or_initialization_error registry >>= λ found.
    require_module found >>= λ m. check_identity identities m
