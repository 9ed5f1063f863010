-- ===== src/Tests/ReactNative.antt =====
-- Runs of packages/wallet-core/src/react-native.
use symbol_nem_wallet_core.Prelude.{[], All, ◌≡◌, refl, none, some, String}
use symbol_nem_wallet_core.Js.Value.{Value}
use symbol_nem_wallet_core.Facade.Operations.{operation_names, call}
use symbol_nem_wallet_core.Facade.Create.{Facade}
use symbol_nem_wallet_core.ReactNative.Entry.{Invocation, react_native_backend, react_native_facade}
use symbol_nem_wallet_core.ReactNative.Entry.Forwarding.{react_native_facade-forwards}
use symbol_nem_wallet_core.Tests.Samples.{heap}
use symbol_nem_wallet_core.Js.Json.{
  Json, string, number, array, object, Items, nil, cons, end, field, get, keys, text,
}
use symbol_nem_wallet_core.Js.Outcome.{returned}
use symbol_nem_wallet_core.Manifest.Versions.{span_digits, is_version}
use symbol_nem_wallet_core.ReactNative.Identities.{
  Expected, android_arm64, android_x86, ios_arm64, ios_simulator, manifest_differs,
  artifact_differs, collect_identities, manifest_artifact_identities,
}
use symbol_nem_wallet_core.ReactNative.Module.{
  NativeModule, identity_differs, check_identity, get_react_native_module,
}
use symbol_nem_wallet_core.ReactNative.Module.Trusted.{IsTrusted, get_react_native_module-IsTrusted}

abbrev pub digest : String
digest = "0123456789abcdef0123456789abcdef0123456789abcdef0123456789abcdef"

abbrev pub artifact : Expected → Json
artifact e = object (
    field "target_id" (string e.target_id) (
      field "platform" (string e.platform) (
        field "environment" (string e.environment) (
          field "architecture" (string e.architecture) (
            field "relative_path" (string e.relative_path) (
              field "artifact_filename" (string e.artifact_filename) (
                field "sha256" (string digest)
                  (field "toolchain_identifier" (string "ndk") end))))))))

abbrev pub artifacts : Items
artifacts =
    cons (artifact android_arm64)
      (cons (artifact android_x86) (cons (artifact ios_arm64) (cons (artifact ios_simulator) nil)))

abbrev pub manifest : Json
manifest = object (
    field "schema_version" (number "1") (
      field "package_name" (string "@nemnesia/symbol-nem-wallet-core") (
        field "package_version" (string "0.2.0") (
          field "source_commit" (string "0123456789abcdef0123456789abcdef01234567")
            (field "artifacts" (array artifacts) end)))))

abbrev identity : Expected → Json
identity e = object (
    field "module_name" (string "NativeSymbolNemWalletCore") (
      field "module_identity" (string "symbol-nem-wallet-core-react-native-v1") (
        field "architecture" (string "new") (
          field "target_id" (string e.target_id)
            (field "artifact_identity" (string e.artifact_identity) end)))))

abbrev native : NativeModule
native = record { handle = 7; invoke = λ name args. returned (identity ios_arm64) }

get_react_native_module-IsTrusted_example : IsTrusted manifest (returned (some native)) native
unfolding get_react_native_module manifest_artifact_identities manifest_differs collect_identities
    artifact_differs check_identity identity_differs is_version span_digits text keys get
get_react_native_module-IsTrusted_example =
    get_react_native_module-IsTrusted manifest (returned (some native)) native refl

abbrev silent : Invocation
silent = record {
  run = λ name args h. (returned Value.null, h);
  payload_left = λ name args h. none;
}

react_native_facade-forwards_example :
    ((f : Facade) × (react_native_facade silent ≡ returned f))
    × All
        (λ name. call (react_native_backend silent) name [] heap ≡ silent.run name [] heap)
        operation_names
react_native_facade-forwards_example = react_native_facade-forwards silent [] heap
