-- ===== src/RnPackage.antt =====
-- packages/wallet-core/src/react-native-manifest.mjs: the targets and the errors. The children are
-- the parts of that file.
pub mod Manifest
pub mod Bytes
pub mod MachO
pub mod Archive
pub mod Dynamic
pub mod Elf
pub mod Inputs
pub mod Assembly
use symbol_nem_wallet_core.Prelude.{
  ℕ, suc, String, Option, none, some, List, [], ◌∷◌, ◌===◌, if◌then◌else◌,
}
use symbol_nem_wallet_core.ReactNative.Identities.{Expected}

-- REACT_NATIVE_TARGETS, each with its id
abbrev pub react_native_targets : List Expected
react_native_targets =
    record {
      target_id = "android-arm64-v8a";
      platform = "android";
      environment = "device";
      architecture = "arm64-v8a";
      relative_path = "dist/react-native/android/jni/arm64-v8a/libsymbol_nem_wallet_core_rn.so";
      artifact_filename = "libsymbol_nem_wallet_core_rn.so";
      artifact_identity =
          "android|arm64-v8a|dist/react-native/android/jni/arm64-v8a/libsymbol_nem_wallet_core_rn.so";
    }
    ∷ record {
      target_id = "android-x86_64";
      platform = "android";
      environment = "emulator";
      architecture = "x86_64";
      relative_path = "dist/react-native/android/jni/x86_64/libsymbol_nem_wallet_core_rn.so";
      artifact_filename = "libsymbol_nem_wallet_core_rn.so";
      artifact_identity =
          "android|x86_64|dist/react-native/android/jni/x86_64/libsymbol_nem_wallet_core_rn.so";
    }
    ∷ record {
      target_id = "ios-arm64";
      platform = "ios";
      environment = "device";
      architecture = "arm64";
      relative_path =
          "dist/react-native/ios/SymbolNemWalletCoreRN.xcframework/ios-arm64/libsymbol_nem_wallet_core_rn.a";
      artifact_filename = "libsymbol_nem_wallet_core_rn.a";
      artifact_identity =
          "ios|ios|arm64|dist/react-native/ios/SymbolNemWalletCoreRN.xcframework/ios-arm64/libsymbol_nem_wallet_core_rn.a";
    }
    ∷ record {
      target_id = "ios-simulator-arm64";
      platform = "ios";
      environment = "simulator";
      architecture = "arm64";
      relative_path =
          "dist/react-native/ios/SymbolNemWalletCoreRN.xcframework/ios-arm64-simulator/libsymbol_nem_wallet_core_rn.a";
      artifact_filename = "libsymbol_nem_wallet_core_rn.a";
      artifact_identity =
          "ios|ios-simulator|arm64|dist/react-native/ios/SymbolNemWalletCoreRN.xcframework/ios-arm64-simulator/libsymbol_nem_wallet_core_rn.a";
    }
    ∷ []

-- A target with its place in CANONICAL_REACT_NATIVE_TARGET_ORDER, which is the order of the targets:
-- its index and one. What objects inherit, such as "constructor", is left out: it has no place in
-- that order, and the caller rejects it as it does a name that is no target.
abbrev pub find_from : ℕ → List Expected → String → Option (ℕ × Expected)
find_from n [] id = none
find_from n (t ∷ ts) id =
    let rest = find_from (suc n) ts id in if t.target_id === id then some (suc n, t) else rest

unfoldable pub find_target : String → Option (ℕ × Expected)
find_target id = find_from 0 react_native_targets id
