-- ===== src/ReactNative/Identities.antt =====
-- native-module.mjs: manifestArtifactIdentities. The manifest, which the build writes in place of
-- PACKAGE_REACT_NATIVE_MANIFEST, is an argument.
pub mod Accepted
use symbol_nem_wallet_core.Prelude.{
  ℕ, String, Bool, false, not, ◌||◌, List, [], ◌∷◌, codes, length, ◌==◌, sort,
}
use symbol_nem_wallet_core.Js.Json.{
  Json, string, array, items, is_plain_object, get, keys, is_string, is_number, text, same_names,
  throw_if, error,
}
use symbol_nem_wallet_core.Js.Outcome.{Outcome, returned, thrown, ◌>>=◌}
use symbol_nem_wallet_core.Manifest.Versions.{is_digest, is_version, is_empty}

pub record Expected : Type 0 where
  pub target_id : String
  pub platform : String
  pub environment : String
  pub architecture : String
  pub relative_path : String
  pub artifact_filename : String
  pub artifact_identity : String

-- EXPECTED_ARTIFACTS
abbrev pub android_arm64 : Expected
android_arm64 = record {
  target_id = "android-arm64-v8a";
  platform = "android";
  environment = "device";
  architecture = "arm64-v8a";
  relative_path = "dist/react-native/android/jni/arm64-v8a/libsymbol_nem_wallet_core_rn.so";
  artifact_filename = "libsymbol_nem_wallet_core_rn.so";
  artifact_identity =
      "android|arm64-v8a|dist/react-native/android/jni/arm64-v8a/libsymbol_nem_wallet_core_rn.so";
}

abbrev pub android_x86 : Expected
android_x86 = record {
  target_id = "android-x86_64";
  platform = "android";
  environment = "emulator";
  architecture = "x86_64";
  relative_path = "dist/react-native/android/jni/x86_64/libsymbol_nem_wallet_core_rn.so";
  artifact_filename = "libsymbol_nem_wallet_core_rn.so";
  artifact_identity =
      "android|x86_64|dist/react-native/android/jni/x86_64/libsymbol_nem_wallet_core_rn.so";
}

abbrev pub ios_arm64 : Expected
ios_arm64 = record {
  target_id = "ios-arm64";
  platform = "ios";
  environment = "device";
  architecture = "arm64";
  relative_path =
      "dist/react-native/ios/SymbolNemWalletCoreRN.xcframework/ios-arm64/libsymbol_nem_wallet_core_rn.a";
  artifact_filename = "libsymbol_nem_wallet_core_rn.a";
  artifact_identity =
      "ios|ios|arm64|dist/react-native/ios/SymbolNemWalletCoreRN.xcframework/ios-arm64/libsymbol_nem_wallet_core_rn.a";
}

abbrev pub ios_simulator : Expected
ios_simulator = record {
  target_id = "ios-simulator-arm64";
  platform = "ios";
  environment = "simulator";
  architecture = "arm64";
  relative_path =
      "dist/react-native/ios/SymbolNemWalletCoreRN.xcframework/ios-arm64-simulator/libsymbol_nem_wallet_core_rn.a";
  artifact_filename = "libsymbol_nem_wallet_core_rn.a";
  artifact_identity =
      "ios|ios-simulator|arm64|dist/react-native/ios/SymbolNemWalletCoreRN.xcframework/ios-arm64-simulator/libsymbol_nem_wallet_core_rn.a";
}

abbrev pub expected_artifacts : List Expected
expected_artifacts = android_arm64 ∷ android_x86 ∷ ios_arm64 ∷ ios_simulator ∷ []

abbrev pub invalid_manifest : String
invalid_manifest = "invalid React Native artifact manifest"

-- a string whose text passes a test
abbrev pub is_text_of : (List ℕ → Bool) → Json → Bool
is_text_of test (string s) = test (codes s)
is_text_of test _ = false

-- JSON.stringify(Object.keys(value).sort()) !== JSON.stringify(names)
abbrev pub keys_differ : Json → List String → Bool
keys_differ value names = not (same_names (sort (keys value)) names)

abbrev pub has_expected_length : Json → Bool
has_expected_length (array artifacts) = length (items artifacts) == length expected_artifacts
has_expected_length _ = false

unfoldable pub manifest_differs : Json → Bool
manifest_differs manifest =
    not (is_plain_object manifest)
    || keys_differ manifest
        ("artifacts" ∷ "package_name" ∷ "package_version" ∷ "schema_version" ∷ "source_commit" ∷ [])
    || not (is_number (get manifest "schema_version") "1")
    || not (is_string (get manifest "package_name") "@nemnesia/symbol-nem-wallet-core")
    || not (is_text_of is_version (get manifest "package_version"))
    || not (is_text_of (is_digest 40) (get manifest "source_commit"))
    || not (has_expected_length (get manifest "artifacts"))

unfoldable pub artifact_differs : Json → Expected → Bool
artifact_differs artifact expected =
    not (is_plain_object artifact)
    || keys_differ artifact (
        "architecture" ∷ "artifact_filename" ∷ "environment" ∷ "platform" ∷ "relative_path"
        ∷ "sha256" ∷ "target_id" ∷ "toolchain_identifier" ∷ [])
    || not (is_string (get artifact "target_id") expected.target_id)
    || not (is_string (get artifact "platform") expected.platform)
    || not (is_string (get artifact "environment") expected.environment)
    || not (is_string (get artifact "architecture") expected.architecture)
    || not (is_string (get artifact "relative_path") expected.relative_path)
    || not (is_string (get artifact "artifact_filename") expected.artifact_filename)
    || not (is_digest 64 (text (get artifact "sha256")))
    || not (is_text_of (λ cs. not (is_empty cs)) (get artifact "toolchain_identifier"))

-- The map from target ids to identities that the loop fills. The lists have the same length.
unfoldable pub collect_identities : List Json → List Expected → Outcome (List (String × String))
collect_identities [] expected = returned []
collect_identities (artifact ∷ artifacts) [] = thrown (error "expected is undefined")
collect_identities (artifact ∷ artifacts) (e ∷ expected) =
    throw_if (artifact_differs artifact e) invalid_manifest (
      collect_identities artifacts expected >>= λ rest.
      returned ((e.target_id, e.artifact_identity) ∷ rest))

abbrev pub items_of : Json → List Json
items_of (array artifacts) = items artifacts
items_of _ = []

unfoldable pub manifest_artifact_identities : Json → Outcome (List (String × String))
manifest_artifact_identities manifest =
    throw_if (manifest_differs manifest) invalid_manifest
      (collect_identities (items_of (get manifest "artifacts")) expected_artifacts)
