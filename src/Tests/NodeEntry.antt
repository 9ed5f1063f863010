-- ===== src/Tests/NodeEntry.antt =====
-- A run of packages/wallet-core/src/node/index.mjs.
use symbol_nem_wallet_core.Prelude.{◌≡◌, refl, none, String, [], ◌∷◌, codes}
use symbol_nem_wallet_core.Js.Json.{undefined, exact_keys, keys, get, text}
use symbol_nem_wallet_core.Js.Outcome.{returned, thrown}
use symbol_nem_wallet_core.Manifest.Versions.{span_digits, is_version}
use symbol_nem_wallet_core.Manifest.Targets.{native_target, canonical_index, target_for_runtime}
use symbol_nem_wallet_core.Manifest.Artifacts.{
  non_empty_string, platform_differs, file_differs, validate_for, validate_artifact,
  validate_artifacts, header_differs, validate_native_manifest,
}
use symbol_nem_wallet_core.ReactNative.Module.{initialization_error}
use symbol_nem_wallet_core.NodeEntry.{
  Runtime, runtime_glibc_version, find_artifact, load_addon, load_native_backend,
}
use symbol_nem_wallet_core.NodeEntry.Trusted.{IsNative, load_native_backend-IsNative}
use symbol_nem_wallet_core.Tests.Manifest.{digest, artifacts, manifest, package_meta}
use symbol_nem_wallet_core.Tests.Samples.{backend}

-- every file has the digest that is given
abbrev runtime : String → String → Runtime
runtime arch actual = record {
  package_json = returned package_meta;
  manifest_json = returned (manifest artifacts);
  platform = "darwin";
  arch = arch;
  report = returned undefined;
  read_file = λ path. returned (7 ∷ []);
  sha256 = λ bytes. codes actual;
  require = λ path. returned backend;
  wasm = returned backend;
}

load_native_backend-IsNative_example : IsNative (runtime "arm64" digest) backend
unfolding load_native_backend load_addon find_artifact runtime_glibc_version target_for_runtime
    validate_native_manifest header_differs validate_artifacts validate_artifact validate_for
    file_differs platform_differs non_empty_string native_target canonical_index is_version
    span_digits text exact_keys keys get
load_native_backend-IsNative_example =
    load_native_backend-IsNative (runtime "arm64" digest) backend refl

-- An addon with another digest is an error, and not replaced by WebAssembly.
other_digest_run : load_native_backend (runtime "arm64" "00") ≡ thrown initialization_error
unfolding load_native_backend load_addon find_artifact runtime_glibc_version target_for_runtime
    validate_native_manifest header_differs validate_artifacts validate_artifact validate_for
    file_differs platform_differs non_empty_string native_target canonical_index is_version
    span_digits text exact_keys keys get
other_digest_run = refl

-- A platform whose artifact is not in the manifest has no native backend.
other_target_run : load_native_backend (runtime "x64" digest) ≡ returned none
unfolding load_native_backend load_addon find_artifact runtime_glibc_version target_for_runtime
    validate_native_manifest header_differs validate_artifacts validate_artifact validate_for
    file_differs platform_differs non_empty_string native_target canonical_index is_version
    span_digits text exact_keys keys get
other_target_run = refl
