-- ===== src/Tests/Manifest.antt =====
-- Runs of packages/wallet-core/src/manifest.mjs.
use symbol_nem_wallet_core.Prelude.{◌≡◌, refl, ◌↔◌, some, none, String}
use symbol_nem_wallet_core.Js.Json.{
  Json, string, number, array, object, Items, nil, cons, end, field, get, keys, exact_keys, text,
  error,
}
use symbol_nem_wallet_core.Js.Outcome.{thrown}
use symbol_nem_wallet_core.Manifest.Versions.{span_digits, is_version, supports_linux_glibc}
use symbol_nem_wallet_core.Manifest.Targets.{
  Target, native_target, canonical_index, target_for_runtime,
}
use symbol_nem_wallet_core.Manifest.Targets.Platform.{Suits, target_for_runtime_iff}
use symbol_nem_wallet_core.Manifest.Artifacts.{
  invalid_manifest, non_empty_string, platform_differs, file_differs, validate_for,
  validate_artifact, validate_artifacts, header_differs, validate_native_manifest,
}
use symbol_nem_wallet_core.Manifest.Artifacts.Accepted.{
  IsManifest, validate_native_manifest-IsManifest,
}

abbrev pub digest : String
digest = "0123456789abcdef0123456789abcdef0123456789abcdef0123456789abcdef"

abbrev pub artifact : Json
artifact = object (
    field "target_id" (string "darwin-arm64") (
      field "os" (string "macos") (
        field "cpu" (string "arm64") (
          field "abi" (string "darwin") (
            field "rust_target" (string "aarch64-apple-darwin") (
              field "relative_path" (string "dist/native/darwin-arm64/core.node") (
                field "artifact_filename" (string "core.node") (
                  field "sha256" (string digest)
                    (field "toolchain_identifier" (string "rustc") end)))))))))

abbrev pub artifacts : Items
artifacts = cons artifact nil

abbrev pub manifest : Items → Json
manifest list = object (
    field "schema_version" (number "1") (
      field "package_name" (string "@nemnesia/symbol-nem-wallet-core") (
        field "package_version" (string "1.0.0-rc.1+build") (
          field "source_commit" (string "0123456789abcdef0123456789abcdef01234567")
            (field "node_api_version" (number "8") (field "artifacts" (array list) end))))))

abbrev pub package_meta : Json
package_meta = object (
    field "name" (string "@nemnesia/symbol-nem-wallet-core")
      (field "version" (string "1.0.0-rc.1+build") end))

validate_native_manifest-IsManifest_example :
    (manifest artifacts ≡ manifest artifacts) × IsManifest (manifest artifacts) package_meta
unfolding validate_native_manifest header_differs validate_artifacts validate_artifact validate_for
    file_differs platform_differs non_empty_string native_target canonical_index is_version
    span_digits text exact_keys keys get
validate_native_manifest-IsManifest_example =
    validate_native_manifest-IsManifest (manifest artifacts) package_meta (manifest artifacts) refl

-- The same artifact twice is refused.
twice_run :
    validate_native_manifest (manifest (cons artifact artifacts)) package_meta
    ≡ thrown (error invalid_manifest)
unfolding validate_native_manifest header_differs validate_artifacts validate_artifact validate_for
    file_differs platform_differs non_empty_string native_target canonical_index is_version
    span_digits text exact_keys keys get
twice_run = refl

old_glibc_run : target_for_runtime "linux" "x64" (string "2.27") ≡ none
unfolding target_for_runtime supports_linux_glibc span_digits
old_glibc_run = refl

target_for_runtime_iff_example :
    (target_for_runtime "linux" "x64" (string "2.31") ≡ some "linux-x64-gnu") ↔ (
      (t : Target) × (native_target "linux-x64-gnu" ≡ some t)
      × Suits "linux" "x64" (string "2.31") t)
target_for_runtime_iff_example =
    target_for_runtime_iff "linux" "x64" (string "2.31") "linux-x64-gnu"
