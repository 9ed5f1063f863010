-- ===== src/RnPackage/Manifest.antt =====
-- packages/wallet-core/src/react-native-manifest.mjs: validateReactNativeManifest.
pub mod Complete
use symbol_nem_wallet_core.Prelude.{
  ℕ, String, Bool, true, false, not, ◌&&◌, ◌||◌, Option, none, some, List, [], ◌∷◌, codes, length,
  contains, leb, ◌==◌, includes,
}
use symbol_nem_wallet_core.Js.Json.{
  Json, string, is_plain_object, get, is_string, is_number, is_same, text, exact_keys, throw_if,
  error,
}
use symbol_nem_wallet_core.Js.Outcome.{Outcome, returned, thrown, ◌>>=◌}
use symbol_nem_wallet_core.Manifest.Versions.{is_empty, is_digest, is_version}
use symbol_nem_wallet_core.Operation.Spdx.{element_list, is_array}
use symbol_nem_wallet_core.ReactNative.Identities.{Expected}
use symbol_nem_wallet_core.RnPackage.{react_native_targets, find_target}

-- manifestError
abbrev pub invalid_manifest : String
invalid_manifest = "invalid React Native artifact manifest"

-- nonEmptyString
abbrev pub non_empty_string : Json → Bool
non_empty_string (string s) = not (is_empty (codes s))
non_empty_string _ = false

-- validPackageVersion
abbrev pub valid_package_version : Json → Bool
valid_package_version (string s) = is_version (codes s)
valid_package_version _ = false

abbrev pub manifest_keys : List String
manifest_keys =
    "schema_version" ∷ "package_name" ∷ "package_version" ∷ "source_commit" ∷ "artifacts" ∷ []

abbrev pub artifact_keys : List String
artifact_keys =
    "target_id" ∷ "platform" ∷ "environment" ∷ "architecture" ∷ "relative_path"
    ∷ "artifact_filename" ∷ "sha256" ∷ "toolchain_identifier" ∷ []

unfoldable pub header_differs : Json → Json → Bool
header_differs manifest package_meta =
    not (exact_keys manifest manifest_keys)
    || not (is_number (get manifest "schema_version") "1")
    || not (is_string (get manifest "package_name") "@nemnesia/symbol-nem-wallet-core")
    || not (is_same (get manifest "package_name") (get package_meta "name"))
    || not (is_same (get manifest "package_version") (get package_meta "version"))
    || not (valid_package_version (get manifest "package_version"))
    || not (is_digest 40 (text (get manifest "source_commit")))
    || not (is_array (get manifest "artifacts"))

unfoldable pub differs_from : Json → Expected → Bool
differs_from artifact target =
    not (is_string (get artifact "platform") target.platform)
    || not (is_string (get artifact "environment") target.environment)
    || not (is_string (get artifact "architecture") target.architecture)
    || not (is_string (get artifact "relative_path") target.relative_path)
    || not (is_string (get artifact "artifact_filename") target.artifact_filename)
    || not (is_digest 64 (text (get artifact "sha256")))
    || not (non_empty_string (get artifact "toolchain_identifier"))
    || includes (codes "\\") (text (get artifact "relative_path"))
    || includes (codes "..") (text (get artifact "relative_path"))
    || includes (codes "/") (text (get artifact "artifact_filename"))

-- The body of the loop once the target is known, to the new previousIndex, counted from one.
unfoldable pub check_target : ℕ → Json → Option (ℕ × Expected) → Outcome ℕ
check_target previous artifact none = thrown (error invalid_manifest)
check_target previous artifact (some (index, target)) =
    throw_if (not (exact_keys artifact artifact_keys)) invalid_manifest (
      throw_if (leb index previous) invalid_manifest
        (throw_if (differs_from artifact target) invalid_manifest (returned index)))

abbrev pub check_named : List String → ℕ → Json → Json → Outcome (String × ℕ)
check_named seen previous artifact (string id) =
    throw_if (is_empty (codes id) || contains seen id) invalid_manifest
      (check_target previous artifact (find_target id) >>= λ index. returned (id, index))
check_named seen previous artifact _ = thrown (error invalid_manifest)

-- The body of the loop: to the id, and the new previousIndex, counted from one.
unfoldable pub check_artifact : List String → ℕ → Json → Outcome (String × ℕ)
check_artifact seen previous artifact =
    throw_if (not (is_plain_object artifact)) invalid_manifest
      (check_named seen previous artifact (get artifact "target_id"))

-- The loop, to the ids that are seen, of which none is there twice.
unfoldable pub check_artifacts : List String → ℕ → List Json → Outcome (List String)
check_artifacts seen previous [] = returned seen
check_artifacts seen previous (artifact ∷ artifacts) =
    check_artifact seen previous artifact >>= λ next.
    check_artifacts (next.0 ∷ seen) next.1 artifacts

unfoldable pub validate_react_native_manifest : Json → Json → Bool → Outcome Json
validate_react_native_manifest manifest package_meta require_complete =
    throw_if (not (is_plain_object manifest) || not (is_plain_object package_meta)) invalid_manifest
      (throw_if (header_differs manifest package_meta) invalid_manifest (
        check_artifacts [] 0 (element_list (get manifest "artifacts")) >>= λ seen.
        throw_if (require_complete && not (length seen == length react_native_targets))
          invalid_manifest (returned manifest)))
