-- ===== src/Manifest/Artifacts.antt =====
-- manifest.mjs: validateNativeManifest.
pub mod Accepted
pub mod Bounds
use symbol_nem_wallet_core.Prelude.{
  ℕ, String, Bool, false, not, ◌||◌, Option, none, some, List, [], ◌∷◌, ◌++◌, codes, contains, leb,
  same_codes, includes, ends_with,
}
use symbol_nem_wallet_core.Js.Json.{
  Json, string, array, items, is_plain_object, get, has_own, is_string, is_number, is_same, text,
  exact_keys, throw_if, error,
}
use symbol_nem_wallet_core.Js.Outcome.{Outcome, returned, thrown, ◌>>=◌}
use symbol_nem_wallet_core.Manifest.Versions.{is_empty, is_digest, is_version}
use symbol_nem_wallet_core.Manifest.Targets.{Target, native_target, canonical_index}

abbrev pub invalid_manifest : String
invalid_manifest = "invalid native artifact manifest"

unfoldable pub non_empty_string : Json → Bool
non_empty_string (string s) = not (is_empty (codes s))
non_empty_string _ = false

abbrev manifest_keys : List String
manifest_keys =
    "schema_version" ∷ "package_name" ∷ "package_version" ∷ "source_commit" ∷ "node_api_version"
    ∷ "artifacts" ∷ []

abbrev pub libc_key : Option String → List String
libc_key none = []
libc_key (some libc) = "libc" ∷ []

abbrev pub artifact_keys : Target → List String
artifact_keys target =
    ("target_id" ∷ "os" ∷ "cpu" ∷ "abi" ∷ "rust_target" ∷ "relative_path" ∷ "artifact_filename"
      ∷ "sha256" ∷ "toolchain_identifier" ∷ [])
    ++ libc_key target.libc

abbrev pub libc_differs : Json → Option String → Bool
libc_differs artifact none = has_own artifact "libc"
libc_differs artifact (some libc) = not (is_string (get artifact "libc") libc)

unfoldable pub platform_differs : Json → Target → Bool
platform_differs artifact target =
    not (is_string (get artifact "os") target.os)
    || not (is_string (get artifact "cpu") target.cpu)
    || not (is_string (get artifact "abi") target.abi)
    || not (is_string (get artifact "rust_target") target.rust_target)
    || libc_differs artifact target.libc

-- `dist/native/${target_id}/${artifact_filename}`
abbrev pub canonical_path : String → Json → List ℕ
canonical_path id artifact =
    codes "dist/native/" ++ (codes id ++ (b'/' ∷ text (get artifact "artifact_filename")))

unfoldable pub file_differs : Json → String → Bool
file_differs artifact id =
    let path = text (get artifact "relative_path") in
    let filename = text (get artifact "artifact_filename") in
    not (non_empty_string (get artifact "relative_path"))
    || includes (codes "\\") path
    || includes (codes "..") path
    || not (same_codes path (canonical_path id artifact))
    || not (non_empty_string (get artifact "artifact_filename"))
    || includes (codes "/") filename
    || not (ends_with (codes ".node") filename)
    || not (is_digest 64 (text (get artifact "sha256")))
    || not (non_empty_string (get artifact "toolchain_identifier"))

-- The body of the loop once the target is known, to the new previousIndex + 1.
unfoldable pub validate_for : ℕ → Json → String → Option Target → Outcome ℕ
validate_for previous artifact id none = thrown (error invalid_manifest)
validate_for previous artifact id (some target) =
    throw_if (not (exact_keys artifact (artifact_keys target))) invalid_manifest (
      throw_if (leb (canonical_index id) previous) invalid_manifest (
        throw_if (platform_differs artifact target) invalid_manifest
          (throw_if (file_differs artifact id) invalid_manifest (returned (canonical_index id)))))

abbrev pub validate_named : List String → ℕ → Json → Json → Outcome (String × ℕ)
validate_named seen previous artifact (string id) =
    throw_if (is_empty (codes id) || contains seen id) invalid_manifest
      (validate_for previous artifact id (native_target id) >>= λ index. returned (id, index))
validate_named seen previous artifact _ = thrown (error invalid_manifest)

-- The body of the loop over the artifacts: to the id, and the new previousIndex + 1.
unfoldable pub validate_artifact : List String → ℕ → Json → Outcome (String × ℕ)
validate_artifact seen previous artifact =
    throw_if (not (is_plain_object artifact)) invalid_manifest
      (validate_named seen previous artifact (get artifact "target_id"))

unfoldable pub validate_artifacts : List String → ℕ → List Json → Outcome (Unit {0})
validate_artifacts seen previous [] = returned tt
validate_artifacts seen previous (artifact ∷ artifacts) =
    validate_artifact seen previous artifact >>= λ next.
    validate_artifacts (next.0 ∷ seen) next.1 artifacts

unfoldable pub header_differs : Json → Json → Bool
header_differs manifest package_meta =
    not (exact_keys manifest manifest_keys)
    || not (is_number (get manifest "schema_version") "1")
    || not (is_string (get manifest "package_name") "@nemnesia/symbol-nem-wallet-core")
    || not (is_same (get manifest "package_name") (get package_meta "name"))
    || not (is_same (get manifest "package_version") (get package_meta "version"))
    || not (is_version (text (get manifest "package_version")))
    || not (is_digest 40 (text (get manifest "source_commit")))
    || not (is_number (get manifest "node_api_version") "8")

abbrev pub validate_list : Json → Json → Outcome Json
validate_list manifest (array artifacts) =
    validate_artifacts [] 0 (items artifacts) >>= λ _. returned manifest
validate_list manifest _ = thrown (error invalid_manifest)

unfoldable pub validate_native_manifest : Json → Json → Outcome Json
validate_native_manifest manifest package_meta =
    throw_if (not (is_plain_object manifest) || not (is_plain_object package_meta)) invalid_manifest
      (throw_if (header_differs manifest package_meta) invalid_manifest
        (validate_list manifest (get manifest "artifacts")))
