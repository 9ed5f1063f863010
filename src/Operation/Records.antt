-- ===== src/Operation/Records.antt =====
-- scripts/release-operation.mjs: validateReleaseManifestIdentity, validateSourceEvidence,
-- requiredFile, validateNativeEvidence and validateWasmEvidence. The release directory is a
-- parameter.
pub mod Native
use symbol_nem_wallet_core.Prelude.{
  ℕ, suc, String, Bool, true, false, not, ◌&&◌, ◌||◌, List, [], ◌∷◌, codes, length, ◌==◌,
}
use Prim.Native.String
use symbol_nem_wallet_core.Js.Json.{
  Json, undefined, string, array, Items, nil, cons, is_plain_object, get, is_string, is_number,
  is_same, throw_if, error, text,
}
use symbol_nem_wallet_core.Js.Outcome.{Outcome, returned, thrown, ◌>>=◌, ◌>>◌}
use symbol_nem_wallet_core.Release.Versions.{npm_package_name}
use symbol_nem_wallet_core.Release.Identity.{is_text}
use symbol_nem_wallet_core.Operation.{
  gate, labelled, is_text_value, valid_commit, valid_hash, valid_formal_version, validate_tag,
}
use symbol_nem_wallet_core.Operation.Digests.{safe_relative_path}
use symbol_nem_wallet_core.Operation.Spdx.{element_list, is_array}

-- REQUIRED_NATIVE_TARGETS and REQUIRED_REACT_NATIVE_TARGETS
abbrev pub required_native_targets : List String
required_native_targets = "win32-x64-msvc" ∷ "darwin-x64" ∷ "darwin-arm64" ∷ "linux-x64-gnu" ∷ []

abbrev pub required_react_native_targets : List String
required_react_native_targets =
    "android-arm64-v8a" ∷ "android-x86_64" ∷ "ios-arm64" ∷ "ios-simulator-arm64" ∷ []

abbrev pub are_strings : List Json → List String → Bool
are_strings [] [] = true
are_strings [] (s ∷ ss) = false
are_strings (v ∷ vs) [] = false
are_strings (v ∷ vs) (s ∷ ss) = is_string v s && are_strings vs ss

-- JSON.stringify(value) === JSON.stringify(strings)
abbrev pub is_string_array : Json → List String → Bool
is_string_array v ss = is_array v && are_strings (element_list v) ss

unfoldable pub source_differs : Json → Json → Bool
source_differs source manifest =
    not (is_plain_object source)
    || not (is_string (get source "package_name") npm_package_name)
    || not (is_same (get source "package_version") (get manifest "package_version"))
    || not (is_same (get source "source_commit") (get manifest "source_commit"))
    || not (is_same (get source "cargo_lock_sha256") (get manifest "cargo_lock_sha256"))
    || not (is_text_value (get source "pnpm_lock_sha256"))
    || not (is_same (get source "pnpm_lock_sha256") (get manifest "pnpm_lock_sha256"))

unfoldable pub validate_source_evidence : Json → Json → Outcome (Unit {0})
validate_source_evidence source manifest =
    throw_if (source_differs source manifest)
      (gate "source evidence identity differs from the release manifest")
      (valid_commit (get source "source_commit") "source evidence commit"
        >> (valid_hash (get source "cargo_lock_sha256") "source evidence Cargo.lock digest"
            >> (valid_hash (get source "pnpm_lock_sha256") "source evidence pnpm-lock.yaml digest"
                >> throw_if
                    (not (
                      is_string_array (get source "required_react_native_targets")
                        required_react_native_targets))
                    (gate "source React Native target evidence is invalid") (returned tt))))

unfoldable pub artifact_differs : Json → Json → String → Json → Bool
artifact_differs manifest source_commit target artifact =
    not (is_plain_object artifact)
    || not (is_string (get artifact "target_id") target)
    || not (is_same (get artifact "source_commit") source_commit)
    || not (is_same (get artifact "package_version") (get manifest "package_version"))
    || not (is_string (get artifact "artifact_filename") (String.◌++◌ target ".node"))
    || not (is_text_value (get artifact "artifact_filename"))
    || not (is_text_value (get artifact "relative_path"))

unfoldable pub check_artifact : Json → Json → String → Json → Outcome (Unit {0})
check_artifact manifest source_commit target artifact =
    throw_if (artifact_differs manifest source_commit target artifact)
      (gate (String.◌++◌ "release manifest native artifact identity is invalid: " target))
      (safe_relative_path (get artifact "relative_path")
          (String.◌++◌ "native artifact path " target)
        >> valid_hash (get artifact "sha256") (String.◌++◌ "native artifact hash " target))

abbrev pub head_of : List Json → Json
head_of [] = undefined
head_of (v ∷ vs) = v

abbrev pub tail_of : List Json → List Json
tail_of [] = []
tail_of (v ∷ vs) = vs

-- The loop over the targets, with the artifacts from the index of the target on.
unfoldable pub check_artifacts : Json → Json → List String → List Json → Outcome (Unit {0})
check_artifacts manifest source_commit [] artifacts = returned tt
check_artifacts manifest source_commit (target ∷ targets) artifacts =
    check_artifact manifest source_commit target (head_of artifacts)
    >> check_artifacts manifest source_commit targets (tail_of artifacts)

unfoldable pub manifest_differs : Json → Json → Bool
manifest_differs manifest source_commit =
    not (is_plain_object manifest)
    || not (is_number (get manifest "schema_version") "1")
    || not (is_string (get manifest "mode") "release")
    || not (is_string (get manifest "package_name") npm_package_name)
    || not (is_same (get manifest "source_commit") source_commit)
    || not (is_string (get manifest "digest_file") "SHA256SUMS")

abbrev pub check_versions : Json → Json → Outcome (Unit {0})
check_versions manifest tag =
    valid_formal_version (get manifest "package_version") "release manifest version"
    >> (validate_tag (get manifest "release_tag") (get manifest "package_version")
        >> throw_if (not (is_same (get manifest "release_tag") tag))
            (gate "release manifest tag differs from release event")
            (valid_commit (get manifest "source_commit") "release manifest source commit"
              >> (valid_hash (get manifest "cargo_lock_sha256") "release manifest Cargo.lock digest"
                  >> valid_hash (get manifest "pnpm_lock_sha256")
                      "release manifest pnpm-lock.yaml digest")))

unfoldable pub wasm_differs : Json → Json → Bool
wasm_differs manifest source_commit =
    let artifact = get (get manifest "wasm") "canonical_artifact" in
    not (is_same (get artifact "source_commit") source_commit)
    || not (is_same (get artifact "package_version") (get manifest "package_version"))

unfoldable pub check_wasm : Json → Json → Outcome (Unit {0})
check_wasm manifest source_commit =
    let wasm = get manifest "wasm" in
    throw_if (not (is_plain_object wasm) || not (is_plain_object (get wasm "canonical_artifact")))
      (gate "release manifest WASM identity is invalid")
      (throw_if (wasm_differs manifest source_commit)
        (gate "release manifest canonical WASM identity differs")
        (valid_hash (get (get wasm "canonical_artifact") "sha256") "canonical WASM hash"))

unfoldable pub tarball_differs : Json → Json → Bool
tarball_differs tarball version =
    not (is_plain_object tarball)
    || not (is_string (get tarball "package_name") npm_package_name)
    || not (is_same (get tarball "package_version") version)
    || not (is_text_value (get tarball "filename"))

unfoldable pub check_tarball : Json → Outcome (Unit {0})
check_tarball manifest =
    let tarball = get manifest "npm_tarball" in
    throw_if (tarball_differs tarball (get manifest "package_version"))
      (gate "release manifest npm tarball identity is invalid")
      (safe_relative_path (get tarball "filename") "npm tarball filename"
        >> valid_hash (get tarball "sha256") "npm tarball hash")

unfoldable pub validate_release_manifest_identity : Json → Json → Json → Outcome Json
validate_release_manifest_identity manifest tag source_commit =
    let artifacts = get manifest "native_artifacts" in
    throw_if (manifest_differs manifest source_commit) (gate "release manifest identity is invalid")
      (check_versions manifest tag
        >> throw_if
            (not (is_array artifacts)
              || not (length (element_list artifacts) == length required_native_targets))
            (gate "release manifest native artifact set is incomplete")
            (check_artifacts manifest source_commit required_native_targets (element_list artifacts)
              >> (check_wasm manifest source_commit
                  >> (check_tarball manifest >> returned manifest))))

-- The release directory: which files exist, what JSON.parse makes of them, and their SHA-256 digest
-- and size. Reading can fail.
pub record Directory : Type 0 where
  pub exists : String → Bool
  pub json : String → String → Outcome Json
  pub sha256_file : String → String → Outcome String
  pub file_size : String → String → Outcome String

abbrev pub existing : Directory → Json → String → Outcome String
existing directory (string path) label =
    throw_if (not (directory.exists path)) (labelled label " is missing") (returned path)
existing directory _ label = thrown (error (labelled label " is missing"))

unfoldable pub required_file : Directory → Json → String → Outcome String
required_file directory path label = safe_relative_path path label >> existing directory path label

-- manifest.native_artifacts.find
abbrev pub find_target : String → List Json → Json
find_target target [] = undefined
find_target target (v ∷ vs) =
    let rest = find_target target vs in
    elim (is_string (get v "target_id") target) [ true ↦ v | false ↦ rest ]

unfoldable pub evidence_differs : Json → Json → String → Json → Json → Bool
evidence_differs manifest source_commit target artifact evidence =
    not (is_string (get evidence "target_id") target)
    || not (is_same (get evidence "source_commit") source_commit)
    || not (is_same (get evidence "package_version") (get manifest "package_version"))
    || not (is_same (get evidence "artifact_filename") (get artifact "artifact_filename"))
    || not (is_same (get evidence "artifact_sha256") (get artifact "sha256"))

abbrev pub mismatch : String → String
mismatch target = gate (String.◌++◌ "native release evidence identity mismatch: " target)

-- The digest and the size of the file are taken only where all before them agrees.
abbrev pub check_file : Directory → String → String → Json → Outcome (Unit {0})
check_file directory target path evidence =
    let label = String.◌++◌ "native artifact " target in
    directory.sha256_file path label >>= λ digest.
    throw_if (not (is_string (get evidence "artifact_sha256") digest)) (mismatch target) (
      directory.file_size path label >>= λ size.
      throw_if (not (is_number (get evidence "artifact_size") size)) (mismatch target)
        (returned tt))

unfoldable pub check_evidence : Directory → Json → Json → String → Outcome (Unit {0})
check_evidence directory manifest source_commit target =
    let artifact = find_target target (element_list (get manifest "native_artifacts")) in
    let label = String.◌++◌ "native evidence " target in
    throw_if (not (is_plain_object artifact))
      (gate (String.◌++◌ "release manifest native artifact is missing: " target))
      (required_file directory (string (String.◌++◌ target ".json")) label >>= λ evidence_path.
        directory.json evidence_path label >>= λ evidence.
        required_file directory (get artifact "artifact_filename")
          (String.◌++◌ "native artifact " target)
        >>= λ path.
            throw_if (evidence_differs manifest source_commit target artifact evidence)
              (mismatch target) (check_file directory target path evidence))

unfoldable pub check_all_evidence : Directory → Json → Json → List String → Outcome (Unit {0})
check_all_evidence directory manifest source_commit [] = returned tt
check_all_evidence directory manifest source_commit (target ∷ targets) =
    check_evidence directory manifest source_commit target
    >> check_all_evidence directory manifest source_commit targets

unfoldable pub validate_native_evidence : Directory → Json → Json → Outcome (Unit {0})
validate_native_evidence directory manifest source_commit =
    check_all_evidence directory manifest source_commit required_native_targets

unfoldable pub wasm_evidence_differs : Json → Json → Json → Bool
wasm_evidence_differs manifest source_commit evidence =
    let source = get (get manifest "wasm") "source_artifact" in
    not (is_plain_object source)
    || not (is_same (get evidence "source_commit") source_commit)
    || not (is_same (get evidence "package_version") (get manifest "package_version"))
    || not (is_same (get evidence "artifact_filename") (get source "artifact_filename"))
    || not (is_same (get evidence "artifact_sha256") (get source "sha256"))
    || not (is_same (get evidence "artifact_size") (get source "size"))

unfoldable pub validate_wasm_evidence : Directory → Json → Json → Outcome (Unit {0})
validate_wasm_evidence directory manifest source_commit =
    required_file directory (string "wasm-evidence.json") "WASM evidence" >>= λ path.
    directory.json path "WASM evidence" >>= λ evidence.
    throw_if (wasm_evidence_differs manifest source_commit evidence)
      (gate "WASM release evidence identity mismatch") (returned tt)
