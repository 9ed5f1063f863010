-- ===== src/Operation.antt =====
-- scripts/release-operation.mjs: fail, the checks of single values, validateTag,
-- validateVersionSources and validateReleaseOperationIdentity.
pub mod Artifact
pub mod Approved
pub mod Refined
pub mod Digests
pub mod Spdx
pub mod Records
pub mod Finalize
use symbol_nem_wallet_core.Prelude.{
  ℕ, String, Bool, true, false, not, ◌||◌, List, [], ◌∷◌, ◌++◌, codes,
}
use Prim.Native.String
use symbol_nem_wallet_core.Js.Json.{
  Json, boolean, string, object, field, end, is_plain_object, get, is_string, is_same, is_true,
  exact_keys, throw_if, text,
}
use symbol_nem_wallet_core.Js.Outcome.{Outcome, returned, ◌>>◌}
use symbol_nem_wallet_core.Manifest.Versions.{is_digest}
use symbol_nem_wallet_core.Release.SemVer.{parse_semver, is_valid_semver, is_valid_commit}
use symbol_nem_wallet_core.Release.Versions.{has_prerelease}
use symbol_nem_wallet_core.Release.Identity.{is_text}

-- the message of fail
abbrev pub gate : String → String
gate message = String.◌++◌ "Release operation gate failed: " message

-- `${label}…`, as the message of fail
abbrev pub labelled : String → String → String
labelled label message = gate (String.◌++◌ label message)

unfoldable pub valid_commit : Json → String → Outcome (Unit {0})
valid_commit value label =
    throw_if (not (is_valid_commit value)) (labelled label " is invalid") (returned tt)

-- typeof value === "string"
abbrev pub is_text_value : Json → Bool
is_text_value (string s) = true
is_text_value _ = false

abbrev pub is_hash : Json → Bool
is_hash (string s) = is_digest 64 (codes s)
is_hash _ = false

unfoldable pub valid_hash : Json → String → Outcome (Unit {0})
valid_hash value label = throw_if (not (is_hash value)) (labelled label " is invalid") (returned tt)

unfoldable pub valid_formal_version : Json → String → Outcome (Unit {0})
valid_formal_version value label =
    throw_if (not (is_valid_semver value) || has_prerelease (parse_semver value))
      (labelled label " is invalid") (returned tt)

unfoldable pub validate_tag : Json → Json → Outcome (Unit {0})
validate_tag tag version =
    valid_formal_version version "release version"
    >> throw_if (not (is_text tag (b'v' ∷ text version))) (gate "release tag/version mismatch")
        (returned tt)

-- REQUIRED_VERSION_SOURCE_IDS
abbrev pub required_version_source_ids : List String
required_version_source_ids = "core" ∷ "cAbi" ∷ "node" ∷ "wasm" ∷ "npm" ∷ []

unfoldable pub same_version_entries : Json → Json → List String → Outcome (Unit {0})
same_version_entries version_sources version [] = returned tt
same_version_entries version_sources version (id ∷ ids) =
    let entry = get version_sources id in
    throw_if (not (is_plain_object entry) || not (is_same (get entry "version") version))
      (gate (String.◌++◌ "release version mismatch: " id))
      (same_version_entries version_sources version ids)

unfoldable pub validate_version_sources : Json → Json → Outcome (Unit {0})
validate_version_sources version_sources version =
    throw_if (not (is_plain_object version_sources))
      (gate "release version sources are unavailable")
      (throw_if (not (exact_keys version_sources required_version_source_ids))
        (gate "release version sources are incomplete or unexpected")
        (same_version_entries version_sources version required_version_source_ids))

-- What validateReleaseOperationIdentity is given.
pub record Request : Type 0 where
  pub environment : Json
  pub tag : Json
  pub version : Json
  pub manifest_version : Json
  pub version_sources : Json
  pub source_commit : Json
  pub checkout_head : Json
  pub tag_commit : Json
  pub main_ancestry : Json
  pub clean : Json
  pub provenance_required : Json
  pub oidc_required : Json

-- What it returns.
abbrev pub operation_of : Request → Json
operation_of r = object (
    field "environment" (string "release") (
      field "tag" r.tag (
        field "version" r.version (
          field "source_commit" r.source_commit (
            field "provenance_required" (boolean true)
              (field "trusted_publishing" (string "npm-oidc") end))))))

-- The checks behind those of the three commits.
abbrev pub require_state : Request → Outcome Json
require_state r =
    throw_if (not (is_same r.checkout_head r.source_commit))
      (gate "checkout HEAD differs from release source commit")
      (throw_if (not (is_same r.tag_commit r.source_commit))
        (gate "tag target differs from release source commit")
        (throw_if (not (is_true r.main_ancestry))
          (gate "release source commit is not contained in main")
          (throw_if (not (is_true r.clean)) (gate "release source checkout is not clean") (
            throw_if (not (is_true r.provenance_required)) (gate "npm provenance is not required") (
              throw_if (not (is_true r.oidc_required))
                (gate "npm Trusted Publishing / OIDC is not required")
                (returned (operation_of r)))))))

abbrev pub require_commits : Request → Outcome Json
require_commits r =
    valid_commit r.source_commit "release source commit"
    >> (valid_commit r.checkout_head "checkout HEAD"
        >> (valid_commit r.tag_commit "tag target commit" >> require_state r))

unfoldable pub validate_release_operation_identity : Request → Outcome Json
validate_release_operation_identity r =
    throw_if (not (is_string r.environment "release"))
      (gate "release job is not connected to the release Environment")
      (validate_tag r.tag r.version
        >> throw_if (not (is_same r.manifest_version r.version))
            (gate "release manifest version differs from release version")
            (validate_version_sources r.version_sources r.version >> require_commits r))
