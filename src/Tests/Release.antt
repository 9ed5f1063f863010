-- ===== src/Tests/Release.antt =====
-- Runs of scripts/release-identity.mjs.
use symbol_nem_wallet_core.Prelude.{ℕ, ◌≡◌, refl, ◌↔◌, some, none, String, true, false, List, codes}
use symbol_nem_wallet_core.Js.Json.{
  Json, string, boolean, object, end, field, get, keys, exact_keys, text,
}
use symbol_nem_wallet_core.Js.Outcome.{Outcome, returned}
use symbol_nem_wallet_core.Release.SemVer.{
  SemVer, cut, split, parse_semver, is_valid_semver, is_valid_commit,
}
use symbol_nem_wallet_core.Release.SemVer.Parts.{IsSemVer, parse_semver-IsSemVer}
use symbol_nem_wallet_core.Release.Versions.{
  entry_differs, validate_entries, validate_version_sources, release_tag_version, validate_tag,
  npm_package_name,
}
use symbol_nem_wallet_core.Release.Identity.{
  zero_commit, tag_event_differs, validate_tag_event, same_versions, is_main_ref, identity_of,
  ReleaseIdentity, validate_release_identity,
}
use symbol_nem_wallet_core.Release.Identity.Accepted.{
  IsRelease, validate_release_identity-IsRelease,
}
use symbol_nem_wallet_core.Release.Registry.{
  Response, status, not_found, npm_version_url, availability, check_npm_version_availability,
}
use symbol_nem_wallet_core.Release.Registry.Available.{Answered, check_npm_version_availability_iff}

abbrev pub entry : String → String → Json
entry path name = object (
    field "relative_path" (string path)
      (field "package_name" (string name) (field "version" (string "0.2.0") end)))

abbrev pub sources : Json
sources = object (
    field "core" (entry "crates/core/Cargo.toml" "symbol-nem-wallet-core") (
      field "cAbi" (entry "crates/c-abi/Cargo.toml" "symbol-nem-wallet-core-native") (
        field "node" (entry "crates/node/Cargo.toml" "symbol-nem-wallet-core-node") (
          field "wasm" (entry "crates/wasm/Cargo.toml" "symbol-nem-wallet-core-wasm")
            (field "npm" (entry "packages/wallet-core/package.json" npm_package_name) end)))))

abbrev pub commit : Json
commit = string "0123456789abcdef0123456789abcdef01234567"

abbrev pub event : Json
event = object (
    field "ref" (string "refs/tags/v0.2.0") (
      field "created" (boolean true) (
        field "deleted" (boolean false)
          (field "forced" (boolean false) (field "before" (string zero_commit) end)))))

abbrev pub input : Json
input = object (
    field "mode" (string "release") (
      field "tag" (string "v0.2.0") (
        field "tagEvent" event (
          field "tagRefExists" (boolean true) (
            field "checkoutHead" commit (
              field "sourceCommit" commit (
                field "tagCommit" commit (
                  field "mainRef" (string "refs/remotes/origin/main") (
                    field "mainRefCommit" commit (
                      field "mainAncestry" (boolean true) (
                        field "clean" (boolean true) (field "versionSources" sources end))))))))))))

abbrev pub identity : ReleaseIdentity
identity = identity_of input (string "0.2.0") "0.2.0"

validate_release_identity-IsRelease_example : IsRelease input identity
unfolding validate_release_identity validate_version_sources validate_entries entry_differs
    same_versions validate_tag release_tag_version validate_tag_event tag_event_differs is_main_ref
    is_valid_commit is_valid_semver parse_semver split cut exact_keys keys get text
validate_release_identity-IsRelease_example =
    validate_release_identity-IsRelease input identity refl

abbrev parsed : SemVer
parsed = record {
  value = "1.20.3-rc.1+sha-5";
  core = codes "1.20.3";
  prerelease = some (codes "rc.1");
  build = some (codes "sha-5");
}

parse_semver-IsSemVer_example : IsSemVer "1.20.3-rc.1+sha-5" parsed
unfolding parse_semver split cut
parse_semver-IsSemVer_example = parse_semver-IsSemVer "1.20.3-rc.1+sha-5" parsed refl

-- a number with a leading zero, and a prerelease without an identifier
zero_run : parse_semver (string "1.02.3") ≡ none
unfolding parse_semver split cut
zero_run = refl

empty_run : parse_semver (string "1.2.3-") ≡ none
unfolding parse_semver split cut
empty_run = refl

abbrev missing : List ℕ → Outcome Response
missing url = returned (status 404)

check_npm_version_availability_iff_example :
    (check_npm_version_availability (string npm_package_name) (string "0.2.0") (some missing) false
      ≡ returned not_found)
    ↔ Answered (string npm_package_name) (string "0.2.0") missing false not_found
check_npm_version_availability_iff_example =
    check_npm_version_availability_iff (string npm_package_name) (string "0.2.0") missing false
      not_found

free_run :
    check_npm_version_availability (string npm_package_name) (string "0.2.0") (some missing) false
    ≡ returned not_found
unfolding check_npm_version_availability availability is_valid_semver parse_semver split cut
free_run = refl

url_run :
    npm_version_url (string npm_package_name) (string "0.2.0")
    ≡ codes "https://registry.npmjs.org/%40nemnesia%2Fsymbol-nem-wallet-core/0.2.0"
unfolding npm_version_url text
url_run = refl
