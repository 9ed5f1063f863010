-- ===== src/Tests/Operation.antt =====
-- Runs of scripts/release-operation.mjs.
use symbol_nem_wallet_core.Prelude.{
  ◌≡◌, ◌↔◌, refl, String, true, List, [], ◌∷◌, codes, All, ◌===◌, if◌then◌else◌,
}
use Prim.Native.String
use symbol_nem_wallet_core.Js.Json.{
  Json, string, number, boolean, array, object, nil, cons, field, end, get, keys, exact_keys, text,
}
use symbol_nem_wallet_core.Js.Outcome.{returned}
use symbol_nem_wallet_core.Release.SemVer.{
  cut, split, parse_semver, is_valid_semver, is_valid_commit,
}
use symbol_nem_wallet_core.Release.Versions as Versions
use symbol_nem_wallet_core.Release.Versions.{npm_package_name}
use symbol_nem_wallet_core.Recovery.Paths.{is_unsafe_path}
use symbol_nem_wallet_core.Release.Identity.{
  tag_event_differs, validate_tag_event, same_versions, is_main_ref, validate_release_identity,
}
use symbol_nem_wallet_core.Operation.{
  valid_hash, valid_commit, valid_formal_version, validate_tag, same_version_entries,
  validate_version_sources, Request, operation_of, validate_release_operation_identity,
}
use symbol_nem_wallet_core.Operation.Approved.{
  IsApproved, validate_release_operation_identity-IsApproved,
}
use symbol_nem_wallet_core.Operation.Refined.{Accepts, validate_identity_artifact-Accepts}
use symbol_nem_wallet_core.Operation.Digests.{
  DigestEntry, take_hex, match_line, read_lines, path_count, safe_relative_text, safe_relative_path,
  parse_digest_file, compare_entries, assert_digest_entries,
}
use symbol_nem_wallet_core.Operation.Digests.Lines.{digest_text}
use symbol_nem_wallet_core.Operation.Digests.Exact.{IsListed, assert_digest_entries_iff}
use symbol_nem_wallet_core.Operation.Spdx.{
  package_malformed, check_packages, check_root, identity_malformed, document_malformed,
  describes_malformed, validate_spdx_release_identity,
}
use symbol_nem_wallet_core.Operation.Spdx.Root.{
  DescribesRelease, validate_spdx_release_identity-DescribesRelease,
}
use symbol_nem_wallet_core.Operation.Records.{
  required_native_targets, artifact_differs, check_artifact, check_artifacts, manifest_differs,
  wasm_differs, check_wasm, tarball_differs, check_tarball, validate_release_manifest_identity,
  Directory, required_file, evidence_differs, check_evidence, check_all_evidence,
  validate_native_evidence,
}
use symbol_nem_wallet_core.Operation.Records.Native.{IsBacked, validate_native_evidence-IsBacked}
use symbol_nem_wallet_core.Tests.Release.{input, identity, sources, commit}

abbrev request : Request
request = record {
  environment = string "release";
  tag = string "v0.2.0";
  version = string "0.2.0";
  manifest_version = string "0.2.0";
  version_sources = sources;
  source_commit = commit;
  checkout_head = commit;
  tag_commit = commit;
  main_ancestry = boolean true;
  clean = boolean true;
  provenance_required = boolean true;
  oidc_required = boolean true;
}

validate_release_operation_identity-IsApproved_example : IsApproved request (operation_of request)
unfolding validate_release_operation_identity validate_tag valid_formal_version
    validate_version_sources same_version_entries valid_commit is_valid_commit is_valid_semver
    parse_semver split cut exact_keys keys get text
validate_release_operation_identity-IsApproved_example =
    validate_release_operation_identity-IsApproved request (operation_of request) refl

validate_identity_artifact-Accepts_example : Accepts identity "refs/tags/v0.2.0"
unfolding validate_release_identity Versions.validate_version_sources Versions.validate_entries
    Versions.entry_differs same_versions Versions.validate_tag Versions.release_tag_version
    validate_tag_event tag_event_differs is_main_ref is_valid_commit is_valid_semver parse_semver
    split cut exact_keys keys get text
validate_identity_artifact-Accepts_example =
    validate_identity_artifact-Accepts input identity "refs/tags/v0.2.0" refl refl

abbrev digest : String
digest = "00112233445566778899aabbccddeeff00112233445566778899aabbccddeeff"

abbrev entries : List DigestEntry
entries =
    record { hash = codes digest; path = codes "sbom.spdx.json" }
    ∷ record { hash = codes digest; path = codes "lib/license-inventory.json" }
    ∷ []

assert_digest_entries_iff_example :
    (assert_digest_entries (digest_text entries) "SHA256SUMS" entries ≡ returned tt)
    ↔ ((digest_text entries ≡ digest_text entries) × IsListed entries)
assert_digest_entries_iff_example =
    assert_digest_entries_iff (digest_text entries) "SHA256SUMS" entries

digests_run : assert_digest_entries (digest_text entries) "SHA256SUMS" entries ≡ returned tt
unfolding assert_digest_entries parse_digest_file read_lines match_line take_hex path_count
    safe_relative_text is_unsafe_path split compare_entries
digests_run = refl

abbrev spdx_package : String → String → String → Json
spdx_package id name version = object (
    field "SPDXID" (string id)
      (field "name" (string name) (field "versionInfo" (string version) end)))

abbrev sbom : Json
sbom = object (
    field "SPDXID" (string "SPDXRef-DOCUMENT") (
      field "spdxVersion" (string "SPDX-2.3") (
        field "dataLicense" (string "CC0-1.0") (
          field "name" (string "symbol-nem-wallet-core-0.2.0") (
            field "documentNamespace"
              (string
                "https://spdx.org/spdxdocs/symbol-nem-wallet-core-0.2.0-0123456789abcdef0123456789abcdef01234567")
              (field "documentDescribes" (array (cons (string "SPDXRef-npm") nil)) (
                field "packages"
                  (array (
                    cons (spdx_package "SPDXRef-serde" "serde" "1.0.0")
                      (cons (spdx_package "SPDXRef-npm" npm_package_name "0.2.0") nil)))
                  end)))))))

abbrev native_entry : String → Json
native_entry target = object (
    field "target_id" (string target) (
      field "source_commit" commit (
        field "package_version" (string "0.2.0") (
          field "artifact_filename" (string (String.◌++◌ target ".node")) (
            field "relative_path" (string (String.◌++◌ "dist/native/" target))
              (field "sha256" (string digest) end))))))

abbrev release_manifest : Json
release_manifest = object (
    field "schema_version" (number "1") (
      field "mode" (string "release") (
        field "package_name" (string npm_package_name) (
          field "package_version" (string "0.2.0") (
            field "release_tag" (string "v0.2.0") (
              field "source_commit" commit (
                field "digest_file" (string "SHA256SUMS") (
                  field "cargo_lock_sha256" (string digest) (
                    field "pnpm_lock_sha256" (string digest) (
                      field "native_artifacts"
                        (array (
                          cons (native_entry "win32-x64-msvc") (
                            cons (native_entry "darwin-x64") (
                              cons (native_entry "darwin-arm64")
                                (cons (native_entry "linux-x64-gnu") nil)))))
                        (field "wasm"
                          (object (
                            field "canonical_artifact"
                              (object (
                                field "source_commit" commit (
                                  field "package_version" (string "0.2.0")
                                    (field "sha256" (string digest) end))))
                              end))
                          (field "npm_tarball"
                            (object (
                              field "package_name" (string npm_package_name) (
                                field "package_version" (string "0.2.0") (
                                  field "filename" (string "wallet-core-0.2.0.tgz")
                                    (field "sha256" (string digest) end)))))
                            end))))))))))))

validate_spdx_release_identity-DescribesRelease_example : DescribesRelease sbom release_manifest
unfolding validate_spdx_release_identity identity_malformed document_malformed describes_malformed
    check_packages package_malformed check_root valid_formal_version valid_commit is_valid_commit
    is_valid_semver parse_semver split cut get text
validate_spdx_release_identity-DescribesRelease_example =
    validate_spdx_release_identity-DescribesRelease sbom release_manifest (boolean true) refl

abbrev evidence_of : String → Json
evidence_of name = object (
    field "target_id" (string name) (
      field "source_commit" commit (
        field "package_version" (string "0.2.0") (
          field "artifact_filename" (string (String.◌++◌ name ".node"))
            (field "artifact_sha256" (string digest) (field "artifact_size" (number "42") end))))))

abbrev evidence_for : String → Json
evidence_for path =
    if path === "win32-x64-msvc.json"
    then evidence_of "win32-x64-msvc"
    else if path === "darwin-x64.json"
    then evidence_of "darwin-x64"
    else if path === "darwin-arm64.json"
    then evidence_of "darwin-arm64"
    else evidence_of "linux-x64-gnu"

abbrev directory : Directory
directory = record {
  exists = λ path. true;
  json = λ path label. returned (evidence_for path);
  sha256_file = λ path label. returned digest;
  file_size = λ path label. returned "42";
}

validate_native_evidence-IsBacked_example :
    All (IsBacked directory release_manifest commit) required_native_targets
unfolding validate_release_manifest_identity manifest_differs validate_tag valid_formal_version
    valid_commit valid_hash check_artifacts check_artifact artifact_differs check_wasm wasm_differs
    check_tarball tarball_differs validate_native_evidence check_all_evidence check_evidence
    evidence_differs required_file safe_relative_path safe_relative_text is_unsafe_path
    is_valid_commit is_valid_semver parse_semver split cut get text
validate_native_evidence-IsBacked_example =
    validate_native_evidence-IsBacked directory release_manifest (string "v0.2.0") commit
      release_manifest refl refl
