-- ===== src/Tests/Finalize.antt =====
-- Runs of scripts/release-operation.mjs: the final operation.
use symbol_nem_wallet_core.Prelude.{refl, String, some, decimal}
use symbol_nem_wallet_core.Js.Json.{
  Json, string, number, object, field, end, get, text, exact_keys, keys,
}
use symbol_nem_wallet_core.Js.Outcome.{returned, traverse}
use symbol_nem_wallet_core.Manifest.Versions.{span_digits}
use symbol_nem_wallet_core.Release.SemVer.{
  split, cut, parse_semver, is_valid_semver, is_valid_commit,
}
use symbol_nem_wallet_core.Npm.Repository.{
  same_json, require_values, validate_npm_repository_metadata,
}
use symbol_nem_wallet_core.Provenance.{
  is_foreign, safe_https_url, package_purl, registry_version_url,
}
use symbol_nem_wallet_core.Provenance.Statements.{
  provenance_identities, provenance_identity, check_statement, statement_identity, decode_statement,
  decode_payload, workflow_differs, validate_audit_signatures,
}
use symbol_nem_wallet_core.Provenance.Evidence.{
  check_header, check_registry, check_artifacts, check_urls, check_metadata, check_summary,
  check_provenance, validate_npm_provenance_evidence,
}
use symbol_nem_wallet_core.Operation.{valid_commit}
use symbol_nem_wallet_core.Operation.Finalize.{
  Finalization, operation_differs, check_identity, check_run, final_operation, finalize_published,
  finalize_release_operation,
}
use symbol_nem_wallet_core.Operation.Finalize.Published.{
  IsPublished, finalize_release_operation-IsPublished,
}
use symbol_nem_wallet_core.Tests.Evidence.{sha256, tools, evidence}

abbrev commit : String
commit = "0123456789abcdef0123456789abcdef01234567"

abbrev manifest : Json
manifest = object (
    field "package_version" (string "0.2.0") (
      field "npm_tarball"
        (object (field "sha256" (string sha256) (field "size" (number "100") end))) end))

abbrev operation : Json
operation = object (
    field "package_name" (string "@nemnesia/symbol-nem-wallet-core") (
      field "package_version" (string "0.2.0") (
        field "release_tag" (string "v0.2.0") (
          field "source_commit" (string commit) (
            field "npm_tarball" (object (field "sha256" (string sha256) end)) (
              field "provenance" (object (field "status" (string "required-at-publish") end))
                end))))))

abbrev finalization : Finalization
finalization = record {
  pre_operation = returned operation;
  provenance = returned evidence;
  provenance_sha256 = returned sha256;
  manifest = returned manifest;
  tag = "v0.2.0";
  source_commit = commit;
  environment = "release";
  publication_mode = "published";
  workflow_ref = "nemnesia/symbol-nem-wallet-core/.github/workflows/release.yml@refs/tags/v0.2.0";
  repository = "nemnesia/symbol-nem-wallet-core";
  run_id = "17";
  run_attempt = some 2;
}

finalize_release_operation-IsPublished_example :
    IsPublished tools finalization (final_operation finalization operation evidence sha256)
unfolding finalize_release_operation finalize_published check_identity check_run operation_differs
    valid_commit is_valid_commit is_valid_semver parse_semver span_digits
    validate_npm_provenance_evidence check_header check_registry check_artifacts check_urls
    check_metadata check_provenance check_summary validate_audit_signatures provenance_identities
    traverse provenance_identity decode_statement decode_payload check_statement statement_identity
    workflow_differs package_purl registry_version_url safe_https_url is_foreign
    validate_npm_repository_metadata require_values same_json decimal get text exact_keys keys split
    cut
finalize_release_operation-IsPublished_example =
    finalize_release_operation-IsPublished tools finalization
      (final_operation finalization operation evidence sha256) refl
