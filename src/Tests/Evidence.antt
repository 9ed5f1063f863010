-- ===== src/Tests/Evidence.antt =====
-- Runs of scripts/npm-provenance.mjs: the evidence of the provenance.
use symbol_nem_wallet_core.Prelude.{refl, String, decimal}
use symbol_nem_wallet_core.Js.Json.{
  Json, string, number, array, object, nil, cons, field, end, get, text, exact_keys, keys,
}
use symbol_nem_wallet_core.Js.Outcome.{returned, traverse}
use symbol_nem_wallet_core.Npm.Repository.{
  same_json, require_values, validate_npm_repository_metadata,
}
use symbol_nem_wallet_core.Provenance.{
  is_foreign, safe_https_url, package_purl, registry_version_url,
}
use symbol_nem_wallet_core.Provenance.Statements.{
  provenance_identities, provenance_identity, check_statement, statement_identity, decode_statement,
  decode_payload, workflow_differs, validate_audit_signatures,
}
use symbol_nem_wallet_core.Provenance.Evidence.{
  Tools, Release, check_header, check_registry, check_artifacts, check_urls, check_metadata,
  with_digest, identity_items, check_summary, check_provenance, validate_npm_provenance_evidence,
}
use symbol_nem_wallet_core.Provenance.Evidence.Verified.{
  IsEvidence, validate_npm_provenance_evidence-IsEvidence,
}
use symbol_nem_wallet_core.Tests.Provenance.{
  statement_of, parser, expected, attestations, identities,
}

abbrev pub sha512 : String
sha512 =
    "0123456789abcdef0123456789abcdef0123456789abcdef0123456789abcdef0123456789abcdef0123456789abcdef0123456789abcdef0123456789abcdef"

abbrev pub sha256 : String
sha256 = "0123456789abcdef0123456789abcdef0123456789abcdef0123456789abcdef"

abbrev pub tools : Tools
tools = record {
  decoder = record {
    decode = λ payload. payload;
    encode = λ payload. payload;
    parse = λ payload. returned (statement_of sha512);
  };
  parse_url = parser;
  base64 = λ hex. "AA==";
}

abbrev release : Release
release = record {
  expected = expected;
  environment = "release";
  tarball_sha256 = string sha256;
  tarball_size = number "100";
  tarball_sha512 = string sha512;
}

abbrev tarball_url : Json
tarball_url = string "https://registry.npmjs.org/x.tgz"

abbrev registry : Json
registry = object (
    field "package_name" (string "@nemnesia/symbol-nem-wallet-core") (
      field "package_version" (string "0.2.0") (
        field "tarball_sha256" (string sha256) (
          field "tarball_size" (number "100") (
            field "tarball_sha512" (string sha512) (
              field "dist_integrity" (string "sha512-AA==") (
                field "metadata_url"
                  (string "https://registry.npmjs.org/%40nemnesia%2Fsymbol-nem-wallet-core/0.2.0")
                  (field "tarball_url" tarball_url
                    (field "attestations_url" (string "https://registry.npmjs.org/a") end)))))))))

abbrev canonical : Json
canonical = object (
    field "source" (string "registry") (
      field "sha256" (string sha256) (
        field "sha512" (string sha512) (
          field "size" (number "100")
            (field "integrity" (string "sha512-AA==") (field "tarball_url" tarball_url end))))))

abbrev metadata : Json
metadata = object (
    field "name" (string "@nemnesia/symbol-nem-wallet-core") (
      field "version" (string "0.2.0") (
        field "repository"
          (object (
            field "type" (string "git") (
              field "url" (string "git+https://github.com/nemnesia/symbol-nem-wallet-core.git")
                (field "directory" (string "packages/wallet-core") end))))
          (field "dist"
            (object (
              field "tarball" tarball_url (
                field "integrity" (string "sha512-AA==") (
                  field "attestations"
                    (object (field "url" (string "https://registry.npmjs.org/a") end)) end))))
            end))))

abbrev audit : Json
audit = object (
    field "invalid" (array nil) (
      field "missing" (array nil) (
        field "verified"
          (array (
            cons
              (object (
                field "name" (string "@nemnesia/symbol-nem-wallet-core") (
                  field "version" (string "0.2.0") (
                    field "attestationBundles"
                      (array (
                        cons
                          (object
                            (field "predicateType" (string "https://slsa.dev/provenance/v1") end))
                          nil))
                      end))))
              nil))
          end)))

abbrev pub evidence : Json
evidence = object (
    field "schema_version" (number "1") (
      field "artifact_kind" (string "npm-provenance") (
        field "package_name" (string "@nemnesia/symbol-nem-wallet-core") (
          field "package_version" (string "0.2.0") (
            field "release_tag" (string "v0.2.0") (
              field "source_commit" (string "0123456789abcdef0123456789abcdef01234567") (
                field "environment" (string "release") (
                  field "registry" registry (
                    field "canonical_artifact" canonical (
                      field "publication_mode" (string "fresh-publish") (
                        field "registry_metadata" metadata (
                          field "registry_attestations"
                            (object (field "attestations" attestations end))
                            (field "provenance"
                              (object (
                                field "identities"
                                  (array (identity_items (with_digest expected sha512) identities))
                                  end))
                              (field "verification"
                                (object (
                                  field "status" (string "PASS") (
                                    field "command"
                                      (string "npm audit signatures --json --include-attestations")
                                      end)))
                                (field "audit_signatures" audit end)))))))))))))))

validate_npm_provenance_evidence-IsEvidence_example : IsEvidence tools evidence release
unfolding validate_npm_provenance_evidence check_header check_registry check_artifacts check_urls
    check_metadata check_provenance check_summary validate_audit_signatures provenance_identities
    traverse provenance_identity decode_statement decode_payload check_statement statement_identity
    workflow_differs package_purl registry_version_url safe_https_url is_foreign
    validate_npm_repository_metadata require_values same_json decimal get text exact_keys keys
validate_npm_provenance_evidence-IsEvidence_example =
    validate_npm_provenance_evidence-IsEvidence tools evidence release refl
