-- ===== src/Provenance/Evidence.antt =====
-- scripts/npm-provenance.mjs: validateNpmProvenanceEvidence. Base64, JSON.parse and the parser of
-- URLs are parameters.
pub mod Verified
use symbol_nem_wallet_core.Prelude.{
  String, Bool, true, false, not, ◌&&◌, ◌||◌, List, [], ◌∷◌, ◌++◌, codes, all, leb, starts_with,
  includes, ◌==◌, if◌then◌else◌,
}
use Prim.Native.Char.{code}
use Prim.Native.String
use symbol_nem_wallet_core.Js.Json.{
  Json, undefined, string, number, array, object, Items, nil, cons, field, end, is_plain_object,
  get, is_string, is_number, is_same, throw_if, error, text,
}
use symbol_nem_wallet_core.Js.Outcome.{Exception, foreign, Outcome, returned, thrown, ◌>>=◌, ◌>>◌}
use symbol_nem_wallet_core.Js.Value
use symbol_nem_wallet_core.Manifest.Versions.{is_digest, is_empty}
use symbol_nem_wallet_core.Npm.Repository.{same_json, validate_npm_repository_metadata}
use symbol_nem_wallet_core.Release.Identity.{is_text}
use symbol_nem_wallet_core.Operation.{is_hash}
use symbol_nem_wallet_core.Operation.Spdx.{is_array}
use symbol_nem_wallet_core.Provenance.{UrlParser, gate, safe_https_url, registry_version_url}
use symbol_nem_wallet_core.Provenance.Statements.{
  Decoder, Expected, ProvenanceIdentity, provenance_identities, validate_audit_signatures,
}

pub record Tools : Type 0 where
  pub decoder : Decoder
  pub parse_url : UrlParser
  -- Buffer.from(text, "hex").toString("base64")
  pub base64 : String → String

-- The expected fields that the attestations do not tell; the digest is undefined where it is not
-- known.
pub record Release : Type 0 where
  pub expected : Expected
  pub environment : String
  pub tarball_sha256 : Json
  pub tarball_size : Json
  pub tarball_sha512 : Json

unfoldable pub check_header : Json → Release → Outcome (Unit {0})
check_header evidence release =
    throw_if
      (not (is_plain_object evidence)
        || not (is_number (get evidence "schema_version") "1")
        || not (is_string (get evidence "artifact_kind") "npm-provenance"))
      (gate "npm provenance evidence schema is invalid")
      (throw_if
        (not (is_string (get evidence "package_name") release.expected.package_name)
          || not (is_string (get evidence "package_version") release.expected.version)
          || not (is_string (get evidence "release_tag") release.expected.tag)
          || not (is_string (get evidence "source_commit") release.expected.source_commit)
          || not (is_string (get evidence "environment") release.environment))
        (gate "npm provenance evidence identity differs from the release") (returned tt))

abbrev pub registry_invalid : String
registry_invalid = gate "npm registry evidence identity is invalid"

abbrev pub registry_differs : Json → Release → Bool
registry_differs registry release =
    not (is_plain_object registry)
    || not (is_string (get registry "package_name") release.expected.package_name)
    || not (is_string (get registry "package_version") release.expected.version)
    || not (is_same (get registry "tarball_sha256") release.tarball_sha256)
    || not (is_same (get registry "tarball_size") release.tarball_size)

abbrev pub is_undefined : Json → Bool
is_undefined undefined = true
is_undefined _ = false

abbrev pub integrity_of : Tools → String → String
integrity_of tools sha512 = String.◌++◌ "sha512-" (tools.base64 sha512)

-- The digest and the integrity, to the digest.
abbrev pub check_digest : Tools → Release → Json → Json → Outcome String
check_digest tools release (string sha512) (string integrity) =
    throw_if (not (is_digest 128 (codes sha512))) registry_invalid (
      throw_if (not (is_string (string integrity) (integrity_of tools sha512)))
        (gate "npm registry integrity does not match the tarball digest")
        (throw_if
          (not (is_undefined release.tarball_sha512)
            && not (is_same (string sha512) release.tarball_sha512))
          (gate "npm registry SHA-512 differs from the downloaded tarball") (returned sha512)))
check_digest tools release _ _ = thrown (error registry_invalid)

unfoldable pub check_registry : Tools → Json → Release → Outcome String
check_registry tools registry release =
    throw_if (registry_differs registry release) registry_invalid
      (check_digest tools release (get registry "tarball_sha512") (get registry "dist_integrity"))

abbrev pub canonical_differs : Json → Json → Bool
canonical_differs canonical registry =
    not (is_plain_object canonical)
    || not (is_string (get canonical "source") "registry")
    || not (is_same (get canonical "sha256") (get registry "tarball_sha256"))
    || not (is_same (get canonical "sha512") (get registry "tarball_sha512"))
    || not (is_same (get canonical "size") (get registry "tarball_size"))
    || not (is_same (get canonical "integrity") (get registry "dist_integrity"))
    || not (is_same (get canonical "tarball_url") (get registry "tarball_url"))

-- Number.isInteger(value) && value >= 0, by the text of the number: one from 10 ^ 21 on is an
-- integer, and its text has an exponent.
abbrev pub is_size : Json → Bool
is_size (number t) =
    not (is_empty (codes t)) && all (λ c. leb b'0' c && leb c b'9') (codes t)
    || includes (codes "e+") (codes t) && not (starts_with (codes "-") (codes t))
is_size _ = false

abbrev pub candidate_fits : Json → Bool
candidate_fits candidate =
    is_plain_object candidate && is_hash (get candidate "sha256") && is_size (get candidate "size")

unfoldable pub check_artifacts : Json → Json → Outcome (Unit {0})
check_artifacts evidence registry =
    throw_if (canonical_differs (get evidence "canonical_artifact") registry)
      (gate "npm canonical published artifact identity is invalid")
      (throw_if
        (not (is_string (get evidence "publication_mode") "fresh-publish")
          && not (is_string (get evidence "publication_mode") "post-publish-recovery"))
        (gate "npm provenance publication mode is invalid")
        (throw_if
          (is_string (get evidence "publication_mode") "post-publish-recovery"
            && not (candidate_fits (get evidence "candidate_artifact")))
          (gate "npm recovery candidate artifact evidence is missing") (returned tt)))

abbrev pub check_url : Tools → Json → String → Outcome (Unit {0})
check_url tools value label =
    safe_https_url tools.parse_url (text value) label >>= λ href. returned tt

unfoldable pub check_urls : Tools → Json → Release → Outcome (Unit {0})
check_urls tools registry release =
    throw_if
      (not (
        is_text (get registry "metadata_url") (
          registry_version_url (codes release.expected.package_name)
            (codes release.expected.version))))
      (gate "npm metadata URL is not the exact package/version registry endpoint")
      (check_url tools (get registry "metadata_url") "npm metadata URL"
        >> (check_url tools (get registry "tarball_url") "npm tarball URL"
            >> check_url tools (get registry "attestations_url") "npm attestations URL"))

abbrev pub metadata_differs : Json → Json → Release → Bool
metadata_differs metadata registry release =
    not (is_plain_object metadata)
    || not (is_string (get metadata "name") release.expected.package_name)
    || not (is_string (get metadata "version") release.expected.version)
    || not (is_plain_object (get metadata "dist"))
    || not (is_same (get (get metadata "dist") "tarball") (get registry "tarball_url"))
    || not (is_same (get (get metadata "dist") "integrity") (get registry "dist_integrity"))
    || not (
        is_same (get (get (get metadata "dist") "attestations") "url")
          (get registry "attestations_url"))

-- error.message, of an Error that `error` makes
abbrev pub message_of : Exception → String
message_of (foreign (Value.object p (Value.field key (Value.plain (Value.string m)) fs))) = m
message_of _ = ""

abbrev pub rethrown : Outcome (Unit {0}) → Outcome (Unit {0})
rethrown (returned u) = returned u
rethrown (thrown e) = thrown (error (gate (message_of e)))

unfoldable pub check_metadata : Json → Json → Release → Outcome (Unit {0})
check_metadata metadata registry release =
    throw_if (metadata_differs metadata registry release)
      (gate "npm registry metadata evidence is incomplete or inconsistent")
      (rethrown (validate_npm_repository_metadata metadata "npm registry metadata evidence"))

abbrev pub with_digest : Expected → String → Expected
with_digest expected sha512 = record {
  package_name = expected.package_name;
  version = expected.version;
  tag = expected.tag;
  source_commit = expected.source_commit;
  repository = expected.repository;
  tarball_sha512 = sha512;
  workflow_run_id = expected.workflow_run_id;
  workflow_run_attempt = expected.workflow_run_attempt;
}

-- packagePurl, as a string
abbrev pub escaped_name : String → String
escaped_name String.[] = ""
escaped_name (String.◌∷◌ c s) = if code c == 64 then String.◌++◌ "%40" s else String.◌∷◌ c s

abbrev pub purl_text : Expected → String
purl_text expected =
    String.◌++◌ "pkg:npm/"
      (String.◌++◌ (escaped_name expected.package_name) (String.◌++◌ "@" expected.version))

-- What provenanceIdentity returns, in whole.
abbrev pub identity_value : Expected → ProvenanceIdentity → Json
identity_value expected i = object (
    field "predicate_type" i.predicate_type (
      field "subject_name" (string (purl_text expected)) (
        field "subject_sha512" (string expected.tarball_sha512) (
          field "workflow_repository" i.workflow_repository (
            field "workflow_path" i.workflow_path (
              field "workflow_ref" i.workflow_ref (
                field "source_commit" (string expected.source_commit)
                  (field "invocation_id" (string i.invocation_id) end))))))))

abbrev pub identity_items : Expected → List ProvenanceIdentity → Items
identity_items expected [] = nil
identity_items expected (i ∷ is) = cons (identity_value expected i) (identity_items expected is)

abbrev pub summary_differs : Json → Expected → List ProvenanceIdentity → Bool
summary_differs summary expected identities =
    not (is_array summary) || not (same_json summary (array (identity_items expected identities)))

unfoldable pub check_summary : Json → Expected → List ProvenanceIdentity → Outcome (Unit {0})
check_summary evidence expected identities =
    throw_if (summary_differs (get (get evidence "provenance") "identities") expected identities)
      (gate "npm provenance identity summary differs from the registry attestation")
      (throw_if
        (not (is_string (get (get evidence "verification") "status") "PASS")
          || not (
              is_string (get (get evidence "verification") "command")
                "npm audit signatures --json --include-attestations"))
        (gate "npm provenance was not verified by the npm signature verifier")
        (validate_audit_signatures (get evidence "audit_signatures") expected))

abbrev pub attestations_of : Json → Json
attestations_of evidence = get (get evidence "registry_attestations") "attestations"

unfoldable pub check_provenance : Tools → Json → Expected → Outcome (Unit {0})
check_provenance tools evidence expected =
    provenance_identities tools.decoder (attestations_of evidence) expected
    >>= check_summary evidence expected

-- validateNpmProvenanceEvidence, which returns true.
unfoldable pub validate_npm_provenance_evidence : Tools → Json → Release → Outcome (Unit {0})
validate_npm_provenance_evidence tools evidence release =
    let registry = get evidence "registry" in
    check_header evidence release
    >> (check_registry tools registry release >>= λ sha512.
        check_artifacts evidence registry
        >> (check_urls tools registry release
            >> (check_metadata (get evidence "registry_metadata") registry release
                >> check_provenance tools evidence (with_digest release.expected sha512))))
