-- ===== src/Operation/Finalize.antt =====
-- scripts/release-operation.mjs: finalizeReleaseOperation. The arguments are the strings that the
-- command line gives; the contents of the three files are parameters, and the file that is written
-- is the value that is returned.
pub mod Published
use symbol_nem_wallet_core.Prelude.{
  ℕ, zero, suc, String, Bool, true, false, not, ◌&&◌, ◌||◌, Option, none, some, List, [], ◌∷◌, ◌++◌,
  codes, all, leb, starts_with, includes, ◌===◌, if◌then◌else◌, decimal, same_codes,
}
use symbol_nem_wallet_core.Js.Json.{
  Json, undefined, null, number, string, array, object, Items, nil, cons, Fields, field, end,
  is_plain_object, get, is_string, is_number, is_same, throw_if, error, text,
}
use symbol_nem_wallet_core.Js.Outcome.{Outcome, returned, thrown, ◌>>=◌, ◌>>◌}
use symbol_nem_wallet_core.Manifest.Versions.{is_digest, is_empty}
use symbol_nem_wallet_core.Release.SemVer.{is_valid_semver}
use symbol_nem_wallet_core.Release.Versions.{npm_package_name}
use symbol_nem_wallet_core.Release.Identity.{is_text}
use symbol_nem_wallet_core.Operation.{gate, labelled, valid_commit, is_text_value}
use symbol_nem_wallet_core.Provenance.Statements.{Expected, is_null}
use symbol_nem_wallet_core.Provenance.Evidence.{Tools, Release, validate_npm_provenance_evidence}

pub record Finalization : Type 0 where
  -- JSON.parse of the files, and the SHA-256 digest of the second
  pub pre_operation : Outcome Json
  pub provenance : Outcome Json
  pub provenance_sha256 : Outcome String
  pub manifest : Outcome Json
  pub tag : String
  pub source_commit : String
  pub environment : String
  pub publication_mode : String
  pub workflow_ref : String
  pub repository : String
  pub run_id : String
  -- none where it is no integer from 0 on
  pub run_attempt : Option ℕ

-- json
abbrev pub json : Outcome Json → String → Outcome Json
json (returned v) label = returned v
json (thrown e) label = thrown (error (labelled label " is unreadable or malformed"))

abbrev pub sha256_file : Outcome String → String → Outcome String
sha256_file (returned s) label = returned s
sha256_file (thrown e) label = thrown (error (labelled label " is unreadable"))

-- value ?? other
abbrev pub or_else : Json → Json → Json
or_else undefined other = other
or_else null other = other
or_else v other = v

abbrev pub is_recovery : Json → Bool
is_recovery manifest = is_string (get manifest "artifact_kind") "published-npm-recovery-manifest"

abbrev pub is_sha512 : Json → Bool
is_sha512 (string s) = is_digest 128 (codes s)
is_sha512 _ = false

unfoldable pub recovery_differs : Finalization → Json → Bool
recovery_differs f manifest =
    not (is_number (get manifest "schema_version") "1")
    || not (is_string (get manifest "mode") "release-recovery")
    || not (is_string (get manifest "package_name") npm_package_name)
    || not (is_string (get manifest "release_tag") f.tag)
    || not (is_string (get manifest "source_commit") f.source_commit)
    || not (is_string (get (get manifest "published_artifact") "source") "npm-registry-tarball")
    || not (is_sha512 (get (get manifest "published_artifact") "tarball_sha512"))

unfoldable pub operation_differs : Finalization → Json → Json → Bool
operation_differs f manifest operation =
    not (is_plain_object operation)
    || not (is_string (get operation "package_name") npm_package_name)
    || not (is_same (get operation "package_version") (get manifest "package_version"))
    || not (is_string (get operation "release_tag") f.tag)
    || not (is_string (get operation "source_commit") f.source_commit)
    || not (is_string (get (get operation "provenance") "status") "required-at-publish")

-- manifestTarball, and its digest and size
abbrev pub manifest_tarball : Json → Json
manifest_tarball manifest =
    if is_recovery manifest then get manifest "published_artifact" else get manifest "npm_tarball"

abbrev pub tarball_sha256 : Json → Json
tarball_sha256 tarball = or_else (get tarball "tarball_sha256") (get tarball "sha256")

abbrev pub tarball_size : Json → Json
tarball_size tarball = or_else (get tarball "tarball_size") (get tarball "size")

abbrev pub without_sign : List ℕ → List ℕ
without_sign [] = []
without_sign (c ∷ cs) = if starts_with (codes "-") (c ∷ cs) then cs else c ∷ cs

-- Number.isInteger, by the text of a number
abbrev pub is_integer : Json → Bool
is_integer (number t) =
    not (is_empty (without_sign (codes t)))
      && all (λ c. leb b'0' c && leb c b'9') (without_sign (codes t))
    || includes (codes "e+") (codes t)
is_integer _ = false

abbrev pub release_repository : String
release_repository = "nemnesia/symbol-nem-wallet-core"

abbrev pub is_run_id : String → Bool
is_run_id s = not (is_empty (codes s)) && all (λ c. leb b'0' c && leb c b'9') (codes s)

abbrev pub is_attempt : Option ℕ → Bool
is_attempt none = false
is_attempt (some zero) = false
is_attempt (some (suc n)) = true

-- `${repository}/.github/workflows/release.yml@refs/tags/${tag}`
abbrev pub workflow_identity : Finalization → List ℕ
workflow_identity f =
    codes f.repository ++ (codes "/.github/workflows/release.yml@refs/tags/" ++ codes f.tag)

abbrev pub tarball_malformed : Json → Bool
tarball_malformed tarball =
    not (is_plain_object tarball)
    || not (is_text_value (tarball_sha256 tarball))
    || not (is_integer (tarball_size tarball))

-- The checks from the one of the recovery manifest to the one of the tarball.
unfoldable pub check_identity : Finalization → Json → Json → Outcome (Unit {0})
check_identity f manifest operation =
    throw_if (is_recovery manifest && recovery_differs f manifest)
      (gate "published recovery manifest identity is invalid")
      (throw_if
        (not (is_valid_semver (get manifest "package_version"))
          || not (same_codes (codes f.tag) (b'v' ∷ text (get manifest "package_version"))))
        (gate "release tag/version identity is invalid")
        (throw_if (operation_differs f manifest operation)
          (gate "pre-publish release operation identity is invalid")
          (throw_if
            (not (is_plain_object (manifest_tarball manifest))
              || not (
                  is_same (get (get operation "npm_tarball") "sha256")
                    (tarball_sha256 (manifest_tarball manifest))))
            (gate "pre-publish release operation tarball differs from the release manifest")
            (returned tt))))

unfoldable pub check_run : Finalization → Json → Outcome (Unit {0})
check_run f manifest =
    throw_if (not (f.repository === release_repository))
      (gate "GitHub repository is not the approved release repository")
      (throw_if (not (same_codes (codes f.workflow_ref) (workflow_identity f)))
        (gate "GitHub workflow identity differs from the release tag")
        (throw_if (not (is_run_id f.run_id)) (gate "GitHub workflow run identity is invalid") (
          throw_if (not (is_attempt f.run_attempt)) (gate "GitHub workflow run attempt is invalid")
            (throw_if (tarball_malformed (manifest_tarball manifest))
              (gate "release manifest npm tarball identity is invalid") (returned tt)))))

abbrev pub version_text : Json → String
version_text (string s) = s
version_text _ = ""

-- What validateNpmProvenanceEvidence is given. Its digest of the tarball is replaced by the
-- registry's, which is checked against the one that is expected.
abbrev pub release_of : Finalization → Json → Json → Release
release_of f manifest provenance = record {
  expected = record {
    package_name = npm_package_name;
    version = version_text (get manifest "package_version");
    tag = f.tag;
    source_commit = f.source_commit;
    repository = f.repository;
    tarball_sha512 = "";
    workflow_run_id = some f.run_id;
    workflow_run_attempt = some f.run_attempt;
  };
  environment = f.environment;
  tarball_sha256 = tarball_sha256 (manifest_tarball manifest);
  tarball_size = tarball_size (manifest_tarball manifest);
  tarball_sha512 =
      if is_recovery manifest
      then get (manifest_tarball manifest) "tarball_sha512"
      else get (get provenance "registry") "tarball_sha512";
}

abbrev pub expected_mode : String → String
expected_mode mode =
    if mode === "recovered-existing" then "post-publish-recovery" else "fresh-publish"

-- { ...fields, key: v }
abbrev pub with_field : String → Json → Fields → Fields
with_field key v end = field key v end
with_field key v (field k w fs) =
    let rest = with_field key v fs in if k === key then field key v fs else field k w rest

abbrev pub fields_of : Json → Fields
fields_of (object fs) = fs
fields_of _ = end

abbrev pub invocation_ids : Items → Items
invocation_ids nil = nil
invocation_ids (cons v vs) = cons (get v "invocation_id") (invocation_ids vs)

abbrev pub identity_items : Json → Items
identity_items (array vs) = vs
identity_items _ = nil

abbrev pub published_provenance : Json → Json → String → Json
published_provenance operation provenance digest = object (
    with_field "actual_publish_invocation_ids"
      (array (invocation_ids (identity_items (get (get provenance "provenance") "identities"))))
      (with_field "predicate_types" (get (get provenance "provenance") "predicate_types") (
        with_field "evidence"
          (object
            (field "filename" (string "npm-provenance.json") (field "sha256" (string digest) end)))
          (with_field "status" (string "published") (fields_of (get operation "provenance"))))))

abbrev pub attempt_value : Option ℕ → Json
attempt_value none = undefined
attempt_value (some n) = number (decimal n)

abbrev pub publication : Finalization → Json → Json
publication f provenance =
    let registry = get provenance "registry" in
    object (
      field "mode" (string f.publication_mode) (
        field "repository" (string f.repository) (
          field "workflow_ref" (string f.workflow_ref) (
            field "workflow_run_id" (string f.run_id) (
              field "workflow_run_attempt" (attempt_value f.run_attempt) (
                field "registry_metadata_url" (get registry "metadata_url") (
                  field "registry_tarball_url" (get registry "tarball_url") (
                    field "registry_attestations_url" (get registry "attestations_url")
                      (field "registry_tarball_sha256" (get registry "tarball_sha256") end)))))))))

abbrev pub final_operation : Finalization → Json → Json → String → Json
final_operation f operation provenance digest = object (
    with_field "publication" (publication f provenance) (
      with_field "provenance" (published_provenance operation provenance digest)
        (fields_of operation)))

-- From the check of the provenance on.
unfoldable pub finalize_published : Tools → Finalization → Json → Json → Json → Outcome Json
finalize_published tools f operation provenance manifest =
    throw_if (not (is_recovery manifest) && is_null provenance)
      "Cannot read properties of null (reading 'registry')"
      (validate_npm_provenance_evidence tools provenance (release_of f manifest provenance)
        >> throw_if
            (not (is_string (get provenance "publication_mode") (expected_mode f.publication_mode)))
            (gate "npm provenance publication mode does not match the publication operation")
            (sha256_file f.provenance_sha256 "npm provenance evidence" >>= λ digest.
              returned (final_operation f operation provenance digest)))

abbrev pub is_publication_mode : String → Bool
is_publication_mode mode = mode === "published" || mode === "recovered-existing"

unfoldable pub finalize_release_operation : Tools → Finalization → Outcome Json
finalize_release_operation tools f =
    throw_if (not (is_publication_mode f.publication_mode))
      (gate "release publication mode is invalid")
      (json f.pre_operation "pre-publish release operation evidence" >>= λ operation.
        json f.provenance "npm provenance evidence" >>= λ provenance.
        json f.manifest "release manifest" >>= λ manifest.
        valid_commit (string f.source_commit) "release source commit"
        >> throw_if (is_null manifest) "Cannot read properties of null (reading 'artifact_kind')" (
            check_identity f manifest operation
            >> (check_run f manifest >> finalize_published tools f operation provenance manifest)))
