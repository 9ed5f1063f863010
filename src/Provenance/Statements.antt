-- ===== src/Provenance/Statements.antt =====
-- scripts/npm-provenance.mjs: decodeStatement, provenanceIdentity, provenanceIdentities and
-- validateAuditSignatures. Base64 and JSON.parse are parameters.
pub mod Told
pub mod Bound
use symbol_nem_wallet_core.Prelude.{
  ℕ, zero, suc, String, Bool, true, false, not, ◌&&◌, ◌||◌, Option, none, some, List, [], ◌∷◌, ◌++◌,
  codes, length, any, contains, same_codes, starts_with, ◌==◌, ◌===◌, if◌then◌else◌, decimal,
}
use Prim.Native.String
use symbol_nem_wallet_core.Js.Json.{
  Json, null, string, is_plain_object, get, is_string, is_same, throw_if, error,
}
use symbol_nem_wallet_core.Js.Outcome.{Outcome, returned, thrown, ◌>>=◌, ◌>>◌, traverse}
use symbol_nem_wallet_core.Release.Identity.{is_text}
use symbol_nem_wallet_core.Operation.{is_text_value}
use symbol_nem_wallet_core.Operation.Spdx.{element_list, is_array}
use symbol_nem_wallet_core.Provenance.{gate, labelled, package_purl}

pub record Decoder : Type 0 where
  -- Buffer.from(text, "base64").toString("utf8"), and back
  pub decode : String → String
  pub encode : String → String
  pub parse : String → Outcome Json

-- What the attestations are expected to tell.
pub record Expected : Type 0 where
  pub package_name : String
  pub version : String
  pub tag : String
  pub source_commit : String
  pub repository : String
  pub tarball_sha512 : String
  -- none where it is undefined
  pub workflow_run_id : Option String
  -- none where it is undefined; some none where it is no integer from 1 on
  pub workflow_run_attempt : Option (Option ℕ)

-- PROVENANCE_PREDICATE_TYPES
abbrev pub provenance_predicate_types : List String
provenance_predicate_types =
    "https://slsa.dev/provenance/v1" ∷ "https://slsa.dev/provenance/v0.2" ∷ []

abbrev pub is_provenance_type : Json → Bool
is_provenance_type (string s) = contains provenance_predicate_types s
is_provenance_type _ = false

abbrev pub malformed_payload : String → String
malformed_payload label = labelled label " DSSE payload is malformed"

abbrev pub parsed_payload : String → Outcome Json → Outcome Json
parsed_payload label (returned statement) = returned statement
parsed_payload label (thrown e) = thrown (error (malformed_payload label))

-- A payload that is not canonical is caught as a malformed one.
unfoldable pub decode_payload : Decoder → String → String → Outcome Json
decode_payload decoder payload label =
    let text = decoder.decode payload in
    if decoder.encode text === payload
    then parsed_payload label (decoder.parse text)
    else thrown (error (malformed_payload label))

abbrev pub payload_statement : Decoder → Json → String → Outcome Json
payload_statement decoder (string payload) label = decode_payload decoder payload label
payload_statement decoder _ label = thrown (error (labelled label " has no DSSE payload"))

unfoldable pub decode_statement : Decoder → Json → String → Outcome Json
decode_statement decoder bundle label =
    throw_if (not (is_plain_object bundle) || not (is_plain_object (get bundle "dsseEnvelope")))
      (labelled label " has no DSSE payload")
      (payload_statement decoder (get (get bundle "dsseEnvelope") "payload") label)

abbrev pub purl : Expected → List ℕ
purl expected = package_purl (codes expected.package_name) (codes expected.version)

abbrev pub is_subject : Expected → Json → Bool
is_subject expected subject =
    is_plain_object subject
    && is_text (get subject "name") (purl expected)
    && is_string (get (get subject "digest") "sha512") expected.tarball_sha512

-- https://github.com/${repository}
abbrev pub github : Expected → List ℕ
github expected = codes "https://github.com/" ++ codes expected.repository

-- refs/tags/${tag}
abbrev pub tag_ref : Expected → List ℕ
tag_ref expected = codes "refs/tags/" ++ codes expected.tag

-- WORKFLOW_PATH
abbrev pub workflow_path : String
workflow_path = ".github/workflows/release.yml"

unfoldable pub workflow_differs : Expected → Json → Bool
workflow_differs expected workflow =
    not (is_plain_object workflow)
    || not (is_text (get workflow "repository") (github expected))
    || not (is_string (get workflow "path") workflow_path)
    || not (is_text (get workflow "ref") (tag_ref expected))

abbrev pub is_source : Expected → Json → Bool
is_source expected dependency =
    is_plain_object dependency
    && is_text (get dependency "uri") (codes "git+" ++ (github expected ++ b'@' ∷ tag_ref expected))
    && is_string (get (get dependency "digest") "gitCommit") expected.source_commit

-- https://github.com/${repository}/actions/runs/
abbrev pub runs_prefix : Expected → List ℕ
runs_prefix expected = github expected ++ codes "/actions/runs/"

abbrev pub run_prefix : Expected → String → List ℕ
run_prefix expected run_id = runs_prefix expected ++ codes run_id

abbrev pub attempt_id : List ℕ → ℕ → List ℕ
attempt_id prefix attempt = prefix ++ (codes "/attempts/" ++ codes (decimal attempt))

-- The checks of an invocation id against a run, and against an attempt where one is given.
abbrev pub run_agrees : List ℕ → List ℕ → Option (Option ℕ) → Bool
run_agrees prefix id none = same_codes id prefix || starts_with (prefix ++ codes "/attempts/") id
run_agrees prefix id (some none) = false
run_agrees prefix id (some (some zero)) = false
run_agrees prefix id (some (some (suc n))) = same_codes id (attempt_id prefix (suc n))

abbrev pub run_message : Option (Option ℕ) → String
run_message none = "npm provenance invocation identity does not match the original release run"
run_message (some attempt) =
    "npm provenance invocation attempt does not match the original release run"

abbrev pub check_run : Expected → String → Option String → Outcome (Unit {0})
check_run expected id none = returned tt
check_run expected id (some run_id) =
    throw_if
      (not (run_agrees (run_prefix expected run_id) (codes id) expected.workflow_run_attempt))
      (gate (run_message expected.workflow_run_attempt)) (returned tt)

abbrev pub check_invocation : Expected → Json → Outcome String
check_invocation expected (string id) =
    throw_if (not (starts_with (runs_prefix expected) (codes id)))
      (gate "npm provenance invocation identity is unavailable")
      (check_run expected id expected.workflow_run_id >> returned id)
check_invocation expected _ =
    thrown (error (gate "npm provenance invocation identity is unavailable"))

-- The fields of an identity that are not given by what is expected.
pub record ProvenanceIdentity : Type 0 where
  pub predicate_type : Json
  pub workflow_repository : Json
  pub workflow_path : Json
  pub workflow_ref : Json
  pub invocation_id : String

abbrev pub workflow_of : Json → Json
workflow_of statement =
    get (get (get (get statement "predicate") "buildDefinition") "externalParameters") "workflow"

abbrev pub dependencies_of : Json → Json
dependencies_of statement =
    get (get (get statement "predicate") "buildDefinition") "resolvedDependencies"

abbrev pub invocation_of : Json → Json
invocation_of statement =
    get (get (get (get statement "predicate") "runDetails") "metadata") "invocationId"

-- The rest of provenanceIdentity, of a statement of a provenance type.
unfoldable pub statement_identity : Expected → Json → Json → Outcome ProvenanceIdentity
statement_identity expected predicate_type statement =
    let workflow = workflow_of statement in
    throw_if (workflow_differs expected workflow)
      (gate "npm provenance workflow identity does not match the release")
      (throw_if
        (not (
          is_array (dependencies_of statement)
          && any (is_source expected) (element_list (dependencies_of statement))))
        (gate "npm provenance source commit identity does not match the release")
        (check_invocation expected (invocation_of statement) >>= λ id. returned (record {
          predicate_type = predicate_type;
          workflow_repository = get workflow "repository";
          workflow_path = get workflow "path";
          workflow_ref = get workflow "ref";
          invocation_id = id;
        })))

abbrev pub type_text : Json → String
type_text (string s) = s
type_text _ = ""

-- The identity of a provenance type; none, which stands for null, of another type.
abbrev pub typed_identity : Bool → Outcome ProvenanceIdentity → Outcome (Option ProvenanceIdentity)
typed_identity true m = m >>= λ identity. returned (some identity)
typed_identity false m = returned none

abbrev pub is_null : Json → Bool
is_null null = true
is_null _ = false

-- The checks of a statement against its attestation and what is expected.
unfoldable pub check_statement : Expected → Json → Json → Outcome (Option ProvenanceIdentity)
check_statement expected predicate_type statement =
    throw_if (is_null statement) "Cannot read properties of null (reading 'predicateType')" (
      throw_if (not (is_same (get statement "predicateType") predicate_type))
        (gate "npm attestation predicate type differs from its DSSE statement")
        (throw_if
          (not (
            is_array (get statement "subject")
            && any (is_subject expected) (element_list (get statement "subject"))))
          (gate "npm attestation subject does not match the registry tarball")
          (typed_identity (is_provenance_type predicate_type)
            (statement_identity expected predicate_type statement))))

-- provenanceIdentity
unfoldable pub provenance_identity : Decoder → Expected → Json → Outcome (Option ProvenanceIdentity)
provenance_identity decoder expected attestation =
    let predicate_type = get attestation "predicateType" in
    throw_if (not (is_plain_object attestation) || not (is_text_value predicate_type))
      (gate "npm attestation identity is malformed")
      (decode_statement decoder (get attestation "bundle")
          (String.◌++◌ "npm attestation " (type_text predicate_type))
        >>= check_statement expected predicate_type)

-- filter((identity) => identity !== null)
abbrev pub present_of : List (Option ProvenanceIdentity) → List ProvenanceIdentity
present_of [] = []
present_of (none ∷ identities) = present_of identities
present_of (some identity ∷ identities) = identity ∷ present_of identities

abbrev pub some_identities : List ProvenanceIdentity → Outcome (List ProvenanceIdentity)
some_identities [] = thrown (error (gate "npm registry returned no provenance attestation"))
some_identities (identity ∷ identities) = returned (identity ∷ identities)

unfoldable pub provenance_identities : Decoder → Json → Expected → Outcome (List ProvenanceIdentity)
provenance_identities decoder attestations expected =
    throw_if (not (is_array attestations) || length (element_list attestations) == 0)
      (gate "npm registry returned no attestations")
      (traverse (provenance_identity decoder expected) (element_list attestations) >>= λ identities.
        some_identities (present_of identities))

-- The entry of the package that the audit verified.
abbrev pub is_package : Expected → Json → Bool
is_package expected entry =
    is_plain_object entry
    && is_string (get entry "name") expected.package_name
    && is_string (get entry "version") expected.version

abbrev pub find_package : Expected → List Json → Option Json
find_package expected [] = none
find_package expected (entry ∷ entries) =
    let rest = find_package expected entries in
    if is_package expected entry then some entry else rest

abbrev pub has_bundles : Option Json → Bool
has_bundles none = false
has_bundles (some entry) = is_array (get entry "attestationBundles")

abbrev pub has_provenance : Option Json → Bool
has_provenance none = false
has_provenance (some entry) =
    any (λ bundle. is_provenance_type (get bundle "predicateType"))
      (element_list (get entry "attestationBundles"))

abbrev pub is_empty_array : Json → Bool
is_empty_array v = length (element_list v) == 0

-- validateAuditSignatures. The result tells what is expected and that the counts are zero.
unfoldable pub validate_audit_signatures : Json → Expected → Outcome (Unit {0})
validate_audit_signatures audit expected =
    let entry = find_package expected (element_list (get audit "verified")) in
    throw_if
      (not (is_plain_object audit)
        || not (is_array (get audit "invalid"))
        || not (is_array (get audit "missing"))
        || not (is_array (get audit "verified")))
      (gate "npm audit signatures output is incomplete")
      (throw_if
        (not (is_empty_array (get audit "invalid")) || not (is_empty_array (get audit "missing")))
        (gate "npm audit signatures reported invalid or missing evidence")
        (throw_if (not (has_bundles entry))
          (gate "npm audit signatures did not verify the release package attestation")
          (throw_if (not (has_provenance entry))
            (gate "npm audit signatures did not verify a provenance attestation") (returned tt))))
