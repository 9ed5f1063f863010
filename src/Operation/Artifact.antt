-- ===== src/Operation/Artifact.antt =====
-- scripts/release-operation.mjs: validateIdentityArtifact, which reads the evidence that
-- validateReleaseIdentity of scripts/release-identity.mjs makes.
use symbol_nem_wallet_core.Prelude.{String, Bool, true, false, not, ◌||◌, List, [], ◌∷◌}
use symbol_nem_wallet_core.Js.Json.{
  Json, boolean, number, string, object, Fields, field, end, is_plain_object, get, is_string,
  is_number, is_same, is_true, is_false, throw_if, text,
}
use symbol_nem_wallet_core.Js.Outcome.{Outcome, returned, ◌>>=◌}
use symbol_nem_wallet_core.Manifest.Versions.{is_digest}
use symbol_nem_wallet_core.Release.Versions.{npm_package_name}
use symbol_nem_wallet_core.Release.Identity.{
  zero_commit, tag_ref, is_text, is_main_ref, ReleaseIdentity,
}
use symbol_nem_wallet_core.Operation.{gate, Request, validate_release_operation_identity}

-- Object.fromEntries
abbrev pub fields_of : List (String × Json) → Fields
fields_of [] = end
fields_of ((name, v) ∷ entries) = field name v (fields_of entries)

abbrev tag_event_json : ReleaseIdentity → Json
tag_event_json r = object (
    field "ref" r.tag_event_ref (
      field "created" (boolean true) (
        field "deleted" (boolean false)
          (field "forced" (boolean false) (field "before" (string zero_commit) end)))))

-- The object that validateReleaseIdentity returns, with the text of its tag_ref.
abbrev pub identity_json : ReleaseIdentity → String → Json
identity_json r ref = object (
    field "schema_version" (number "1") (
      field "kind" (string "release-identity") (
        field "mode" (string "release") (
          field "package_name" (string npm_package_name) (
            field "version" r.version (
              field "tag" r.tag (
                field "tag_version" (string r.tag_version) (
                  field "tag_ref" (string ref) (
                    field "tag_event" (tag_event_json r) (
                      field "checkout_head" r.checkout_head (
                        field "source_commit" r.source_commit (
                          field "tag_commit" r.tag_commit (
                            field "main_ref" r.main_ref (
                              field "main_ref_commit" r.main_ref_commit (
                                field "main_ancestry" (boolean true) (
                                  field "clean" (boolean true) (
                                    field "version_sources" (object (fields_of r.version_sources))
                                      end)))))))))))))))))

abbrev pub request_of : Json → Json → Json → Json → Json → Request
request_of identity tag source_commit manifest_version environment = record {
  environment = environment;
  tag = tag;
  version = get identity "version";
  manifest_version = manifest_version;
  version_sources = get identity "version_sources";
  source_commit = source_commit;
  checkout_head = get identity "checkout_head";
  tag_commit = get identity "tag_commit";
  main_ancestry = get identity "main_ancestry";
  clean = get identity "clean";
  provenance_required = boolean true;
  oidc_required = boolean true;
}

unfoldable pub event_differs : Json → Json → Bool
event_differs tag event =
    not (is_text (get event "ref") (tag_ref tag))
    || not (is_true (get event "created"))
    || not (is_false (get event "deleted"))
    || not (is_false (get event "forced"))
    || not (is_string (get event "before") zero_commit)

unfoldable pub artifact_differs : Json → Json → Json → Bool
artifact_differs identity tag source_commit =
    not (is_string (get identity "package_name") npm_package_name)
    || not (is_same (get identity "tag") tag)
    || not (is_same (get identity "tag_version") (get identity "version"))
    || not (is_text (get identity "tag_ref") (tag_ref tag))
    || not (is_same (get identity "source_commit") source_commit)
    || not (is_main_ref (get identity "main_ref"))
    || not (is_digest 40 (text (get identity "main_ref_commit")))
    || event_differs tag (get identity "tag_event")

unfoldable pub validate_identity_artifact : Json → Json → Json → Json → Json → Outcome Json
validate_identity_artifact identity tag source_commit manifest_version environment =
    throw_if
      (not (is_plain_object identity)
        || not (is_number (get identity "schema_version") "1")
        || not (is_string (get identity "kind") "release-identity")
        || not (is_string (get identity "mode") "release"))
      (gate "release identity evidence is invalid")
      (validate_release_operation_identity
          (request_of identity tag source_commit manifest_version environment)
        >>= λ result.
            throw_if (artifact_differs identity tag source_commit)
              (gate "release identity evidence does not match the release event") (returned result))
