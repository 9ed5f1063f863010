-- ===== src/Operation/Refined.antt =====
-- scripts/release-operation.mjs and scripts/release-identity.mjs: a release operation accepts the
-- evidence of an accepted release identity.
use symbol_nem_wallet_core.Prelude.{
  ℕ, String, true, false, not, ◌||◌, none, some, List, [], ◌∷◌, ◌≡◌, refl, codes, All, ap, sym, ◌∙◌,
  subst, or-false, not-false, same_codes-same, eq_iff, ◌===◌, map,
}
use symbol_nem_wallet_core.Js.Json.{
  keys, Json, string, object, get, is_plain_object, is_string, is_same-string, exact_keys, text,
  throw_if-returned,
}
use symbol_nem_wallet_core.Js.Outcome.{returned, ◌>>◌, bind-returned}
use symbol_nem_wallet_core.Manifest.Versions.{is_digest}
use symbol_nem_wallet_core.Release.SemVer.{SemVer, parse_semver, is_valid_semver, is_valid_commit}
use symbol_nem_wallet_core.Release.Versions.{
  Source, has_prerelease, release_version_sources, entry_differs, validate_entries,
}
use symbol_nem_wallet_core.Release.Versions as Identity
use symbol_nem_wallet_core.Release.Identity.{
  tag_ref, is_main_ref, ReleaseIdentity, same_versions, validate_release_identity, version_of,
}
use symbol_nem_wallet_core.Release.Identity.Formal.{HaveVersion}
use symbol_nem_wallet_core.Release.Identity.Accepted.{
  is_valid_commit-digest, validate_release_identity-IsRelease,
}
use symbol_nem_wallet_core.Operation.{
  valid_commit, valid_formal_version, validate_tag, required_version_source_ids,
  same_version_entries, validate_version_sources, operation_of, validate_release_operation_identity,
}
use symbol_nem_wallet_core.Operation.Approved.{GiveVersion}
use symbol_nem_wallet_core.Operation.Artifact.{
  fields_of, identity_json, request_of, event_differs, artifact_differs, validate_identity_artifact,
}

same-same : (s : String) → (s === s) ≡ true
same-same s = (eq_iff s s).1 refl

abbrev sources_json : (String → Json) → Json
sources_json entry = object (fields_of (map (λ s. (s.id, entry s.id)) release_version_sources))

-- What the checks of a release operation come down to, for a commit, a version and a tag.
module _ (commit version name : String) (parsed : SemVer) where
  valid_commit-returns :
      (label : String)
      → is_digest 40 (codes commit) ≡ true
      → valid_commit (string commit) label ≡ returned tt
  unfolding valid_commit is_valid_commit
  valid_commit-returns label e = rw e refl

  validate_tag-returns :
      parse_semver (string version) ≡ some parsed
      → parsed.prerelease ≡ none
      → codes name ≡ b'v' ∷ codes version
      → validate_tag (string name) (string version) ≡ returned tt
  unfolding validate_tag valid_formal_version is_valid_semver text
  validate_tag-returns e f spelled = rw (e, f, spelled, same_codes-same (codes version)) refl

  -- Each of the sources is an object and gives the version.
  same_version_entries-returns :
      (vs : Json) (ids : List String)
      → GiveVersion vs version ids
      → same_version_entries vs (string version) ids ≡ returned tt
  unfolding same_version_entries
  same_version_entries-returns vs [] k = refl
  same_version_entries-returns vs (id ∷ ids) ((plain, same), rest) =
      rw (plain, same, same-same version) (same_version_entries-returns vs ids rest)

  -- The version sources of an accepted identity.
  validate_version_sources-returns :
      (entry : String → Json)
      → GiveVersion (sources_json entry) version required_version_source_ids
      → validate_version_sources (sources_json entry) (string version) ≡ returned tt
  unfolding validate_version_sources exact_keys keys
  validate_version_sources-returns entry given = same_version_entries-returns _ _ given

-- Entries that the identity of a release accepts are objects.
validate_entries-plain :
    (vs : Json) (sources : List Source)
    → validate_entries vs sources ≡ returned tt
    → All (λ s. is_plain_object (get vs s.id) ≡ true) sources
unfolding validate_entries entry_differs
validate_entries-plain vs [] k = tt
validate_entries-plain vs (s ∷ ss) k =
    let (c, k₁) = throw_if-returned (entry_differs s (get vs s.id)) _ _ tt k in
    let (k₂, rest) =
      throw_if-returned (has_prerelease (parse_semver (get (get vs s.id) "version"))) _ _ tt k₁ in
    let (u, semver) = or-false _ (not (is_valid_semver (get (get vs s.id) "version"))) c in
    let (w, named) =
      or-false _ (not (is_string (get (get vs s.id) "package_name") s.package_name)) u in
    let (plain, path) = or-false (not (is_plain_object (get vs s.id))) _ w in
    (not-false _ plain, validate_entries-plain vs ss rest)

accepted-plain :
    (input : Json) (r : ReleaseIdentity)
    → validate_release_identity input ≡ returned r
    → All
        (λ s. is_plain_object (get (get input "versionSources") s.id) ≡ true)
        release_version_sources
unfolding validate_release_identity Identity.validate_version_sources
accepted-plain input r k =
    let vs = get input "versionSources" in
    let (mode, k₁) =
      throw_if-returned
        (not (is_plain_object input) || not (is_string (get input "mode") "release")) _ _ r k in
    let (u, k₂, k₃) =
      bind-returned
        (Identity.validate_version_sources vs
          >> same_versions vs (version_of input) release_version_sources)
        _ r k₁ in
    let (w, k₄, k₅) = bind-returned (Identity.validate_version_sources vs) _ u k₂ in
    let (plain, k₆) = throw_if-returned (not (is_plain_object vs)) _ _ w k₄ in
    let (only, k₇) =
      throw_if-returned (not (exact_keys vs (map (λ s. s.id) release_version_sources))) _ _ w k₆ in
    validate_entries-plain vs release_version_sources k₇

abbrev accepted_identity :
    String → String → String → String → Json → String → (String → Json) → List ℕ → ReleaseIdentity
accepted_identity version name commit event_ref main_ref main_commit entry ref = record {
  version = string version;
  tag = string name;
  tag_version = version;
  tag_ref = ref;
  tag_event_ref = string event_ref;
  checkout_head = string commit;
  source_commit = string commit;
  tag_commit = string commit;
  main_ref = main_ref;
  main_ref_commit = string main_commit;
  version_sources = map (λ s. (s.id, entry s.id)) release_version_sources;
}

abbrev pub Accepts : ReleaseIdentity → String → Type 0
Accepts r ref =
    validate_identity_artifact (identity_json r ref) r.tag r.source_commit r.version
      (string "release")
    ≡ returned (
        operation_of
          (request_of (identity_json r ref) r.tag r.source_commit r.version (string "release")))

module _ (version name commit event_ref main_commit ref : String) (main_ref : Json)
    (entry : String → Json) (parsed : SemVer) where
  abbrev the_identity : ReleaseIdentity
  the_identity =
      accepted_identity version name commit event_ref main_ref main_commit entry
        (tag_ref (string name))

  artifact-same :
      codes ref ≡ tag_ref (string name)
      → codes event_ref ≡ tag_ref (string name)
      → is_main_ref main_ref ≡ true
      → is_digest 40 (codes main_commit) ≡ true
      → artifact_differs (identity_json the_identity ref) (string name) (string commit) ≡ false
  unfolding artifact_differs event_differs get text
  artifact-same e₁ e₂ m d =
      rw
        (
          e₁,
          e₂,
          same-same name,
          same-same version,
          same-same commit,
          same_codes-same (tag_ref (string name)),
          m,
          d,
        )
        refl

  operation-returns :
      parse_semver (string version) ≡ some parsed
      → parsed.prerelease ≡ none
      → codes name ≡ b'v' ∷ codes version
      → GiveVersion (sources_json entry) version required_version_source_ids
      → is_digest 40 (codes commit) ≡ true
      → validate_release_operation_identity (
          request_of
            (identity_json the_identity ref)
            (string name)
            (string commit)
            (string version)
            (string "release"))
        ≡ returned (
            operation_of (
              request_of
                (identity_json the_identity ref)
                (string name)
                (string commit)
                (string version)
                (string "release")))
  unfolding validate_release_operation_identity get
  operation-returns e f spelled given digest =
      rw
        (
          validate_tag-returns commit version name parsed e f spelled,
          same-same version,
          validate_version_sources-returns commit version name parsed entry given,
          valid_commit-returns commit version name parsed "release source commit" digest,
          valid_commit-returns commit version name parsed "checkout HEAD" digest,
          valid_commit-returns commit version name parsed "tag target commit" digest,
          same-same commit,
        )
        refl

  artifact-Accepts :
      codes ref ≡ tag_ref (string name)
      → codes event_ref ≡ tag_ref (string name)
      → is_main_ref main_ref ≡ true
      → is_digest 40 (codes main_commit) ≡ true
      → parse_semver (string version) ≡ some parsed
      → parsed.prerelease ≡ none
      → codes name ≡ b'v' ∷ codes version
      → GiveVersion (sources_json entry) version required_version_source_ids
      → is_digest 40 (codes commit) ≡ true
      → Accepts the_identity ref
  unfolding validate_identity_artifact get
  artifact-Accepts e₁ e₂ m d e f spelled given digest =
      rw (operation-returns e f spelled given digest, artifact-same e₁ e₂ m d) refl

-- The sources of an accepted identity.
accepted-GiveVersion :
    (vs : Json) (version : String)
    → All (λ s. is_plain_object (get vs s.id) ≡ true) release_version_sources
    → HaveVersion vs (string version) release_version_sources
    → GiveVersion (sources_json (get vs)) version required_version_source_ids
unfolding get
accepted-GiveVersion vs v (p₁, (p₂, (p₃, (p₄, (p₅, u))))) (s₁, (s₂, (s₃, (s₄, (s₅, w))))) = (
  (p₁, is_same-string _ v s₁),
  (
    (p₂, is_same-string _ v s₂),
    ((p₃, is_same-string _ v s₃), ((p₄, is_same-string _ v s₄), ((p₅, is_same-string _ v s₅), tt))),
  ),
)

-- A release identity that validateReleaseIdentity accepts is evidence that validateIdentityArtifact
-- accepts, in the environment "release" and for the tag, the commit and the version of the
-- identity. The operation that it returns has just these.
pub validate_identity_artifact-Accepts :
    (input : Json) (r : ReleaseIdentity) (ref : String)
    → validate_release_identity input ≡ returned r
    → codes ref ≡ r.tag_ref
    → Accepts r ref
validate_identity_artifact-Accepts input r ref k e =
    let release = validate_release_identity-IsRelease input r k in
    let tag = release.tag in
    let commit = release.commit in
    let creation = release.creation in
    let (main_commit, main_text, main_digest) = is_valid_commit-digest _ commit.main_commit in
    let vs = get input "versionSources" in
    let same : r
        ≡ accepted_identity release.version tag.name commit.commit creation.ref
            (get input "mainRef") main_commit (get vs) (tag_ref (string tag.name)) =
      release.described
      ∙ rw
          (
            tag.tag_text, creation.ref_text, commit.source, commit.checkout, commit.tagged,
            main_text,
          )
          refl in
    subst (λ w. Accepts w ref) (sym same)
      (artifact-Accepts release.version tag.name commit.commit creation.ref main_commit ref
        (get input "mainRef") (get vs) tag.parsed (e ∙ ap (λ w. w.tag_ref) same)
        (creation.names ∙ ap tag_ref tag.tag_text) commit.main main_digest tag.valid tag.formal
        tag.spelled
        (accepted-GiveVersion vs release.version (accepted-plain input r k) release.sources)
        commit.digest)
