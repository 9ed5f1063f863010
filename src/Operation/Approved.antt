-- ===== src/Operation/Approved.antt =====
-- scripts/release-operation.mjs: what a release operation whose identity is accepted looks like.
use symbol_nem_wallet_core.Prelude.{
  String, true, false, not, ◌||◌, Option, none, some, List, [], ◌∷◌, ◌≡◌, refl, codes, All, arith,
  sym, subst, or-false, not-false,
}
use symbol_nem_wallet_core.Js.Json.{
  Json, undefined, null, boolean, number, string, array, object, opaque, get, is_plain_object,
  is_string, is_string-eq, is_same, is_same-string, is_true, is_true-eq, exact_keys, text,
  throw_if-returned,
}
use symbol_nem_wallet_core.Js.Outcome.{returned, bind-returned}
use symbol_nem_wallet_core.Manifest.Versions.{is_digest}
use symbol_nem_wallet_core.Release.SemVer.{
  SemVer, parse_semver, is_valid_semver, is_valid_commit, is_some,
}
use symbol_nem_wallet_core.Release.Versions.{has_prerelease}
use symbol_nem_wallet_core.Release.Identity.{is_text}
use symbol_nem_wallet_core.Release.Identity.Formal.{IsReleaseTag, has_prerelease_of-none}
use symbol_nem_wallet_core.Release.Identity.Accepted.{is_valid_commit-digest, is_text-codes}
use symbol_nem_wallet_core.Operation.{
  valid_commit, valid_formal_version, validate_tag, required_version_source_ids,
  same_version_entries, validate_version_sources, Request, operation_of, require_state,
  require_commits, validate_release_operation_identity,
}

-- A version without a prerelease.
pub record IsFormal (v : Json) : Type 0 where
  pub version : String
  pub version_text : v ≡ string version
  pub parsed : SemVer
  pub valid : parse_semver (string version) ≡ some parsed
  pub formal : parsed.prerelease ≡ none

parsed-IsFormal :
    (s : String) (p : Option SemVer)
    → parse_semver (string s) ≡ p
    → is_some p ≡ true
    → has_prerelease p ≡ false
    → IsFormal (string s)
parsed-IsFormal s none e v k = cc
parsed-IsFormal s (some p) e v k = record {
  version = s;
  version_text = refl;
  parsed = p;
  valid = e;
  formal = has_prerelease_of-none p.prerelease k;
}

is_valid_semver-IsFormal :
    (v : Json) → is_valid_semver v ≡ true → has_prerelease (parse_semver v) ≡ false → IsFormal v
unfolding is_valid_semver parse_semver
is_valid_semver-IsFormal (string s) v k = parsed-IsFormal s (parse_semver (string s)) refl v k
is_valid_semver-IsFormal undefined v k = cc
is_valid_semver-IsFormal null v k = cc
is_valid_semver-IsFormal (boolean b) v k = cc
is_valid_semver-IsFormal (number t) v k = cc
is_valid_semver-IsFormal (array vs) v k = cc
is_valid_semver-IsFormal (object fs) v k = cc
is_valid_semver-IsFormal (opaque t) v k = cc

pub valid_formal_version-IsFormal :
    (v : Json) (label : String) → valid_formal_version v label ≡ returned tt → IsFormal v
unfolding valid_formal_version
valid_formal_version-IsFormal v label k =
    let (c, u) =
      throw_if-returned (not (is_valid_semver v) || has_prerelease (parse_semver v)) _ _ tt k in
    let (valid, formal) = or-false (not (is_valid_semver v)) _ c in
    is_valid_semver-IsFormal v (not-false _ valid) formal

-- The tag of a version.
is_text-IsReleaseTag :
    (tag version : Json) (formal : IsFormal version)
    → is_text tag (b'v' ∷ text version) ≡ true
    → IsReleaseTag tag formal.version
unfolding text
is_text-IsReleaseTag tag version formal k =
    let (name, e, c) = is_text-codes tag _ k in
    record {
      name = name;
      tag_text = e;
      spelled = rw formal.version_text at c;
      parsed = formal.parsed;
      valid = formal.valid;
      formal = formal.formal;
    }

pub validate_tag-IsReleaseTag :
    (tag version : Json)
    → validate_tag tag version ≡ returned tt
    → (formal : IsFormal version) × IsReleaseTag tag formal.version
unfolding validate_tag
validate_tag-IsReleaseTag tag version k =
    let (u, k₁, k₂) = bind-returned (valid_formal_version version "release version") _ tt k in
    let formal = valid_formal_version-IsFormal version _ k₁ in
    let (c, k₃) = throw_if-returned (not (is_text tag (b'v' ∷ text version))) _ _ tt k₂ in
    (formal, is_text-IsReleaseTag tag version formal (not-false _ c))

-- Each of the sources is an object and gives the version.
abbrev pub GiveVersion : Json → String → List String → Type 0
GiveVersion version_sources version ids =
    All
      (λ id.
        (is_plain_object (get version_sources id) ≡ true)
        × (get (get version_sources id) "version" ≡ string version))
      ids

same_version_entries-GiveVersion :
    (vs : Json) (v : String) (ids : List String)
    → same_version_entries vs (string v) ids ≡ returned tt
    → GiveVersion vs v ids
unfolding same_version_entries
same_version_entries-GiveVersion vs v [] k = tt
same_version_entries-GiveVersion vs v (id ∷ ids) k =
    let (c, rest) =
      throw_if-returned
        (not (is_plain_object (get vs id)) || not (is_same (get (get vs id) "version") (string v)))
        _ _ tt k in
    let (plain, same) = or-false (not (is_plain_object (get vs id))) _ c in
    (
      (not-false _ plain, is_same-string _ v (not-false _ same)),
      same_version_entries-GiveVersion vs v ids rest,
    )

-- Just the five sources are there, and each gives the version.
pub record HasSources (version_sources : Json) (version : String) : Type 0 where
  pub only : exact_keys version_sources required_version_source_ids ≡ true
  pub versions : GiveVersion version_sources version required_version_source_ids

validate_version_sources-HasSources :
    (vs : Json) (v : String)
    → validate_version_sources vs (string v) ≡ returned tt
    → HasSources vs v
unfolding validate_version_sources
validate_version_sources-HasSources vs v k =
    let (plain, k₁) = throw_if-returned (not (is_plain_object vs)) _ _ tt k in
    let (only, k₂) =
      throw_if-returned (not (exact_keys vs required_version_source_ids)) _ _ tt k₁ in
    record {
      only = not-false _ only;
      versions = same_version_entries-GiveVersion vs v required_version_source_ids k₂;
    }

valid_commit-digest :
    (v : Json) (label : String)
    → valid_commit v label ≡ returned tt
    → (s : String) × (v ≡ string s) × (is_digest 40 (codes s) ≡ true)
unfolding valid_commit
valid_commit-digest v label k =
    let (c, u) = throw_if-returned (not (is_valid_commit v)) _ _ tt k in
    is_valid_commit-digest v (not-false _ c)

-- One commit is the source, checked out and tagged, in main, clean, with provenance and OIDC.
pub record IsReady (r : Request) (result : Json) : Type 0 where
  pub commit : String
  pub digest : is_digest 40 (codes commit) ≡ true
  pub source : r.source_commit ≡ string commit
  pub checkout : r.checkout_head ≡ string commit
  pub tagged : r.tag_commit ≡ string commit
  pub ancestry : r.main_ancestry ≡ boolean true
  pub clean : r.clean ≡ boolean true
  pub provenance : r.provenance_required ≡ boolean true
  pub oidc : r.oidc_required ≡ boolean true
  pub described : result ≡ operation_of r

require_state-IsReady :
    (r : Request) (result : Json) (s : String)
    → r.source_commit ≡ string s
    → is_digest 40 (codes s) ≡ true
    → require_state r ≡ returned result
    → IsReady r result
require_state-IsReady r result s e digest k =
    let (head, k₁) =
      throw_if-returned (not (is_same r.checkout_head r.source_commit)) _ _ result k in
    let (tagged, k₂) =
      throw_if-returned (not (is_same r.tag_commit r.source_commit)) _ _ result k₁ in
    let (ancestry, k₃) = throw_if-returned (not (is_true r.main_ancestry)) _ _ result k₂ in
    let (clean, k₄) = throw_if-returned (not (is_true r.clean)) _ _ result k₃ in
    let (provenance, k₅) = throw_if-returned (not (is_true r.provenance_required)) _ _ result k₄ in
    let (oidc, k₆) = throw_if-returned (not (is_true r.oidc_required)) _ _ result k₅ in
    let q : operation_of r ≡ result = ground arith in
    record {
      commit = s;
      digest = digest;
      source = e;
      checkout =
          is_same-string _ s (subst (λ w. is_same r.checkout_head w ≡ true) e (not-false _ head));
      tagged =
          is_same-string _ s (subst (λ w. is_same r.tag_commit w ≡ true) e (not-false _ tagged));
      ancestry = is_true-eq _ (not-false _ ancestry);
      clean = is_true-eq _ (not-false _ clean);
      provenance = is_true-eq _ (not-false _ provenance);
      oidc = is_true-eq _ (not-false _ oidc);
      described = sym q;
    }

require_commits-IsReady :
    (r : Request) (result : Json) → require_commits r ≡ returned result → IsReady r result
require_commits-IsReady r result k =
    let (u, k₁, k₂) =
      bind-returned (valid_commit r.source_commit "release source commit") _ result k in
    let (w, k₃, k₄) = bind-returned (valid_commit r.checkout_head "checkout HEAD") _ result k₂ in
    let (x, k₅, k₆) = bind-returned (valid_commit r.tag_commit "tag target commit") _ result k₄ in
    let (s, e, digest) = valid_commit-digest r.source_commit _ k₁ in
    require_state-IsReady r result s e digest k₆

-- A release operation that may start.
pub record IsApproved (r : Request) (result : Json) : Type 0 where
  pub environment : r.environment ≡ string "release"
  pub formal : IsFormal r.version
  pub tag : IsReleaseTag r.tag formal.version
  pub manifest : r.manifest_version ≡ string formal.version
  pub sources : HasSources r.version_sources formal.version
  pub ready : IsReady r result

-- When validateReleaseOperationIdentity returns, the job runs in the environment "release"; the
-- version has no prerelease, the tag is "v" and the version, the manifest has the version, and just
-- the five version sources are there, each with it; one commit with a valid id is the source of the
-- release, checked out and tagged, contained in main, in a clean checkout; provenance and OIDC are
-- required; and the result describes just this.
pub validate_release_operation_identity-IsApproved :
    (r : Request) (result : Json)
    → validate_release_operation_identity r ≡ returned result
    → IsApproved r result
unfolding validate_release_operation_identity
validate_release_operation_identity-IsApproved r result k =
    let (environment, k₁) =
      throw_if-returned (not (is_string r.environment "release")) _ _ result k in
    let (u, k₂, k₃) = bind-returned (validate_tag r.tag r.version) _ result k₁ in
    let (formal, tag) = validate_tag-IsReleaseTag r.tag r.version k₂ in
    let (manifest, k₄) =
      throw_if-returned (not (is_same r.manifest_version r.version)) _ _ result k₃ in
    let (w, k₅, k₆) =
      bind-returned (validate_version_sources r.version_sources r.version) _ result k₄ in
    record {
      environment = is_string-eq _ _ (not-false _ environment);
      formal = formal;
      tag = tag;
      manifest = is_same-string _ formal.version (
          subst (λ v. is_same r.manifest_version v ≡ true) formal.version_text
            (not-false _ manifest));
      sources = validate_version_sources-HasSources r.version_sources formal.version (
          subst (λ v. validate_version_sources r.version_sources v ≡ returned tt)
            formal.version_text k₅);
      ready = require_commits-IsReady r result k₆;
    }
