-- ===== src/Release/Identity/Accepted.antt =====
-- scripts/release-identity.mjs: what a release whose identity is accepted looks like.
use symbol_nem_wallet_core.Prelude.{
  ℕ, String, true, false, not, ◌||◌, List, ◌≡◌, refl, codes, arith, ap, or-false, not-false,
  same_codes-eq, sym, ◌∙◌, subst,
}
use symbol_nem_wallet_core.Js.Json.{
  Json, undefined, null, boolean, number, string, array, object, opaque, get, is_plain_object,
  is_string, is_string-eq, is_same, is_same-string, is_true, is_true-eq, is_false, is_false-eq,
  throw_if-returned,
}
use symbol_nem_wallet_core.Js.Outcome.{Outcome, returned, ◌>>◌, bind-returned}
use symbol_nem_wallet_core.Manifest.Versions.{is_digest}
use symbol_nem_wallet_core.Release.SemVer.{is_valid_commit}
use symbol_nem_wallet_core.Release.Versions.{
  release_version_sources, validate_version_sources, validate_tag,
}
use symbol_nem_wallet_core.Release.Identity.{
  zero_commit, tag_ref, is_text, tag_event_differs, validate_tag_event, same_versions, is_main_ref,
  require_commits, require_agreement, ReleaseIdentity, identity_of, version_of,
  validate_release_identity,
}
use symbol_nem_wallet_core.Release.Identity.Formal.{
  IsReleaseTag, validate_tag-IsReleaseTag, HaveVersion, same_versions-HaveVersion,
}

-- One commit of main is checked out, tagged and released.
pub record AtCommit (input : Json) : Type 0 where
  pub commit : String
  pub digest : is_digest 40 (codes commit) ≡ true
  pub source : get input "sourceCommit" ≡ string commit
  pub checkout : get input "checkoutHead" ≡ string commit
  pub tagged : get input "tagCommit" ≡ string commit
  pub main : is_main_ref (get input "mainRef") ≡ true
  pub ancestry : get input "mainAncestry" ≡ boolean true
  pub clean : get input "clean" ≡ boolean true
  pub main_commit : is_valid_commit (get input "mainRefCommit") ≡ true

pub is_valid_commit-digest :
    (v : Json)
    → is_valid_commit v ≡ true
    → (s : String) × (v ≡ string s) × (is_digest 40 (codes s) ≡ true)
unfolding is_valid_commit
is_valid_commit-digest (string s) k = (s, refl, k)
is_valid_commit-digest undefined k = cc
is_valid_commit-digest null k = cc
is_valid_commit-digest (boolean b) k = cc
is_valid_commit-digest (number t) k = cc
is_valid_commit-digest (array vs) k = cc
is_valid_commit-digest (object fs) k = cc
is_valid_commit-digest (opaque t) k = cc

require_agreement-AtCommit :
    {A : Type 0} (input : Json) (rest : Outcome A) (a : A)
    → is_valid_commit (get input "sourceCommit") ≡ true
    → is_valid_commit (get input "mainRefCommit") ≡ true
    → require_agreement input rest ≡ returned a
    → AtCommit input × (rest ≡ returned a)
require_agreement-AtCommit input rest a valid main_valid k =
    let (commit, e, digest) = is_valid_commit-digest (get input "sourceCommit") valid in
    let (head, k₁) =
      throw_if-returned (not (is_same (get input "checkoutHead") (get input "sourceCommit"))) _ _ a
        k in
    let (tagged, k₂) =
      throw_if-returned (not (is_same (get input "tagCommit") (get input "sourceCommit"))) _ _ a
        k₁ in
    let (main, k₃) = throw_if-returned (not (is_main_ref (get input "mainRef"))) _ _ a k₂ in
    let (ancestry, k₄) = throw_if-returned (not (is_true (get input "mainAncestry"))) _ _ a k₃ in
    let (clean, k₅) = throw_if-returned (not (is_true (get input "clean"))) _ _ a k₄ in
    (
      record {
        commit = commit;
        digest = digest;
        source = e;
        checkout = is_same-string _ commit (rw e at (not-false _ head));
        tagged = is_same-string _ commit (rw e at (not-false _ tagged));
        main = not-false _ main;
        ancestry = is_true-eq _ (not-false _ ancestry);
        clean = is_true-eq _ (not-false _ clean);
        main_commit = main_valid;
      },
      k₅,
    )

require_commits-AtCommit :
    {A : Type 0} (input : Json) (rest : Outcome A) (a : A)
    → require_commits input (require_agreement input rest) ≡ returned a
    → AtCommit input × (rest ≡ returned a)
require_commits-AtCommit input rest a k =
    let (exists, k₁) = throw_if-returned (not (is_true (get input "tagRefExists"))) _ _ a k in
    let (head, k₂) =
      throw_if-returned (not (is_valid_commit (get input "checkoutHead"))) _ _ a k₁ in
    let (source, k₃) =
      throw_if-returned (not (is_valid_commit (get input "sourceCommit"))) _ _ a k₂ in
    let (tagged, k₄) = throw_if-returned (not (is_valid_commit (get input "tagCommit"))) _ _ a k₃ in
    let (main, k₅) =
      throw_if-returned (not (is_valid_commit (get input "mainRefCommit"))) _ _ a k₄ in
    require_agreement-AtCommit input rest a (not-false _ source) (not-false _ main) k₅

-- The event that created the tag.
pub record IsTagCreation (tag event : Json) : Type 0 where
  pub ref : String
  pub ref_text : get event "ref" ≡ string ref
  pub names : codes ref ≡ tag_ref tag
  pub created : get event "created" ≡ boolean true
  pub deleted : get event "deleted" ≡ boolean false
  pub forced : get event "forced" ≡ boolean false
  pub before : get event "before" ≡ string zero_commit

pub is_text-codes :
    (v : Json) (cs : List ℕ) → is_text v cs ≡ true → (s : String) × (v ≡ string s) × (codes s ≡ cs)
is_text-codes (string s) cs k = (s, refl, same_codes-eq (codes s) cs k)
is_text-codes undefined cs k = cc
is_text-codes null cs k = cc
is_text-codes (boolean b) cs k = cc
is_text-codes (number t) cs k = cc
is_text-codes (array vs) cs k = cc
is_text-codes (object fs) cs k = cc
is_text-codes (opaque t) cs k = cc

validate_tag_event-IsTagCreation :
    (tag event : Json) → validate_tag_event tag event ≡ returned tt → IsTagCreation tag event
unfolding validate_tag_event tag_event_differs
validate_tag_event-IsTagCreation tag event k =
    let (plain, k₁) = throw_if-returned (not (is_plain_object event)) _ _ tt k in
    let (same, k₂) = throw_if-returned (tag_event_differs tag event) _ _ tt k₁ in
    let (s₄, before) = or-false _ (not (is_string (get event "before") zero_commit)) same in
    let (s₃, forced) = or-false _ (not (is_false (get event "forced"))) s₄ in
    let (s₂, deleted) = or-false _ (not (is_false (get event "deleted"))) s₃ in
    let (ref, created) =
      or-false (not (is_text (get event "ref") (tag_ref tag))) (not (is_true (get event "created")))
        s₂ in
    let (r, e, c) = is_text-codes (get event "ref") (tag_ref tag) (not-false _ ref) in
    record {
      ref = r;
      ref_text = e;
      names = c;
      created = is_true-eq _ (not-false _ created);
      deleted = is_false-eq _ (not-false _ deleted);
      forced = is_false-eq _ (not-false _ forced);
      before = is_string-eq _ _ (not-false _ before);
    }

-- A formal release, as the result describes it.
pub record IsRelease (input : Json) (result : ReleaseIdentity) : Type 0 where
  pub version : String
  pub described : result ≡ identity_of input (string version) version
  pub tag : IsReleaseTag (get input "tag") version
  pub sources : HaveVersion (get input "versionSources") (string version) release_version_sources
  pub creation : IsTagCreation (get input "tag") (get input "tagEvent")
  pub commit : AtCommit input

assemble :
    (input version : Json) (v : String) (r : ReleaseIdentity)
    → version ≡ string v
    → IsReleaseTag (get input "tag") v
    → HaveVersion (get input "versionSources") version release_version_sources
    → IsTagCreation (get input "tag") (get input "tagEvent")
    → AtCommit input × (returned (identity_of input version v) ≡ returned r)
    → IsRelease input r
assemble input version v r same tag sources creation (commit, end) =
    let e : identity_of input version v ≡ r = ground arith in
    record {
      version = v;
      described = sym e ∙ ap (λ w. identity_of input w v) same;
      tag = tag;
      sources =
          subst (λ w. HaveVersion (get input "versionSources") w release_version_sources) same
            sources;
      creation = creation;
      commit = commit;
    }

-- When the identity of a release is accepted, every version source gives the version of the tag,
-- which is "v" and a version without a prerelease; an event created that tag; and one commit with a
-- valid id is the source of the release, checked out, tagged, and contained in main, in a clean
-- checkout. The result describes just this.
pub validate_release_identity-IsRelease :
    (input : Json) (result : ReleaseIdentity)
    → validate_release_identity input ≡ returned result
    → IsRelease input result
unfolding validate_release_identity
validate_release_identity-IsRelease input r k =
    let sources = get input "versionSources" in
    let (mode, k₁) =
      throw_if-returned
        (not (is_plain_object input) || not (is_string (get input "mode") "release")) _ _ r k in
    let (u, k₂, k₃) =
      bind-returned
        (validate_version_sources sources
          >> same_versions sources (version_of input) release_version_sources)
        _ r k₁ in
    let (w, k₄, k₅) = bind-returned (validate_version_sources sources) _ u k₂ in
    let (v, k₆, k₇) = bind-returned (validate_tag (get input "tag") (version_of input)) _ r k₃ in
    let (x, k₈, k₉) =
      bind-returned (validate_tag_event (get input "tag") (get input "tagEvent")) _ r k₇ in
    let (same, tag) = validate_tag-IsReleaseTag (get input "tag") (version_of input) v k₆ in
    assemble input (version_of input) v r same tag
      (same_versions-HaveVersion sources (version_of input) release_version_sources k₅)
      (validate_tag_event-IsTagCreation _ _ k₈)
      (require_commits-AtCommit input (returned (identity_of input (version_of input) v)) r k₉)
