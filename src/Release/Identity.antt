-- ===== src/Release/Identity.antt =====
-- scripts/release-identity.mjs: validateTagEvent and validateReleaseIdentity.
pub mod Formal
pub mod Accepted
use symbol_nem_wallet_core.Prelude.{
  ℕ, String, Bool, true, false, not, ◌&&◌, ◌||◌, Option, none, some, List, [], ◌∷◌, ◌++◌, codes,
  same_codes, ◌==◌, map,
}
use Prim.Native.String
use symbol_nem_wallet_core.Js.Json.{
  Json, undefined, null, boolean, number, string, array, object, opaque, is_plain_object, get,
  is_string, is_same, is_true, is_false, throw_if, text,
}
use symbol_nem_wallet_core.Js.Outcome.{Outcome, returned, thrown, ◌>>=◌, ◌>>◌}
use symbol_nem_wallet_core.Release.SemVer.{is_valid_commit, cut}
use symbol_nem_wallet_core.Release.Versions.{
  Source, release_version_sources, gate, validate_version_sources, validate_tag,
}

-- ZERO_COMMIT
abbrev pub zero_commit : String
zero_commit = "0000000000000000000000000000000000000000"

-- `refs/tags/${tag}`, as codes
abbrev pub tag_ref : Json → List ℕ
tag_ref tag = codes "refs/tags/" ++ text tag

abbrev pub is_text : Json → List ℕ → Bool
is_text (string s) cs = same_codes (codes s) cs
is_text _ cs = false

unfoldable pub tag_event_differs : Json → Json → Bool
tag_event_differs tag event =
    not (is_text (get event "ref") (tag_ref tag))
    || not (is_true (get event "created"))
    || not (is_false (get event "deleted"))
    || not (is_false (get event "forced"))
    || not (is_string (get event "before") zero_commit)

unfoldable pub validate_tag_event : Json → Json → Outcome (Unit {0})
validate_tag_event tag event =
    throw_if (not (is_plain_object event)) (gate "GitHub tag creation event is unavailable") (
      throw_if (tag_event_differs tag event)
        (gate "tag event is not an unforced creation of the exact release tag") (returned tt))

unfoldable pub same_versions : Json → Json → List Source → Outcome (Unit {0})
same_versions version_sources version [] = returned tt
same_versions version_sources version (source ∷ sources) =
    throw_if (not (is_same (get (get version_sources source.id) "version") version))
      (gate (String.◌++◌ "release version mismatch: " source.relative_path))
      (same_versions version_sources version sources)

-- /(^|\/)main$/
abbrev pub ends_in_main : List ℕ → Bool
ends_in_main [] = false
ends_in_main (c ∷ cs) = c == b'/' && same_codes cs (codes "main") || ends_in_main cs

unfoldable pub is_main_ref : Json → Bool
is_main_ref (string s) = same_codes (codes s) (codes "main") || ends_in_main (codes s)
is_main_ref _ = false

-- The checks of the commits and the checkout, in front of the result.
abbrev pub require_commits {ℓ} : {A : Type ℓ} → Json → Outcome A → Outcome A
require_commits input rest =
    throw_if (not (is_true (get input "tagRefExists"))) (gate "release tag ref does not exist") (
      throw_if (not (is_valid_commit (get input "checkoutHead"))) (gate "checkout HEAD is invalid")
        (throw_if (not (is_valid_commit (get input "sourceCommit")))
          (gate "release source commit is invalid")
          (throw_if (not (is_valid_commit (get input "tagCommit")))
            (gate "tag target commit is invalid")
            (throw_if (not (is_valid_commit (get input "mainRefCommit")))
              (gate "main ref commit is unavailable") rest))))

abbrev pub require_agreement {ℓ} : {A : Type ℓ} → Json → Outcome A → Outcome A
require_agreement input rest =
    throw_if (not (is_same (get input "checkoutHead") (get input "sourceCommit")))
      (gate "checkout HEAD differs from release source commit")
      (throw_if (not (is_same (get input "tagCommit") (get input "sourceCommit")))
        (gate "tag target differs from release source commit")
        (throw_if (not (is_main_ref (get input "mainRef"))) (gate "release source ref is not main")
          (throw_if (not (is_true (get input "mainAncestry")))
            (gate "release source commit is not contained in main")
            (throw_if (not (is_true (get input "clean")))
              (gate "release source checkout is not clean") rest))))

-- The fields of the result that are not constants, by their names.
pub record ReleaseIdentity : Type 0 where
  pub version : Json
  pub tag : Json
  pub tag_version : String
  pub tag_ref : List ℕ
  pub tag_event_ref : Json
  pub checkout_head : Json
  pub source_commit : Json
  pub tag_commit : Json
  pub main_ref : Json
  pub main_ref_commit : Json
  pub version_sources : List (String × Json)

abbrev pub identity_of : Json → Json → String → ReleaseIdentity
identity_of input version tag_version = record {
  version = version;
  tag = get input "tag";
  tag_version = tag_version;
  tag_ref = tag_ref (get input "tag");
  tag_event_ref = get (get input "tagEvent") "ref";
  checkout_head = get input "checkoutHead";
  source_commit = get input "sourceCommit";
  tag_commit = get input "tagCommit";
  main_ref = get input "mainRef";
  main_ref_commit = get input "mainRefCommit";
  version_sources =
      map (λ s. (s.id, get (get input "versionSources") s.id)) release_version_sources;
}

-- input.versionSources.npm.version
abbrev pub version_of : Json → Json
version_of input = get (get (get input "versionSources") "npm") "version"

unfoldable pub validate_release_identity : Json → Outcome ReleaseIdentity
validate_release_identity input =
    throw_if (not (is_plain_object input) || not (is_string (get input "mode") "release"))
      (gate "only formal release mode is supported")
      (validate_version_sources (get input "versionSources")
        >> same_versions (get input "versionSources") (version_of input) release_version_sources
        >> (validate_tag (get input "tag") (version_of input) >>= λ tag_version.
            validate_tag_event (get input "tag") (get input "tagEvent")
            >> require_commits input (
                require_agreement input
                  (returned (identity_of input (version_of input) tag_version)))))
