-- ===== src/Release/Identity/Formal.antt =====
-- scripts/release-identity.mjs: what a tag and the version sources of a formal release are.
use symbol_nem_wallet_core.Prelude.{
  ℕ, String, true, false, not, Option, none, some, List, [], ◌∷◌, ◌≡◌, refl, codes, ◌==◌, All,
  Bool-cases, inl, inr, arith, not-false,
}
use Prim.Native.Char
use symbol_nem_wallet_core.Js.Json.{
  Json, undefined, null, boolean, number, string, array, object, opaque, get, is_string,
  is_string-eq, is_same, throw_if-returned,
}
use symbol_nem_wallet_core.Js.Outcome.{returned, bind-returned}
use symbol_nem_wallet_core.Release.SemVer.{SemVer, parse_semver}
use symbol_nem_wallet_core.Release.Versions.{
  Source, gate, after_v, has_prerelease_of, formal_version, tag_version, release_tag_version,
  validate_tag,
}
use symbol_nem_wallet_core.Release.Identity.{same_versions}

-- The tag is "v" and a version without a prerelease.
pub record IsReleaseTag (tag : Json) (version : String) : Type 0 where
  pub name : String
  pub tag_text : tag ≡ string name
  pub spelled : codes name ≡ b'v' ∷ codes version
  pub parsed : SemVer
  pub valid : parse_semver (string version) ≡ some parsed
  pub formal : parsed.prerelease ≡ none

after_v-codes : (s rest : String) → after_v s ≡ some rest → codes s ≡ b'v' ∷ codes rest
after_v-codes String.[] rest k = cc
after_v-codes (String.◌∷◌ c s) rest k = elim (Bool-cases (Char.code c == b'v')) [
  | inl e ↦
      let q : Char.code c ≡ b'v' = ground arith in
      let r : some s ≡ some rest = rw e at k in let t : s ≡ rest = ground arith in rw (q, t) refl
  | inr e ↦ cc (rw e at k)
]

pub has_prerelease_of-none : (p : Option (List ℕ)) → has_prerelease_of p ≡ false → p ≡ none
has_prerelease_of-none none k = refl
has_prerelease_of-none (some cs) k = cc

formal_version-IsReleaseTag :
    (name rest v : String) (found : Option SemVer)
    → codes name ≡ b'v' ∷ codes rest
    → parse_semver (string rest) ≡ found
    → formal_version rest found ≡ returned v
    → IsReleaseTag (string name) v
formal_version-IsReleaseTag name rest v none spelled valid k = cc
formal_version-IsReleaseTag name rest v (some parsed) spelled valid k =
    let (p, q) =
      throw_if-returned (has_prerelease_of parsed.prerelease)
        (gate "pre-release tags are not accepted for a formal release") (returned rest) v k in
    let e : rest ≡ v = ground arith in
    record {
      name = name;
      tag_text = refl;
      spelled = rw e at spelled;
      parsed = parsed;
      valid = rw e at valid;
      formal = has_prerelease_of-none parsed.prerelease p;
    }

tag_version-IsReleaseTag :
    (name v : String) (after : Option String)
    → after_v name ≡ after
    → tag_version after ≡ returned v
    → IsReleaseTag (string name) v
tag_version-IsReleaseTag name v none e k = cc
tag_version-IsReleaseTag name v (some rest) e k =
    formal_version-IsReleaseTag name rest v (parse_semver (string rest)) (after_v-codes name rest e)
      refl k

pub release_tag_version-IsReleaseTag :
    (tag : Json) (v : String) → release_tag_version tag ≡ returned v → IsReleaseTag tag v
unfolding release_tag_version
release_tag_version-IsReleaseTag (string name) v k =
    tag_version-IsReleaseTag name v (after_v name) refl k
release_tag_version-IsReleaseTag undefined v k = cc
release_tag_version-IsReleaseTag null v k = cc
release_tag_version-IsReleaseTag (boolean b) v k = cc
release_tag_version-IsReleaseTag (number t) v k = cc
release_tag_version-IsReleaseTag (array vs) v k = cc
release_tag_version-IsReleaseTag (object fs) v k = cc
release_tag_version-IsReleaseTag (opaque t) v k = cc

pub validate_tag-IsReleaseTag :
    (tag version : Json) (v : String)
    → validate_tag tag version ≡ returned v
    → (version ≡ string v) × IsReleaseTag tag v
unfolding validate_tag
validate_tag-IsReleaseTag tag version v k =
    let (found, f, r) = bind-returned (release_tag_version tag) _ v k in
    let (same, q) =
      throw_if-returned (not (is_string version found))
        (gate "tag version does not match manifest version") (returned found) v r in
    let e : found ≡ v = ground arith in
    (
      rw e at (is_string-eq version found (not-false _ same)),
      rw e at (release_tag_version-IsReleaseTag tag found f),
    )

-- Each source gives the version.
abbrev pub HaveVersion : Json → Json → List Source → Type 0
HaveVersion version_sources version sources =
    All (λ s. is_same (get (get version_sources s.id) "version") version ≡ true) sources

pub same_versions-HaveVersion :
    (vs v : Json) (sources : List Source)
    → same_versions vs v sources ≡ returned tt
    → HaveVersion vs v sources
unfolding same_versions
same_versions-HaveVersion vs v [] k = tt
same_versions-HaveVersion vs v (s ∷ ss) k =
    let (same, rest) = throw_if-returned (not (is_same (get (get vs s.id) "version") v)) _ _ tt k in
    (not-false _ same, same_versions-HaveVersion vs v ss rest)
