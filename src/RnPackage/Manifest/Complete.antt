-- ===== src/RnPackage/Manifest/Complete.antt =====
-- packages/wallet-core/src/react-native-manifest.mjs and react-native/native-module.mjs: a complete
-- manifest is what the React Native entry point expects.
use symbol_nem_wallet_core.Prelude.{
  ℕ, zero, suc, ◌+◌, ◌≤◌, ◌<◌, String, Bool, true, false, not, ◌&&◌, ◌||◌, Option, none, some, List,
  [], ◌∷◌, ◌≡◌, refl, sym, ap, ◌∙◌, subst, arith, codes, length, contains, leb, ◌==◌, ◌===◌,
  includes, eq_iff, Bool-cases, inl, inr, or-false, not-false,
}
use symbol_nem_wallet_core.Js.Json.{
  Json, undefined, null, boolean, number, string, array, object, opaque, is_plain_object, get,
  is_string, is_number, is_same, text, exact_keys, throw_if-returned,
}
use symbol_nem_wallet_core.Js.Outcome.{returned-eq, returned, bind-returned}
use symbol_nem_wallet_core.Manifest.Versions.{is_empty, is_digest, is_version}
use symbol_nem_wallet_core.Operation.{is_text_value}
use symbol_nem_wallet_core.Operation.Spdx.{element_list, is_array}
use symbol_nem_wallet_core.ReactNative.Identities.{
  Expected, expected_artifacts, is_text_of, manifest_differs, has_expected_length, artifact_differs,
  collect_identities, items_of, manifest_artifact_identities,
}
use symbol_nem_wallet_core.RnPackage.{react_native_targets, find_from, find_target}
use symbol_nem_wallet_core.RnPackage.Manifest.{
  non_empty_string, valid_package_version, artifact_keys, header_differs, differs_from,
  check_target, check_named, check_artifact, check_artifacts, validate_react_native_manifest,
}

-- The targets from a place on.
abbrev pub from_place : ℕ → List Expected → List Expected
from_place zero targets = targets
from_place (suc n) [] = []
from_place (suc n) (t ∷ ts) = from_place n ts

-- A target among some, with its index, counted from one behind a number.
pub record At (n : ℕ) (targets : List Expected) (index : ℕ) (target : Expected) : Type 0 where
  pub place : ℕ
  pub one_more : index ≡ suc (n + place)
  pub within : suc place ≤ length targets
  pub there : from_place place targets ≡ target ∷ from_place (suc place) targets

find_from-At :
    (n : ℕ) (targets : List Expected) (id : String) (index : ℕ) (target : Expected)
    → find_from n targets id ≡ some (index, target)
    → (target.target_id ≡ id) × At n targets index target
find_from-At n [] id index target k = cc
find_from-At n (t ∷ ts) id index target k = elim (Bool-cases (t.target_id === id)) [
  | inl e ↦
      let c : ◌≡◌ {A = Option (ℕ × Expected)} (some (suc n, t)) (some (index, target)) =
        rw e at k in
      let q : suc n ≡ index = ground arith in
      let r : t ≡ target = ground arith in
      (
        subst (λ w. w.target_id ≡ id) r ((eq_iff t.target_id id).0 e),
        record {
          place = zero;
          one_more = omega (arith, q);
          within = omega arith;
          there = ap (λ w. w ∷ ts) r;
        },
      )
  | inr e ↦
      let (same, at) = find_from-At (suc n) ts id index target (rw e at k) in
      (
        same,
        record {
          place = suc at.place;
          one_more = omega (arith, at.one_more);
          within = omega (arith, at.within);
          there = at.there;
        },
      )
]

-- An artifact that the loop accepts behind an index.
pub record Fits (previous : ℕ) (artifact : Json) (index : ℕ) : Type 0 where
  pub target : Expected
  pub at_place : At 0 expected_artifacts index target
  pub later : previous < index
  pub same : artifact_differs artifact target ≡ false

or-both : (a b : Bool) → a ≡ false → b ≡ false → (a || b) ≡ false
or-both a b e f = rw (e, f) refl

non_empty-text : (v : Json) → non_empty_string v ≡ is_text_of (λ cs. not (is_empty cs)) v
non_empty-text (string s) = refl
non_empty-text undefined = refl
non_empty-text null = refl
non_empty-text (boolean b) = refl
non_empty-text (number t) = refl
non_empty-text (array vs) = refl
non_empty-text (object fs) = refl
non_empty-text (opaque t) = refl

differs_from-same :
    (artifact : Json) (target : Expected) (id : String)
    → is_plain_object artifact ≡ true
    → get artifact "target_id" ≡ string id
    → target.target_id ≡ id
    → exact_keys artifact artifact_keys ≡ true
    → differs_from artifact target ≡ false
    → artifact_differs artifact target ≡ false
unfolding differs_from artifact_differs exact_keys
differs_from-same artifact target id plain named same keyed d =
    let (d₁, slash) =
      or-false _ (includes (codes "/") (text (get artifact "artifact_filename"))) d in
    let (d₂, dots) = or-false _ (includes (codes "..") (text (get artifact "relative_path"))) d₁ in
    let (d₃, back) = or-false _ (includes (codes "\\") (text (get artifact "relative_path"))) d₂ in
    let (d₄, toolchain) =
      or-false _ (not (non_empty_string (get artifact "toolchain_identifier"))) d₃ in
    let (d₅, sha) = or-false _ (not (is_digest 64 (text (get artifact "sha256")))) d₄ in
    let (d₆, filename) =
      or-false _ (not (is_string (get artifact "artifact_filename") target.artifact_filename)) d₅ in
    let (d₇, path) =
      or-false _ (not (is_string (get artifact "relative_path") target.relative_path)) d₆ in
    let (d₈, architecture) =
      or-false _ (not (is_string (get artifact "architecture") target.architecture)) d₇ in
    let (platform, environment) =
      or-false (not (is_string (get artifact "platform") target.platform)) _ d₈ in
    let name : not (is_string (get artifact "target_id") target.target_id) ≡ false =
      rw (named, (eq_iff id target.target_id).1 (sym same)) refl in
    or-both _ _
      (or-both _ _
        (or-both _ _
          (or-both _ _
            (or-both _ _
              (or-both _ _
                (or-both _ _
                  (or-both _ _
                    (or-both (not (is_plain_object artifact)) _ (rw plain refl) (rw keyed refl))
                    name)
                  platform)
                environment)
              architecture)
            path)
          filename)
        sha)
      (ap not (sym (non_empty-text (get artifact "toolchain_identifier"))) ∙ toolchain)

check_target-Fits :
    (previous : ℕ) (artifact : Json) (id : String) (found : Option (ℕ × Expected)) (index : ℕ)
    → find_target id ≡ found
    → is_plain_object artifact ≡ true
    → get artifact "target_id" ≡ string id
    → check_target previous artifact found ≡ returned index
    → Fits previous artifact index
unfolding check_target find_target
check_target-Fits previous artifact id none index e plain named k = cc
check_target-Fits previous artifact id (some (i, target)) index e plain named k =
    let (keyed, k₁) = throw_if-returned (not (exact_keys artifact artifact_keys)) _ _ index k in
    let (later, k₂) = throw_if-returned (leb i previous) _ _ index k₁ in
    let (same, k₃) = throw_if-returned (differs_from artifact target) _ _ index k₂ in
    let q : i ≡ index = ground arith in
    let (name, at) = find_from-At 0 react_native_targets id i target e in
    subst (Fits previous artifact) q (record {
      target = target;
      at_place = at;
      later = ground arith;
      same = differs_from-same artifact target id plain named name (not-false _ keyed) same;
    })

check_named-Fits :
    (seen : List String) (previous : ℕ) (artifact v : Json) (next : String × ℕ)
    → is_plain_object artifact ≡ true
    → get artifact "target_id" ≡ v
    → check_named seen previous artifact v ≡ returned next
    → Fits previous artifact next.1
check_named-Fits seen previous artifact (string id) next plain named k =
    let (c, k₁) = throw_if-returned (is_empty (codes id) || contains seen id) _ _ next k in
    let (index, k₂, k₃) =
      bind-returned (check_target previous artifact (find_target id)) _ next k₁ in
    let q : index ≡ next.1 = ap (λ w. w.1) (returned-eq (id, index) next k₃) in
    subst (Fits previous artifact) q
      (check_target-Fits previous artifact id (find_target id) index refl plain named k₂)
check_named-Fits seen previous artifact undefined next plain named k = cc
check_named-Fits seen previous artifact null next plain named k = cc
check_named-Fits seen previous artifact (boolean b) next plain named k = cc
check_named-Fits seen previous artifact (number t) next plain named k = cc
check_named-Fits seen previous artifact (array vs) next plain named k = cc
check_named-Fits seen previous artifact (object fs) next plain named k = cc
check_named-Fits seen previous artifact (opaque t) next plain named k = cc

check_artifact-Fits :
    (seen : List String) (previous : ℕ) (artifact : Json) (next : String × ℕ)
    → check_artifact seen previous artifact ≡ returned next
    → Fits previous artifact next.1
unfolding check_artifact
check_artifact-Fits seen previous artifact next k =
    let (plain, k₁) = throw_if-returned (not (is_plain_object artifact)) _ _ next k in
    check_named-Fits seen previous artifact (get artifact "target_id") next (not-false _ plain) refl
      k₁

-- No more artifacts than there are places left, and as many ids as artifacts.
check_artifacts-few :
    (seen : List String) (previous : ℕ) (artifacts : List Json) (ids : List String)
    → previous ≤ 4
    → check_artifacts seen previous artifacts ≡ returned ids
    → (previous + length artifacts ≤ 4) × (length ids ≡ length seen + length artifacts)
unfolding check_artifacts
check_artifacts-few seen previous [] ids l k =
    let q : seen ≡ ids = ground arith in (omega (arith, l), omega (arith, ap length q))
check_artifacts-few seen previous (artifact ∷ artifacts) ids l k =
    let (next, k₁, k₂) = bind-returned (check_artifact seen previous artifact) _ ids k in
    let fits = check_artifact-Fits seen previous artifact next k₁ in
    let at = fits.at_place in
    let (few, counted) =
      check_artifacts-few (next.0 ∷ seen) next.1 artifacts ids
        (omega (arith, at.one_more, at.within)) k₂ in
    (omega (arith, few, fits.later), omega (arith, counted))

-- The identities that the entry point collects for some targets.
abbrev pub identities_of : List Expected → List (String × String)
identities_of [] = []
identities_of (t ∷ ts) = (t.target_id, t.artifact_identity) ∷ identities_of ts

-- Where as many artifacts are left as places, each stands at its place.
check_artifacts-collected :
    (seen : List String) (previous : ℕ) (artifacts : List Json) (ids : List String)
    → previous + length artifacts ≡ 4
    → check_artifacts seen previous artifacts ≡ returned ids
    → collect_identities artifacts (from_place previous expected_artifacts)
      ≡ returned (identities_of (from_place previous expected_artifacts))
unfolding check_artifacts collect_identities
check_artifacts-collected seen previous [] ids l k =
    let q : previous ≡ 4 = omega (arith, l) in rw q refl
check_artifacts-collected seen previous (artifact ∷ artifacts) ids l k =
    let (next, k₁, k₂) = bind-returned (check_artifact seen previous artifact) _ ids k in
    let fits = check_artifact-Fits seen previous artifact next k₁ in
    let at = fits.at_place in
    let (few, counted) =
      check_artifacts-few (next.0 ∷ seen) next.1 artifacts ids
        (omega (arith, at.one_more, at.within)) k₂ in
    let q : at.place ≡ previous = omega (arith, few, fits.later, at.one_more, l) in
    let r : next.1 ≡ suc previous = omega (arith, q, at.one_more) in
    let there =
      subst
        (λ p. from_place p expected_artifacts ≡ fits.target ∷ from_place (suc p) expected_artifacts)
        q at.there in
    let rest : collect_identities artifacts (from_place (suc previous) expected_artifacts)
        ≡ returned (identities_of (from_place (suc previous) expected_artifacts)) =
      check_artifacts-collected (next.0 ∷ seen) (suc previous) artifacts ids (omega (arith, l))
        (subst (λ p. check_artifacts (next.0 ∷ seen) p artifacts ≡ returned ids) r k₂) in
    subst (λ w. collect_identities (artifact ∷ artifacts) w ≡ returned (identities_of w))
      (sym there) (rw (fits.same, rest) refl)

version-text : (v : Json) → valid_package_version v ≡ is_text_of is_version v
version-text (string s) = refl
version-text undefined = refl
version-text null = refl
version-text (boolean b) = refl
version-text (number t) = refl
version-text (array vs) = refl
version-text (object fs) = refl
version-text (opaque t) = refl

commit-text :
    (v : Json)
    → is_text_value v ≡ true
    → is_digest 40 (text v) ≡ true
    → is_text_of (is_digest 40) v ≡ true
unfolding text
commit-text (string s) e k = k
commit-text undefined e k = cc
commit-text null e k = cc
commit-text (boolean b) e k = cc
commit-text (number t) e k = cc
commit-text (array vs) e k = cc
commit-text (object fs) e k = cc
commit-text (opaque t) e k = cc

array-length :
    (v : Json) → is_array v ≡ true → length (element_list v) ≡ 4 → has_expected_length v ≡ true
array-length (array vs) e k = rw k refl
array-length undefined e k = cc
array-length null e k = cc
array-length (boolean b) e k = cc
array-length (number t) e k = cc
array-length (string s) e k = cc
array-length (object fs) e k = cc
array-length (opaque t) e k = cc

items_of-elements : (v : Json) → items_of v ≡ element_list v
items_of-elements (array vs) = refl
items_of-elements undefined = refl
items_of-elements null = refl
items_of-elements (boolean b) = refl
items_of-elements (number t) = refl
items_of-elements (string s) = refl
items_of-elements (object fs) = refl
items_of-elements (opaque t) = refl

header-same :
    (manifest package_meta : Json)
    → is_plain_object manifest ≡ true
    → is_text_value (get manifest "source_commit") ≡ true
    → length (element_list (get manifest "artifacts")) ≡ 4
    → header_differs manifest package_meta ≡ false
    → manifest_differs manifest ≡ false
unfolding header_differs manifest_differs exact_keys
header-same manifest package_meta plain commit four d =
    let (d₁, is_list) = or-false _ (not (is_array (get manifest "artifacts"))) d in
    let (d₂, source) = or-false _ (not (is_digest 40 (text (get manifest "source_commit")))) d₁ in
    let (d₃, version) =
      or-false _ (not (valid_package_version (get manifest "package_version"))) d₂ in
    let (d₄, same_version) =
      or-false _ (not (is_same (get manifest "package_version") (get package_meta "version"))) d₃ in
    let (d₅, same_name) =
      or-false _ (not (is_same (get manifest "package_name") (get package_meta "name"))) d₄ in
    let (d₆, name) =
      or-false _ (not (is_string (get manifest "package_name") "@nemnesia/symbol-nem-wallet-core"))
        d₅ in
    let (keyed, schema) = or-false _ (not (is_number (get manifest "schema_version") "1")) d₆ in
    or-both _ _
      (or-both _ _
        (or-both _ _
          (or-both _ _
            (or-both _ _ (or-both (not (is_plain_object manifest)) _ (rw plain refl) keyed) schema)
            name)
          (ap not (sym (version-text (get manifest "package_version"))) ∙ version))
        (ap not (commit-text (get manifest "source_commit") commit (not-false _ source))))
      (ap not (array-length (get manifest "artifacts") (not-false _ is_list) four))

-- A manifest that validateReactNativeManifest accepts as complete, and whose source commit is a
-- string, is one from which the React Native entry point collects the identity of each of its four
-- expected targets.
pub validate_react_native_manifest-collected :
    (manifest package_meta result : Json)
    → validate_react_native_manifest manifest package_meta true ≡ returned result
    → is_text_value (get manifest "source_commit") ≡ true
    → manifest_artifact_identities manifest ≡ returned (identities_of expected_artifacts)
unfolding validate_react_native_manifest manifest_artifact_identities
validate_react_native_manifest-collected manifest package_meta result k commit =
    let artifacts = element_list (get manifest "artifacts") in
    let (c, k₁) =
      throw_if-returned (not (is_plain_object manifest) || not (is_plain_object package_meta)) _ _
        result k in
    let (plain, meta) = or-false (not (is_plain_object manifest)) _ c in
    let (header, k₂) = throw_if-returned (header_differs manifest package_meta) _ _ result k₁ in
    let (seen, k₃, k₄) = bind-returned (check_artifacts [] 0 artifacts) _ result k₂ in
    let (complete, k₅) =
      throw_if-returned (true && not (length seen == length react_native_targets)) _ _ result k₄ in
    let long : length seen ≡ 4 = ground arith in
    let (few, counted) = check_artifacts-few [] 0 artifacts seen (omega arith) k₃ in
    let four : length artifacts ≡ 4 = omega (arith, counted, long) in
    let same = header-same manifest package_meta (not-false _ plain) commit four header in
    rw (same, items_of-elements (get manifest "artifacts"))
      (check_artifacts-collected [] 0 artifacts seen (omega (arith, four)) k₃)
