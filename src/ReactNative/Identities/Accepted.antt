-- ===== src/ReactNative/Identities/Accepted.antt =====
-- native-module.mjs: the manifests and the artifacts that manifestArtifactIdentities accepts.
use symbol_nem_wallet_core.Prelude.{
  ℕ, String, Bool, true, false, not, List, [], ◌∷◌, ◌≡◌, refl, arith, codes, length, or-false,
  not-false,
}
use symbol_nem_wallet_core.Js.Json.{
  Json, undefined, null, boolean, number, string, array, object, opaque, get, is_string, is_number,
  is_string-eq, is_number-eq, text, throw_if-returned,
}
use symbol_nem_wallet_core.Js.Outcome.{returned, bind-returned}
use symbol_nem_wallet_core.Manifest.Versions.{is_empty, is_digest, is_version}
use symbol_nem_wallet_core.ReactNative.Identities.{
  Expected, invalid_manifest, is_text_of, has_expected_length, manifest_differs, artifact_differs,
  collect_identities, items_of,
}

-- A string whose text passes a test.
pub record IsTextOf (test : List ℕ → Bool) (v : Json) : Type 0 where
  pub value : String
  pub same : v ≡ string value
  pub passes : test (codes value) ≡ true

is_text_of-IsTextOf :
    (test : List ℕ → Bool) (v : Json) → not (is_text_of test v) ≡ false → IsTextOf test v
is_text_of-IsTextOf test (string s) k = record { value = s; same = refl; passes = not-false _ k }
is_text_of-IsTextOf test undefined k = cc
is_text_of-IsTextOf test null k = cc
is_text_of-IsTextOf test (boolean b) k = cc
is_text_of-IsTextOf test (number t) k = cc
is_text_of-IsTextOf test (array vs) k = cc
is_text_of-IsTextOf test (object fs) k = cc
is_text_of-IsTextOf test (opaque t) k = cc

string-eq : (v : Json) (s : String) → not (is_string v s) ≡ false → v ≡ string s
string-eq v s k = is_string-eq v s (not-false _ k)

-- The fields of a manifest beside its artifacts, of which there are four.
pub record IsManifest (manifest : Json) : Type 0 where
  pub schema_version : get manifest "schema_version" ≡ number "1"
  pub package_name : get manifest "package_name" ≡ string "@nemnesia/symbol-nem-wallet-core"
  pub package_version : IsTextOf is_version (get manifest "package_version")
  pub source_commit : IsTextOf (is_digest 40) (get manifest "source_commit")
  pub count : length (items_of (get manifest "artifacts")) ≡ 4

has_expected_length-count : (v : Json) → has_expected_length v ≡ true → length (items_of v) ≡ 4
has_expected_length-count (array vs) k = ground arith
has_expected_length-count undefined k = cc
has_expected_length-count null k = cc
has_expected_length-count (boolean b) k = cc
has_expected_length-count (number t) k = cc
has_expected_length-count (string s) k = cc
has_expected_length-count (object fs) k = cc
has_expected_length-count (opaque t) k = cc

pub manifest_differs-IsManifest :
    (manifest : Json) → manifest_differs manifest ≡ false → IsManifest manifest
unfolding manifest_differs
manifest_differs-IsManifest manifest d =
    let (d₁, count) = or-false _ (not (has_expected_length (get manifest "artifacts"))) d in
    let (d₂, commit) =
      or-false _ (not (is_text_of (is_digest 40) (get manifest "source_commit"))) d₁ in
    let (d₃, version) =
      or-false _ (not (is_text_of is_version (get manifest "package_version"))) d₂ in
    let (d₄, name) =
      or-false _ (not (is_string (get manifest "package_name") "@nemnesia/symbol-nem-wallet-core"))
        d₃ in
    let (keyed, schema) = or-false _ (not (is_number (get manifest "schema_version") "1")) d₄ in
    record {
      schema_version = is_number-eq _ _ (not-false _ schema);
      package_name = string-eq _ _ name;
      package_version = is_text_of-IsTextOf is_version (get manifest "package_version") version;
      source_commit = is_text_of-IsTextOf (is_digest 40) (get manifest "source_commit") commit;
      count = has_expected_length-count (get manifest "artifacts") (not-false _ count);
    }

-- An artifact of a manifest that is the expected one.
pub record IsArtifact (artifact : Json) (e : Expected) : Type 0 where
  pub target_id : get artifact "target_id" ≡ string e.target_id
  pub platform : get artifact "platform" ≡ string e.platform
  pub environment : get artifact "environment" ≡ string e.environment
  pub architecture : get artifact "architecture" ≡ string e.architecture
  pub relative_path : get artifact "relative_path" ≡ string e.relative_path
  pub artifact_filename : get artifact "artifact_filename" ≡ string e.artifact_filename
  pub sha256 : is_digest 64 (text (get artifact "sha256")) ≡ true
  pub toolchain_identifier :
      IsTextOf (λ cs. not (is_empty cs)) (get artifact "toolchain_identifier")

pub artifact_differs-IsArtifact :
    (artifact : Json) (e : Expected) → artifact_differs artifact e ≡ false → IsArtifact artifact e
unfolding artifact_differs
artifact_differs-IsArtifact artifact e d =
    let (d₁, toolchain) =
      or-false _ (not (is_text_of (λ cs. not (is_empty cs)) (get artifact "toolchain_identifier")))
        d in
    let (d₂, sha256) = or-false _ (not (is_digest 64 (text (get artifact "sha256")))) d₁ in
    let (d₃, filename) =
      or-false _ (not (is_string (get artifact "artifact_filename") e.artifact_filename)) d₂ in
    let (d₄, path) =
      or-false _ (not (is_string (get artifact "relative_path") e.relative_path)) d₃ in
    let (d₅, architecture) =
      or-false _ (not (is_string (get artifact "architecture") e.architecture)) d₄ in
    let (d₆, environment) =
      or-false _ (not (is_string (get artifact "environment") e.environment)) d₅ in
    let (d₇, platform) = or-false _ (not (is_string (get artifact "platform") e.platform)) d₆ in
    let (keyed, id) = or-false _ (not (is_string (get artifact "target_id") e.target_id)) d₇ in
    record {
      target_id = string-eq _ _ id;
      platform = string-eq _ _ platform;
      environment = string-eq _ _ environment;
      architecture = string-eq _ _ architecture;
      relative_path = string-eq _ _ path;
      artifact_filename = string-eq _ _ filename;
      sha256 = not-false _ sha256;
      toolchain_identifier =
          is_text_of-IsTextOf (λ cs. not (is_empty cs)) (get artifact "toolchain_identifier")
            toolchain;
    }

-- The artifacts are the expected ones, one for one, in their order.
abbrev pub AreArtifacts : List Json → List Expected → Type 0
AreArtifacts [] expected = Unit
AreArtifacts (a ∷ artifacts) [] = ⊥
AreArtifacts (a ∷ artifacts) (e ∷ es) = IsArtifact a e × AreArtifacts artifacts es

pub collect_identities-AreArtifacts :
    (artifacts : List Json) (expected : List Expected) (found : List (String × String))
    → collect_identities artifacts expected ≡ returned found
    → AreArtifacts artifacts expected
unfolding collect_identities
collect_identities-AreArtifacts [] expected found k = tt
collect_identities-AreArtifacts (a ∷ artifacts) [] found k = cc
collect_identities-AreArtifacts (a ∷ artifacts) (e ∷ expected) found k =
    let (same, k₁) = throw_if-returned (artifact_differs a e) invalid_manifest _ found k in
    let (rest, c, r) = bind-returned (collect_identities artifacts expected) _ found k₁ in
    (
      artifact_differs-IsArtifact a e same,
      collect_identities-AreArtifacts artifacts expected rest c,
    )
