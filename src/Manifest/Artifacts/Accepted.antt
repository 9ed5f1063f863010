-- ===== src/Manifest/Artifacts/Accepted.antt =====
-- manifest.mjs: what an accepted manifest holds.
use symbol_nem_wallet_core.Prelude.{
  ℕ, ◌<◌, String, true, false, not, ◌||◌, Option, none, some, List, [], ◌∷◌, ◌++◌, ◌≡◌, refl, codes,
  includes, same_codes, same_codes-eq, ends_with, arith, or-false, not-false, contains, leb,
}
use symbol_nem_wallet_core.Js.Json.{
  Json, undefined, null, boolean, number, string, array, object, opaque, Items, items, get, text,
  is_string, is_string-eq, exact_keys, throw_if-returned,
}
use symbol_nem_wallet_core.Js.Outcome.{bind-returned, returned}
use symbol_nem_wallet_core.Manifest.Versions.{is_digest, is_empty}
use symbol_nem_wallet_core.Manifest.Targets.{Target, native_target, canonical_index}
use symbol_nem_wallet_core.Manifest.Artifacts.{
  non_empty_string, platform_differs, libc_differs, file_differs, artifact_keys, canonical_path,
  validate_for, validate_named, validate_artifact, validate_artifacts, header_differs,
  validate_list, validate_native_manifest, invalid_manifest,
}

-- The artifact names the platform of its target.
pub record OnPlatform (artifact : Json) (target : Target) : Type 0 where
  pub os : get artifact "os" ≡ string target.os
  pub cpu : get artifact "cpu" ≡ string target.cpu
  pub abi : get artifact "abi" ≡ string target.abi
  pub rust_target : get artifact "rust_target" ≡ string target.rust_target
  pub libc : libc_differs artifact target.libc ≡ false

-- The artifact's file lies in the directory of its target, under a plain name that ends in ".node".
pub record HasFile (artifact : Json) (id : String) : Type 0 where
  pub path : String
  pub filename : String
  pub path_text : get artifact "relative_path" ≡ string path
  pub filename_text : get artifact "artifact_filename" ≡ string filename
  pub canonical : codes path ≡ codes "dist/native/" ++ (codes id ++ (b'/' ∷ codes filename))
  pub inside : includes (codes "..") (codes path) ≡ false
  pub plain : includes (codes "/") (codes filename) ≡ false
  pub addon : ends_with (codes ".node") (codes filename) ≡ true
  pub digest : is_digest 64 (text (get artifact "sha256")) ≡ true

pub record IsArtifact (artifact : Json) (id : String) (target : Target) : Type 0 where
  pub named : get artifact "target_id" ≡ string id
  pub known : native_target id ≡ some target
  pub keys : exact_keys artifact (artifact_keys target) ≡ true
  pub platform : OnPlatform artifact target
  pub file : HasFile artifact id

-- Artifacts of known targets, which stand in the canonical order, each target at most once.
abbrev pub AreArtifacts : ℕ → List Json → Type 0
AreArtifacts previous [] = Unit
AreArtifacts previous (artifact ∷ artifacts) =
    (id : String) × ((target : Target) × IsArtifact artifact id target
      × ((previous < canonical_index id) × AreArtifacts (canonical_index id) artifacts))

platform_differs-OnPlatform :
    (a : Json) (t : Target) → platform_differs a t ≡ false → OnPlatform a t
unfolding platform_differs
platform_differs-OnPlatform a t k =
    let (k₄, libc) = or-false _ (libc_differs a t.libc) k in
    let (k₃, rust) = or-false _ (not (is_string (get a "rust_target") t.rust_target)) k₄ in
    let (k₂, abi) = or-false _ (not (is_string (get a "abi") t.abi)) k₃ in
    let (os, cpu) =
      or-false (not (is_string (get a "os") t.os)) (not (is_string (get a "cpu") t.cpu)) k₂ in
    record {
      os = is_string-eq _ _ (not-false _ os);
      cpu = is_string-eq _ _ (not-false _ cpu);
      abi = is_string-eq _ _ (not-false _ abi);
      rust_target = is_string-eq _ _ (not-false _ rust);
      libc = libc;
    }

non_empty_string-text : (v : Json) → non_empty_string v ≡ true → (s : String) × (v ≡ string s)
unfolding non_empty_string
non_empty_string-text (string s) k = (s, refl)
non_empty_string-text undefined k = cc
non_empty_string-text null k = cc
non_empty_string-text (boolean b) k = cc
non_empty_string-text (number t) k = cc
non_empty_string-text (array vs) k = cc
non_empty_string-text (object fs) k = cc
non_empty_string-text (opaque t) k = cc

file_differs-HasFile : (a : Json) (id : String) → file_differs a id ≡ false → HasFile a id
unfolding file_differs text
file_differs-HasFile a id k =
    let path = text (get a "relative_path") in
    let filename = text (get a "artifact_filename") in
    let (k₈, tool) = or-false _ (not (non_empty_string (get a "toolchain_identifier"))) k in
    let (k₇, sha) = or-false _ (not (is_digest 64 (text (get a "sha256")))) k₈ in
    let (k₆, addon) = or-false _ (not (ends_with (codes ".node") filename)) k₇ in
    let (k₅, plain) = or-false _ (includes (codes "/") filename) k₆ in
    let (k₄, name) = or-false _ (not (non_empty_string (get a "artifact_filename"))) k₅ in
    let (k₃, canonical) = or-false _ (not (same_codes path (canonical_path id a))) k₄ in
    let (k₂, inside) = or-false _ (includes (codes "..") path) k₃ in
    let (whole, slash) =
      or-false (not (non_empty_string (get a "relative_path"))) (includes (codes "\\") path) k₂ in
    let (p, ep) = non_empty_string-text _ (not-false _ whole) in
    let (f, ef) = non_empty_string-text _ (not-false _ name) in
    record {
      path = p;
      filename = f;
      path_text = ep;
      filename_text = ef;
      canonical = rw (ep, ef) at (same_codes-eq path _ (not-false _ canonical));
      inside = rw ep at inside;
      plain = rw ef at plain;
      addon = rw ef at (not-false _ addon);
      digest = not-false _ sha;
    }

-- What the check of one artifact finds out.
abbrev Found : ℕ → Json → String → ℕ → Type 0
Found previous artifact id next =
    (target : Target) × IsArtifact artifact id target
    × ((previous < canonical_index id) × (next ≡ canonical_index id))

leb-false : (a b : ℕ) → leb a b ≡ false → b < a
leb-false a b k = ground arith

validate_for-Found :
    (previous next : ℕ) (a : Json) (id : String) (target : Option Target)
    → get a "target_id" ≡ string id
    → native_target id ≡ target
    → validate_for previous a id target ≡ returned next
    → Found previous a id next
unfolding validate_for
validate_for-Found previous next a id none n t k = cc
validate_for-Found previous next a id (some target) n t k =
    let (keys, k₁) = throw_if-returned _ invalid_manifest _ next k in
    let (index, k₂) =
      throw_if-returned (leb (canonical_index id) previous) invalid_manifest _ next k₁ in
    let (platform, k₃) = throw_if-returned (platform_differs a target) invalid_manifest _ next k₂ in
    let (file, k₄) = throw_if-returned (file_differs a id) invalid_manifest _ next k₃ in
    (
      target,
      record {
        named = n;
        known = t;
        keys = not-false _ keys;
        platform = platform_differs-OnPlatform a target platform;
        file = file_differs-HasFile a id file;
      },
      (leb-false _ previous index, ground arith),
    )

module _ (seen : List String) (previous : ℕ) (a : Json) where
  validate_named-Found :
      (v : Json) (next : String × ℕ)
      → get a "target_id" ≡ v
      → validate_named seen previous a v ≡ returned next
      → Found previous a next.0 next.1
  validate_named-Found (string id) next n k =
      let (fresh, k₁) =
        throw_if-returned (is_empty (codes id) || contains seen id) invalid_manifest _ next k in
      let (index, f, e) =
        bind-returned (validate_for previous a id (native_target id)) (λ x. returned (id, x)) next
          k₁ in
      let q : (id, index) ≡ next = ground arith in
      rw (← q) (validate_for-Found previous index a id (native_target id) n refl f)
  validate_named-Found undefined next n k = cc
  validate_named-Found null next n k = cc
  validate_named-Found (boolean b) next n k = cc
  validate_named-Found (number t) next n k = cc
  validate_named-Found (array vs) next n k = cc
  validate_named-Found (object fs) next n k = cc
  validate_named-Found (opaque t) next n k = cc

  validate_artifact-Found :
      (next : String × ℕ)
      → validate_artifact seen previous a ≡ returned next
      → Found previous a next.0 next.1
  unfolding validate_artifact
  validate_artifact-Found next k =
      let (plain, k₁) = throw_if-returned _ invalid_manifest _ next k in
      validate_named-Found (get a "target_id") next refl k₁

validate_artifacts-AreArtifacts :
    (seen : List String) (previous : ℕ) (xs : List Json)
    → validate_artifacts seen previous xs ≡ returned tt
    → AreArtifacts previous xs
unfolding validate_artifacts
validate_artifacts-AreArtifacts seen previous [] k = tt
validate_artifacts-AreArtifacts seen previous (a ∷ xs) k =
    let (next, f, r) = bind-returned (validate_artifact seen previous a) _ tt k in
    let (target, artifact, (order, e)) = validate_artifact-Found seen previous a next f in
    (
      next.0,
      (
        target,
        artifact,
        (order, rw e at (validate_artifacts-AreArtifacts (next.0 ∷ seen) next.1 xs r)),
      ),
    )

-- An accepted manifest is given back as it is; its package is the one that is asked for.
pub record IsManifest (manifest package_meta : Json) : Type 0 where
  pub artifacts : Items
  pub list : get manifest "artifacts" ≡ array artifacts
  pub header : header_differs manifest package_meta ≡ false
  pub ordered : AreArtifacts 0 (items artifacts)

validate_list-IsManifest :
    (m p v r : Json)
    → get m "artifacts" ≡ v
    → header_differs m p ≡ false
    → validate_list m v ≡ returned r
    → (r ≡ m) × IsManifest m p
validate_list-IsManifest m p (array xs) r e h k =
    let (u, f, q) = bind-returned (validate_artifacts [] 0 (items xs)) _ r k in
    (
      ground arith,
      record {
        artifacts = xs;
        list = e;
        header = h;
        ordered = validate_artifacts-AreArtifacts [] 0 (items xs) f;
      },
    )
validate_list-IsManifest m p undefined r e h k = cc
validate_list-IsManifest m p null r e h k = cc
validate_list-IsManifest m p (boolean b) r e h k = cc
validate_list-IsManifest m p (number t) r e h k = cc
validate_list-IsManifest m p (string t) r e h k = cc
validate_list-IsManifest m p (object fs) r e h k = cc
validate_list-IsManifest m p (opaque t) r e h k = cc

-- A manifest that is accepted is given back, with the header of the package it is checked for, and
-- its artifacts are ones of the known targets, in the canonical order and without a repetition,
-- each with the platform, keys and file that its target asks for.
pub validate_native_manifest-IsManifest :
    (manifest package_meta result : Json)
    → validate_native_manifest manifest package_meta ≡ returned result
    → (result ≡ manifest) × IsManifest manifest package_meta
unfolding validate_native_manifest
validate_native_manifest-IsManifest m p r k =
    let (plain, k₁) = throw_if-returned _ invalid_manifest _ r k in
    let (header, k₂) = throw_if-returned (header_differs m p) invalid_manifest _ r k₁ in
    validate_list-IsManifest m p (get m "artifacts") r refl header k₂
