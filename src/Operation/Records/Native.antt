-- ===== src/Operation/Records/Native.antt =====
-- scripts/release-operation.mjs: what stands behind the native artifacts of an accepted release
-- manifest.
use symbol_nem_wallet_core.Prelude.{
  String, true, false, not, ◌||◌, List, [], ◌∷◌, ◌≡◌, refl, sym, ap, ◌∙◌, subst, arith, codes,
  length, ◌==◌, ◌===◌, All, In, inl, inr, or-false, not-false, eq_iff,
}
use Prim.Native.String
use symbol_nem_wallet_core.Js.Json.{
  Json, undefined, null, boolean, number, string, array, object, opaque, is_plain_object, get,
  is_string, is_string-eq, is_same, throw_if-returned,
}
use symbol_nem_wallet_core.Js.Outcome.{returned, bind-returned}
use symbol_nem_wallet_core.Manifest.Versions.{is_digest}
use symbol_nem_wallet_core.Recovery.Paths.{is_unsafe_path}
use symbol_nem_wallet_core.Operation.{is_text_value, is_hash, valid_hash}
use symbol_nem_wallet_core.Operation.Digests.{safe_relative_text, safe_relative_path}
use symbol_nem_wallet_core.Operation.Spdx.{element_list, is_array}
use symbol_nem_wallet_core.Operation.Records.{
  required_native_targets, artifact_differs, check_artifact, check_artifacts, head_of, tail_of,
  manifest_differs, check_versions, validate_release_manifest_identity, Directory, existing,
  required_file, find_target, evidence_differs, check_file, check_evidence, check_all_evidence,
  validate_native_evidence,
}

-- An entry of the manifest for a target: of the commit and the version of the release, with the
-- file name of the target, a safe path and a digest.
pub record IsArtifact (manifest source_commit : Json) (target : String) (artifact : Json)
    : Type 0 where
  pub named : get artifact "target_id" ≡ string target
  pub commit : is_same (get artifact "source_commit") source_commit ≡ true
  pub version : is_same (get artifact "package_version") (get manifest "package_version") ≡ true
  pub filename : get artifact "artifact_filename" ≡ string (String.◌++◌ target ".node")
  pub digest : String
  pub digest_text : get artifact "sha256" ≡ string digest
  pub valid : is_digest 64 (codes digest) ≡ true
  pub path : String
  pub path_text : get artifact "relative_path" ≡ string path
  pub safe : is_unsafe_path (codes path) ≡ false

valid_hash-digest :
    (v : Json) (label : String)
    → valid_hash v label ≡ returned tt
    → (s : String) × (v ≡ string s) × (is_digest 64 (codes s) ≡ true)
unfolding valid_hash
valid_hash-digest v label k =
    let (c, u) = throw_if-returned (not (is_hash v)) _ _ tt k in digest v (not-false _ c)
  where
    digest :
        (v : Json)
        → is_hash v ≡ true
        → (s : String) × (v ≡ string s) × (is_digest 64 (codes s) ≡ true)
    digest (string s) e = (s, refl, e)
    digest undefined e = cc
    digest null e = cc
    digest (boolean b) e = cc
    digest (number t) e = cc
    digest (array vs) e = cc
    digest (object fs) e = cc
    digest (opaque t) e = cc

safe_relative_path-text :
    (v : Json) (label : String)
    → safe_relative_path v label ≡ returned tt
    → (s : String) × (v ≡ string s) × (is_unsafe_path (codes s) ≡ false)
unfolding safe_relative_path safe_relative_text
safe_relative_path-text (string s) label k =
    let (c, u) = throw_if-returned (is_unsafe_path (codes s)) _ _ tt k in (s, refl, c)
safe_relative_path-text undefined label k = cc
safe_relative_path-text null label k = cc
safe_relative_path-text (boolean b) label k = cc
safe_relative_path-text (number t) label k = cc
safe_relative_path-text (array vs) label k = cc
safe_relative_path-text (object fs) label k = cc
safe_relative_path-text (opaque t) label k = cc

check_artifact-IsArtifact :
    (manifest source_commit : Json) (target : String) (artifact : Json)
    → check_artifact manifest source_commit target artifact ≡ returned tt
    → IsArtifact manifest source_commit target artifact
unfolding check_artifact artifact_differs
check_artifact-IsArtifact manifest source_commit target artifact k =
    let (c, k₁) =
      throw_if-returned (artifact_differs manifest source_commit target artifact) _ _ tt k in
    let (u, k₂, k₃) =
      bind-returned
        (safe_relative_path (get artifact "relative_path")
          (String.◌++◌ "native artifact path " target))
        _ tt k₁ in
    let (path, path_text, safe) = safe_relative_path-text (get artifact "relative_path") _ k₂ in
    let (digest, digest_text, valid) = valid_hash-digest (get artifact "sha256") _ k₃ in
    let (c₁, is_path) = or-false _ (not (is_text_value (get artifact "relative_path"))) c in
    let (c₂, is_name) = or-false _ (not (is_text_value (get artifact "artifact_filename"))) c₁ in
    let (c₃, filename) =
      or-false _ (not (is_string (get artifact "artifact_filename") (String.◌++◌ target ".node")))
        c₂ in
    let (c₄, version) =
      or-false _ (not (is_same (get artifact "package_version") (get manifest "package_version")))
        c₃ in
    let (c₅, commit) = or-false _ (not (is_same (get artifact "source_commit") source_commit)) c₄ in
    let (plain, named) = or-false (not (is_plain_object artifact)) _ c₅ in
    record {
      named = is_string-eq _ _ (not-false _ named);
      commit = not-false _ commit;
      version = not-false _ version;
      filename = is_string-eq _ _ (not-false _ filename);
      digest = digest;
      digest_text = digest_text;
      valid = valid;
      path = path;
      path_text = path_text;
      safe = safe;
    }

-- The artifacts are those of the targets, in order.
abbrev pub AreArtifacts : Json → Json → List String → List Json → Type 0
AreArtifacts manifest source_commit [] artifacts = Unit
AreArtifacts manifest source_commit (target ∷ targets) artifacts =
    IsArtifact manifest source_commit target (head_of artifacts)
    × AreArtifacts manifest source_commit targets (tail_of artifacts)

check_artifacts-AreArtifacts :
    (manifest source_commit : Json) (targets : List String) (artifacts : List Json)
    → check_artifacts manifest source_commit targets artifacts ≡ returned tt
    → AreArtifacts manifest source_commit targets artifacts
unfolding check_artifacts
check_artifacts-AreArtifacts manifest source_commit [] artifacts k = tt
check_artifacts-AreArtifacts manifest source_commit (target ∷ targets) artifacts k =
    let (u, k₁, k₂) =
      bind-returned (check_artifact manifest source_commit target (head_of artifacts)) _ tt k in
    (
      check_artifact-IsArtifact manifest source_commit target (head_of artifacts) k₁,
      check_artifacts-AreArtifacts manifest source_commit targets (tail_of artifacts) k₂,
    )

validate_release_manifest_identity-AreArtifacts :
    (manifest tag source_commit result : Json)
    → validate_release_manifest_identity manifest tag source_commit ≡ returned result
    → (length (element_list (get manifest "native_artifacts")) ≡ 4)
      × AreArtifacts manifest source_commit required_native_targets
          (element_list (get manifest "native_artifacts"))
unfolding validate_release_manifest_identity
validate_release_manifest_identity-AreArtifacts manifest tag source_commit result k =
    let artifacts = get manifest "native_artifacts" in
    let (c, k₁) = throw_if-returned (manifest_differs manifest source_commit) _ _ result k in
    let (u, k₂, k₃) = bind-returned (check_versions manifest tag) _ result k₁ in
    let (d, k₄) =
      throw_if-returned
        (not (is_array artifacts)
          || not (length (element_list artifacts) == length required_native_targets))
        _ _ result k₃ in
    let (is_list, long) = or-false (not (is_array artifacts)) _ d in
    let (v, k₅, k₆) =
      bind-returned
        (check_artifacts manifest source_commit required_native_targets (element_list artifacts)) _
        result k₄ in
    (ground arith, check_artifacts-AreArtifacts manifest source_commit required_native_targets _ k₅)

-- Each target finds its artifact.
abbrev pub FindsEach : Json → Json → List Json → List String → Type 0
FindsEach manifest source_commit artifacts targets =
    All
      (λ target.
        IsArtifact manifest source_commit target (find_target target artifacts)
        × In (find_target target artifacts) artifacts)
      targets

find-here :
    (v : Json) (target : String) (vs : List Json)
    → get v "target_id" ≡ string target
    → find_target target (v ∷ vs) ≡ v
find-here v target vs e =
    let t : is_string (get v "target_id") target ≡ true = rw e ((eq_iff target target).1 refl) in
    rw (t, find_target) refl

find-later :
    (v : Json) (other target : String) (vs : List Json)
    → get v "target_id" ≡ string other
    → (other === target) ≡ false
    → find_target target (v ∷ vs) ≡ find_target target vs
find-later v other target vs e d =
    let t : is_string (get v "target_id") target ≡ false = rw e d in rw (t, find_target) refl

AreArtifacts-FindsEach :
    (manifest source_commit : Json) (artifacts : List Json)
    → length artifacts ≡ 4
    → AreArtifacts manifest source_commit required_native_targets artifacts
    → FindsEach manifest source_commit artifacts required_native_targets
AreArtifacts-FindsEach m s (a ∷ b ∷ c ∷ d ∷ []) l (fa, (fb, (fc, (fd, end)))) =
    let first = find-here a "win32-x64-msvc" (b ∷ c ∷ d ∷ []) fa.named in
    let second =
      find-later a _ "darwin-x64" (b ∷ c ∷ d ∷ []) fa.named refl
      ∙ find-here b _ (c ∷ d ∷ []) fb.named in
    let third =
      find-later a _ "darwin-arm64" (b ∷ c ∷ d ∷ []) fa.named refl
      ∙ find-later b _ "darwin-arm64" (c ∷ d ∷ []) fb.named refl
      ∙ find-here c _ (d ∷ []) fc.named in
    let fourth =
      find-later a _ "linux-x64-gnu" (b ∷ c ∷ d ∷ []) fa.named refl
      ∙ find-later b _ "linux-x64-gnu" (c ∷ d ∷ []) fb.named refl
      ∙ find-later c _ "linux-x64-gnu" (d ∷ []) fc.named refl
      ∙ find-here d _ [] fd.named in
    let found =
      λ (target : String) (v : Json) (e : find_target target (a ∷ b ∷ c ∷ d ∷ []) ≡ v)
          (f : IsArtifact m s target v) (p : In v (a ∷ b ∷ c ∷ d ∷ [])).
        subst (λ w. IsArtifact m s target w × In w (a ∷ b ∷ c ∷ d ∷ [])) (sym e) (f, p) in
    (
      found "win32-x64-msvc" a first fa (inl refl),
      (
        found "darwin-x64" b second fb (inr (inl refl)),
        (
          found "darwin-arm64" c third fc (inr (inr (inl refl))),
          (found "linux-x64-gnu" d fourth fd (inr (inr (inr (inl refl)))), tt),
        ),
      ),
    )
AreArtifacts-FindsEach m s [] l k = absurd (omega (arith, l))
AreArtifacts-FindsEach m s (a ∷ []) l k = absurd (omega (arith, l))
AreArtifacts-FindsEach m s (a ∷ b ∷ []) l k = absurd (omega (arith, l))
AreArtifacts-FindsEach m s (a ∷ b ∷ c ∷ []) l k = absurd (omega (arith, l))
AreArtifacts-FindsEach m s (a ∷ b ∷ c ∷ d ∷ e ∷ r) l k = absurd (omega (arith, l))

-- The file of the entry for a target is there, and has the digest of the entry.
pub record IsBacked (directory : Directory) (manifest source_commit : Json) (target : String)
    : Type 0 where
  pub artifact : Json
  pub listed : In artifact (element_list (get manifest "native_artifacts"))
  pub entry : IsArtifact manifest source_commit target artifact
  pub present : directory.exists (String.◌++◌ target ".node") ≡ true
  pub read :
      directory.sha256_file (String.◌++◌ target ".node") (String.◌++◌ "native artifact " target)
      ≡ returned entry.digest

required_file-existing :
    (directory : Directory) (v : Json) (name label path : String)
    → v ≡ string name
    → required_file directory v label ≡ returned path
    → (directory.exists name ≡ true) × (name ≡ path)
unfolding required_file
required_file-existing directory v name label path e k =
    let (u, k₁, k₂) = bind-returned (safe_relative_path v label) _ path k in
    let k₃ : existing directory (string name) label ≡ returned path = rw e at k₂ in
    let (c, k₄) = throw_if-returned (not (directory.exists name)) _ _ path k₃ in
    (not-false _ c, ground arith)

check_file-digest :
    (directory : Directory) (target path : String) (evidence : Json)
    → check_file directory target path evidence ≡ returned tt
    → (digest : String) × (directory.sha256_file path (String.◌++◌ "native artifact " target)
        ≡ returned digest)
      × (get evidence "artifact_sha256" ≡ string digest)
check_file-digest directory target path evidence k =
    let (digest, k₁, k₂) =
      bind-returned (directory.sha256_file path (String.◌++◌ "native artifact " target)) _ tt k in
    let (c, k₃) =
      throw_if-returned (not (is_string (get evidence "artifact_sha256") digest)) _ _ tt k₂ in
    (digest, k₁, is_string-eq _ digest (not-false _ c))

check_evidence-IsBacked :
    (directory : Directory) (manifest source_commit : Json) (target : String)
    → IsArtifact manifest source_commit target
        (find_target target (element_list (get manifest "native_artifacts")))
    → In
        (find_target target (element_list (get manifest "native_artifacts")))
        (element_list (get manifest "native_artifacts"))
    → check_evidence directory manifest source_commit target ≡ returned tt
    → IsBacked directory manifest source_commit target
unfolding check_evidence evidence_differs
check_evidence-IsBacked directory manifest source_commit target entry listed k =
    let artifact = find_target target (element_list (get manifest "native_artifacts")) in
    let (c, k₁) = throw_if-returned (not (is_plain_object artifact)) _ _ tt k in
    let (evidence_path, k₂, k₃) =
      bind-returned
        (required_file directory (string (String.◌++◌ target ".json"))
          (String.◌++◌ "native evidence " target))
        _ tt k₁ in
    let (evidence, k₄, k₅) =
      bind-returned (directory.json evidence_path (String.◌++◌ "native evidence " target)) _ tt
        k₃ in
    let (path, k₆, k₇) =
      bind-returned
        (required_file directory (get artifact "artifact_filename")
          (String.◌++◌ "native artifact " target))
        _ tt k₅ in
    let (d, k₈) =
      throw_if-returned (evidence_differs manifest source_commit target artifact evidence) _ _ tt
        k₇ in
    let (digest, read, text) = check_file-digest directory target path evidence k₈ in
    let (d₁, same) =
      or-false _ (not (is_same (get evidence "artifact_sha256") (get artifact "sha256"))) d in
    let (present, name) =
      required_file-existing directory (get artifact "artifact_filename")
        (String.◌++◌ target ".node") _ path entry.filename k₆ in
    let e : is_same (string digest) (string entry.digest) ≡ true =
      subst (λ w. is_same w (string entry.digest) ≡ true) text
        (subst (λ w. is_same (get evidence "artifact_sha256") w ≡ true) entry.digest_text
          (not-false _ same)) in
    let q : digest ≡ entry.digest = (eq_iff digest entry.digest).0 e in
    record {
      artifact = artifact;
      listed = listed;
      entry = entry;
      present = present;
      read =
          subst
            (λ p.
              directory.sha256_file p (String.◌++◌ "native artifact " target)
              ≡ returned entry.digest)
            (sym name) (read ∙ ap returned q);
    }

check_all_evidence-IsBacked :
    (directory : Directory) (manifest source_commit : Json) (targets : List String)
    → FindsEach manifest source_commit (element_list (get manifest "native_artifacts")) targets
    → check_all_evidence directory manifest source_commit targets ≡ returned tt
    → All (IsBacked directory manifest source_commit) targets
unfolding check_all_evidence
check_all_evidence-IsBacked directory manifest source_commit [] found k = tt
check_all_evidence-IsBacked directory manifest source_commit (target ∷ targets)
      ((entry, listed), found) k =
    let (u, k₁, k₂) =
      bind-returned (check_evidence directory manifest source_commit target) _ tt k in
    (
      check_evidence-IsBacked directory manifest source_commit target entry listed k₁,
      check_all_evidence-IsBacked directory manifest source_commit targets found k₂,
    )

-- When validateReleaseManifestIdentity accepts a manifest and validateNativeEvidence the release
-- directory, the manifest has for each of the four required targets an entry of the commit and the
-- version of the release, with the file name of the target, a safe path and a valid digest; and the
-- file of that name is in the directory and has that digest.
pub validate_native_evidence-IsBacked :
    (directory : Directory) (manifest tag source_commit result : Json)
    → validate_release_manifest_identity manifest tag source_commit ≡ returned result
    → validate_native_evidence directory manifest source_commit ≡ returned tt
    → All (IsBacked directory manifest source_commit) required_native_targets
unfolding validate_native_evidence
validate_native_evidence-IsBacked directory manifest tag source_commit result k l =
    let (long, artifacts) =
      validate_release_manifest_identity-AreArtifacts manifest tag source_commit result k in
    check_all_evidence-IsBacked directory manifest source_commit required_native_targets
      (AreArtifacts-FindsEach manifest source_commit _ long artifacts) l
