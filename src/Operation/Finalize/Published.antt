-- ===== src/Operation/Finalize/Published.antt =====
-- scripts/release-operation.mjs: the operations that are finalized.
use symbol_nem_wallet_core.Prelude.{
  String, true, false, not, ◌&&◌, ◌||◌, ◌∷◌, ◌≡◌, refl, sym, ◌∙◌, subst, ap, codes, ◌===◌,
  if◌then◌else◌, eq_iff, Bool-cases, inl, inr, or-false, not-false, same_codes, same_codes-eq,
}
use symbol_nem_wallet_core.Js.Json.{
  Json, undefined, null, boolean, number, string, array, object, opaque, Fields, end, field, find,
  is_plain_object, get, is_string, is_same, is_string-eq, throw_if-returned, text,
}
use symbol_nem_wallet_core.Js.Outcome.{returned-eq, Outcome, returned, thrown, bind-returned}
use symbol_nem_wallet_core.Release.SemVer.{is_valid_semver}
use symbol_nem_wallet_core.Operation.{valid_commit}
use symbol_nem_wallet_core.Provenance.Statements.{is_null}
use symbol_nem_wallet_core.Provenance.Evidence.{Tools, validate_npm_provenance_evidence}
use symbol_nem_wallet_core.Provenance.Evidence.Verified.{
  IsEvidence, validate_npm_provenance_evidence-IsEvidence,
}
use symbol_nem_wallet_core.Operation.Finalize.{
  Finalization, json, sha256_file, is_recovery, recovery_differs, operation_differs,
  manifest_tarball, tarball_sha256, release_repository, workflow_identity, check_identity,
  check_run, release_of, expected_mode, with_field, fields_of, published_provenance, publication,
  final_operation, finalize_published, is_publication_mode, finalize_release_operation,
}

json-returned :
    (m : Outcome Json) (label : String) (v : Json) → json m label ≡ returned v → m ≡ returned v
json-returned (returned w) label v k = k
json-returned (thrown e) label v k = cc

sha256_file-returned :
    (m : Outcome String) (label s : String) → sha256_file m label ≡ returned s → m ≡ returned s
sha256_file-returned (returned t) label s k = k
sha256_file-returned (thrown e) label s k = cc

same-key : (key : String) → (key === key) ≡ true
same-key key = (eq_iff key key).1 refl

-- The field that is set, and every other one.
find-with_field : (key : String) (v : Json) (fs : Fields) → find key (with_field key v fs) ≡ v
find-with_field key v end = rw (same-key key) refl
find-with_field key v (field k w fs) = elim (Bool-cases (k === key)) [
  | inl e ↦ rw (e, same-key key) refl
  | inr e ↦ rw (e, e) (find-with_field key v fs)
]

find-with_field_other :
    (key name : String) (v : Json) (fs : Fields)
    → (key === name) ≡ false
    → find name (with_field key v fs) ≡ find name fs
find-with_field_other key name v end d = rw d refl
find-with_field_other key name v (field k w fs) d = elim (Bool-cases (k === key)) [
  | inl e ↦
      let q : key ≡ k = sym ((eq_iff k key).0 e) in
      let r : (k === name) ≡ false = subst (λ s. (s === name) ≡ false) q d in rw (e, d, r) refl
  | inr e ↦
      rw e (ap (λ rest. if k === name then w else rest) (find-with_field_other key name v fs d))
]

get-fields_of : (v : Json) (name : String) → find name (fields_of v) ≡ get v name
unfolding get
get-fields_of (object fs) name = refl
get-fields_of undefined name = refl
get-fields_of null name = refl
get-fields_of (boolean b) name = refl
get-fields_of (number t) name = refl
get-fields_of (string s) name = refl
get-fields_of (array vs) name = refl
get-fields_of (opaque t) name = refl

-- A field of the operation that the final one keeps.
get-final_operation :
    (f : Finalization) (operation provenance : Json) (digest name : String)
    → ("publication" === name) ≡ false
    → ("provenance" === name) ≡ false
    → get (final_operation f operation provenance digest) name ≡ get operation name
unfolding get
get-final_operation f operation provenance digest name p q =
    find-with_field_other "publication" name (publication f provenance) _ p
    ∙ (find-with_field_other "provenance" name (published_provenance operation provenance digest)
          (fields_of operation) q
        ∙ get-fields_of operation name)

-- A final operation, with what was read and how it belongs together.
pub record IsPublished (tools : Tools) (f : Finalization) (final : Json) : Type 0 where
  pub operation : Json
  pub provenance : Json
  pub manifest : Json
  pub digest : String
  pub read_operation : f.pre_operation ≡ returned operation
  pub read_provenance : f.provenance ≡ returned provenance
  pub read_manifest : f.manifest ≡ returned manifest
  pub hashed : f.provenance_sha256 ≡ returned digest
  pub version : codes f.tag ≡ b'v' ∷ text (get manifest "package_version")
  pub tarball :
      is_same
        (get (get operation "npm_tarball") "sha256")
        (tarball_sha256 (manifest_tarball manifest))
      ≡ true
  pub workflow : codes f.workflow_ref ≡ workflow_identity f
  pub repository : f.repository ≡ release_repository
  pub evidence : IsEvidence tools provenance (release_of f manifest provenance)
  pub mode : get provenance "publication_mode" ≡ string (expected_mode f.publication_mode)
  pub release_tag : get final "release_tag" ≡ string f.tag
  pub source_commit : get final "source_commit" ≡ string f.source_commit
  pub published : get final "publication" ≡ publication f provenance
  pub told : get final "provenance" ≡ published_provenance operation provenance digest

-- What the checks of the identity give.
record HasIdentity (f : Finalization) (manifest operation : Json) : Type 0 where
  version : codes f.tag ≡ b'v' ∷ text (get manifest "package_version")
  tag : get operation "release_tag" ≡ string f.tag
  commit : get operation "source_commit" ≡ string f.source_commit
  tarball :
      is_same
        (get (get operation "npm_tarball") "sha256")
        (tarball_sha256 (manifest_tarball manifest))
      ≡ true

check_identity-HasIdentity :
    (f : Finalization) (manifest operation : Json)
    → check_identity f manifest operation ≡ returned tt
    → HasIdentity f manifest operation
unfolding check_identity operation_differs
check_identity-HasIdentity f manifest operation k =
    let (recovery, k₁) =
      throw_if-returned (is_recovery manifest && recovery_differs f manifest) _ _ tt k in
    let (versions, k₂) =
      throw_if-returned
        (not (is_valid_semver (get manifest "package_version"))
          || not (same_codes (codes f.tag) (b'v' ∷ text (get manifest "package_version"))))
        _ _ tt k₁ in
    let (valid, same) =
      or-false (not (is_valid_semver (get manifest "package_version"))) _ versions in
    let (own, k₃) = throw_if-returned (operation_differs f manifest operation) _ _ tt k₂ in
    let (d, status) =
      or-false _ (not (is_string (get (get operation "provenance") "status") "required-at-publish"))
        own in
    let (e, commit) =
      or-false _ (not (is_string (get operation "source_commit") f.source_commit)) d in
    let (g, tag) = or-false _ (not (is_string (get operation "release_tag") f.tag)) e in
    let (differs, k₄) =
      throw_if-returned
        (not (is_plain_object (manifest_tarball manifest))
          || not (
              is_same (get (get operation "npm_tarball") "sha256")
                (tarball_sha256 (manifest_tarball manifest))))
        _ _ tt k₃ in
    let (plain, tarball) = or-false (not (is_plain_object (manifest_tarball manifest))) _ differs in
    record {
      version = same_codes-eq (codes f.tag) _ (not-false _ same);
      tag = is_string-eq _ _ (not-false _ tag);
      commit = is_string-eq _ _ (not-false _ commit);
      tarball = not-false _ tarball;
    }

check_run-same :
    (f : Finalization) (manifest : Json)
    → check_run f manifest ≡ returned tt
    → (f.repository ≡ release_repository) × (codes f.workflow_ref ≡ workflow_identity f)
unfolding check_run
check_run-same f manifest k =
    let (repository, k₁) = throw_if-returned (not (f.repository === release_repository)) _ _ tt k in
    let (workflow, k₂) =
      throw_if-returned (not (same_codes (codes f.workflow_ref) (workflow_identity f))) _ _ tt k₁ in
    (
      (eq_iff f.repository release_repository).0 (not-false _ repository),
      same_codes-eq (codes f.workflow_ref) (workflow_identity f) (not-false _ workflow),
    )

-- What the part from the provenance on gives.
record IsFinal (tools : Tools) (f : Finalization) (operation provenance manifest final : Json)
    : Type 0 where
  digest : String
  hashed : f.provenance_sha256 ≡ returned digest
  evidence : IsEvidence tools provenance (release_of f manifest provenance)
  mode : get provenance "publication_mode" ≡ string (expected_mode f.publication_mode)
  made : final_operation f operation provenance digest ≡ final

finalize_published-IsFinal :
    (tools : Tools) (f : Finalization) (operation provenance manifest final : Json)
    → finalize_published tools f operation provenance manifest ≡ returned final
    → IsFinal tools f operation provenance manifest final
unfolding finalize_published
finalize_published-IsFinal tools f operation provenance manifest final k =
    let (there, k₁) =
      throw_if-returned (not (is_recovery manifest) && is_null provenance) _ _ final k in
    let (u, k₂, k₃) =
      bind-returned
        (validate_npm_provenance_evidence tools provenance (release_of f manifest provenance)) _
        final k₁ in
    let (mode, k₄) =
      throw_if-returned
        (not (is_string (get provenance "publication_mode") (expected_mode f.publication_mode))) _ _
        final k₃ in
    let (digest, k₅, k₆) =
      bind-returned (sha256_file f.provenance_sha256 "npm provenance evidence") _ final k₄ in
    record {
      digest = digest;
      hashed = sha256_file-returned f.provenance_sha256 _ digest k₅;
      evidence =
          validate_npm_provenance_evidence-IsEvidence tools provenance
            (release_of f manifest provenance) k₂;
      mode = is_string-eq _ _ (not-false _ mode);
      made = returned-eq _ final k₆;
    }

-- The fields of a final operation that is made of the three values.
published-fields :
    (f : Finalization) (operation provenance final : Json) (digest : String)
    → final_operation f operation provenance digest ≡ final
    → get operation "release_tag" ≡ string f.tag
    → get operation "source_commit" ≡ string f.source_commit
    → (get final "release_tag" ≡ string f.tag)
      × (get final "source_commit" ≡ string f.source_commit)
      × (get final "publication" ≡ publication f provenance)
      × (get final "provenance" ≡ published_provenance operation provenance digest)
unfolding get
published-fields f operation provenance final digest made tag commit =
    let own = published_provenance operation provenance digest in
    let rest = with_field "provenance" own (fields_of operation) in
    subst
      (λ w.
        (get w "release_tag" ≡ string f.tag)
        × (get w "source_commit" ≡ string f.source_commit)
        × (get w "publication" ≡ publication f provenance)
        × (get w "provenance" ≡ own))
      made
      (
        get-final_operation f operation provenance digest "release_tag" refl refl ∙ tag,
        get-final_operation f operation provenance digest "source_commit" refl refl ∙ commit,
        find-with_field "publication" (publication f provenance) rest,
        find-with_field_other "publication" "provenance" (publication f provenance) rest refl
            ∙ find-with_field "provenance" own (fields_of operation),
      )

-- When finalizeReleaseOperation returns, the tag is v and the version of the manifest; the operation
-- before the publication told the digest of the manifest's tarball; the workflow is the release
-- workflow of the repository at the tag; the provenance is evidence of just this release, in the
-- mode of the publication; and what is returned keeps the tag and the commit of the operation, and
-- has the publication and the provenance with the digest of its file.
pub finalize_release_operation-IsPublished :
    (tools : Tools) (f : Finalization) (final : Json)
    → finalize_release_operation tools f ≡ returned final
    → IsPublished tools f final
unfolding finalize_release_operation
finalize_release_operation-IsPublished tools f final k =
    let (m, k₁) = throw_if-returned (not (is_publication_mode f.publication_mode)) _ _ final k in
    let (operation, k₂, l₂) = bind-returned (json f.pre_operation _) _ final k₁ in
    let (provenance, k₃, l₃) = bind-returned (json f.provenance _) _ final l₂ in
    let (manifest, k₄, l₄) = bind-returned (json f.manifest _) _ final l₃ in
    let (u, k₅, l₅) =
      bind-returned (valid_commit (string f.source_commit) "release source commit") _ final l₄ in
    let (there, l₆) = throw_if-returned (is_null manifest) _ _ final l₅ in
    let (v, k₇, l₇) = bind-returned (check_identity f manifest operation) _ final l₆ in
    let (w, k₈, l₈) = bind-returned (check_run f manifest) _ final l₇ in
    let identity = check_identity-HasIdentity f manifest operation k₇ in
    let (repository, workflow) = check_run-same f manifest k₈ in
    let whole = finalize_published-IsFinal tools f operation provenance manifest final l₈ in
    let (tag, commit, published, told) =
      published-fields f operation provenance final whole.digest whole.made identity.tag
        identity.commit in
    record {
      operation = operation;
      provenance = provenance;
      manifest = manifest;
      digest = whole.digest;
      read_operation = json-returned f.pre_operation _ operation k₂;
      read_provenance = json-returned f.provenance _ provenance k₃;
      read_manifest = json-returned f.manifest _ manifest k₄;
      hashed = whole.hashed;
      version = identity.version;
      tarball = identity.tarball;
      workflow = workflow;
      repository = repository;
      evidence = whole.evidence;
      mode = whole.mode;
      release_tag = tag;
      source_commit = commit;
      published = published;
      told = told;
    }
