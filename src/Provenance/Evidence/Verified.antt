-- ===== src/Provenance/Evidence/Verified.antt =====
-- scripts/npm-provenance.mjs: the provenance evidence that is accepted.
use symbol_nem_wallet_core.Prelude.{
  String, Bool, true, false, not, ◌&&◌, ◌||◌, List, [], ◌≡◌, ◌≢◌, refl, ◌∙◌, subst, arith, codes,
  All, or-false, not-false,
}
use symbol_nem_wallet_core.Js.Json.{
  Json, undefined, null, boolean, number, string, array, object, opaque, is_plain_object, get,
  is_string, is_number, is_same, is_string-eq, throw_if-returned,
}
use symbol_nem_wallet_core.Js.Outcome.{Outcome, returned, thrown, bind-returned}
use symbol_nem_wallet_core.Manifest.Versions.{is_digest}
use symbol_nem_wallet_core.Npm.Repository.{expected_npm_repository, same_json}
use symbol_nem_wallet_core.Npm.Repository.Canonical.{
  HaveTexts, validate_npm_repository_metadata-HaveTexts,
}
use symbol_nem_wallet_core.Operation.Spdx.{element_list, is_array}
use symbol_nem_wallet_core.Provenance.Statements.{
  ProvenanceIdentity, provenance_identities, validate_audit_signatures,
}
use symbol_nem_wallet_core.Provenance.Statements.Bound.{
  HasAttestation, provenance_identities-HasAttestation,
}
use symbol_nem_wallet_core.Provenance.Evidence.{
  Tools, Release, check_header, registry_differs, is_undefined, integrity_of, check_digest,
  check_registry, canonical_differs, check_artifacts, check_urls, metadata_differs, rethrown,
  check_metadata, with_digest, identity_items, summary_differs, check_summary, attestations_of,
  check_provenance, validate_npm_provenance_evidence,
}

-- The identity fields of the evidence.
pub record IsOfRelease (evidence : Json) (release : Release) : Type 0 where
  pub package_name : get evidence "package_name" ≡ string release.expected.package_name
  pub version : get evidence "package_version" ≡ string release.expected.version
  pub tag : get evidence "release_tag" ≡ string release.expected.tag
  pub commit : get evidence "source_commit" ≡ string release.expected.source_commit
  pub environment : get evidence "environment" ≡ string release.environment

differs-eq : (v : Json) (s : String) → not (is_string v s) ≡ false → v ≡ string s
differs-eq v s k = is_string-eq v s (not-false _ k)

check_header-IsOfRelease :
    (evidence : Json) (release : Release)
    → check_header evidence release ≡ returned tt
    → IsOfRelease evidence release
unfolding check_header
check_header-IsOfRelease evidence release k =
    let (schema, k₁) =
      throw_if-returned
        (not (is_plain_object evidence)
          || not (is_number (get evidence "schema_version") "1")
          || not (is_string (get evidence "artifact_kind") "npm-provenance"))
        _ _ tt k in
    let (same, k₂) = throw_if-returned _ _ (returned tt) tt k₁ in
    let (d₄, environment) =
      or-false _ (not (is_string (get evidence "environment") release.environment)) same in
    let (d₃, commit) =
      or-false _ (not (is_string (get evidence "source_commit") release.expected.source_commit))
        d₄ in
    let (d₂, tag) =
      or-false _ (not (is_string (get evidence "release_tag") release.expected.tag)) d₃ in
    let (name, version) =
      or-false (not (is_string (get evidence "package_name") release.expected.package_name))
        (not (is_string (get evidence "package_version") release.expected.version)) d₂ in
    record {
      package_name = differs-eq _ _ name;
      version = differs-eq _ _ version;
      tag = differs-eq _ _ tag;
      commit = differs-eq _ _ commit;
      environment = differs-eq _ _ environment;
    }

-- The digests that the registry tells.
pub record HasDigests (tools : Tools) (registry : Json) (release : Release) (sha512 : String)
    : Type 0 where
  pub digest : get registry "tarball_sha512" ≡ string sha512
  pub hexadecimal : is_digest 128 (codes sha512) ≡ true
  pub integrity : get registry "dist_integrity" ≡ string (integrity_of tools sha512)
  pub downloaded :
      is_undefined release.tarball_sha512 ≡ false
      → is_same (string sha512) release.tarball_sha512 ≡ true
  pub tarball : is_same (get registry "tarball_sha256") release.tarball_sha256 ≡ true
  pub size : is_same (get registry "tarball_size") release.tarball_size ≡ true

known-same : (a b : Bool) → (not a && not b) ≡ false → a ≡ false → b ≡ true
known-same a b k e = ground arith

check_digest-HasDigests :
    (tools : Tools) (registry v w : Json) (release : Release) (sha512 : String)
    → get registry "tarball_sha512" ≡ v
    → get registry "dist_integrity" ≡ w
    → is_same (get registry "tarball_sha256") release.tarball_sha256 ≡ true
    → is_same (get registry "tarball_size") release.tarball_size ≡ true
    → check_digest tools release v w ≡ returned sha512
    → HasDigests tools registry release sha512
check_digest-HasDigests tools registry (string d) (string i) release sha512 p r t z k =
    let (hexadecimal, k₁) = throw_if-returned (not (is_digest 128 (codes d))) _ _ sha512 k in
    let (integrity, k₂) =
      throw_if-returned (not (is_string (string i) (integrity_of tools d))) _ _ sha512 k₁ in
    let (known, k₃) =
      throw_if-returned
        (not (is_undefined release.tarball_sha512)
          && not (is_same (string d) release.tarball_sha512))
        _ _ sha512 k₂ in
    let q : d ≡ sha512 = ground arith in
    subst (HasDigests tools registry release) q (record {
      digest = p;
      hexadecimal = not-false _ hexadecimal;
      integrity = r ∙ differs-eq (string i) (integrity_of tools d) integrity;
      downloaded = λ e. known-same (is_undefined release.tarball_sha512) _ known e;
      tarball = t;
      size = z;
    })
check_digest-HasDigests tools registry (string d) undefined release sha512 p r t z k = cc
check_digest-HasDigests tools registry (string d) null release sha512 p r t z k = cc
check_digest-HasDigests tools registry (string d) (boolean b) release sha512 p r t z k = cc
check_digest-HasDigests tools registry (string d) (number n) release sha512 p r t z k = cc
check_digest-HasDigests tools registry (string d) (array vs) release sha512 p r t z k = cc
check_digest-HasDigests tools registry (string d) (object fs) release sha512 p r t z k = cc
check_digest-HasDigests tools registry (string d) (opaque n) release sha512 p r t z k = cc
check_digest-HasDigests tools registry undefined w release sha512 p r t z k = cc
check_digest-HasDigests tools registry null w release sha512 p r t z k = cc
check_digest-HasDigests tools registry (boolean b) w release sha512 p r t z k = cc
check_digest-HasDigests tools registry (number n) w release sha512 p r t z k = cc
check_digest-HasDigests tools registry (array vs) w release sha512 p r t z k = cc
check_digest-HasDigests tools registry (object fs) w release sha512 p r t z k = cc
check_digest-HasDigests tools registry (opaque n) w release sha512 p r t z k = cc

check_registry-HasDigests :
    (tools : Tools) (registry : Json) (release : Release) (sha512 : String)
    → check_registry tools registry release ≡ returned sha512
    → HasDigests tools registry release sha512
unfolding check_registry
check_registry-HasDigests tools registry release sha512 k =
    let (same, k₁) = throw_if-returned (registry_differs registry release) _ _ sha512 k in
    let (d, size) =
      or-false _ (not (is_same (get registry "tarball_size") release.tarball_size)) same in
    let (e, tarball) =
      or-false _ (not (is_same (get registry "tarball_sha256") release.tarball_sha256)) d in
    check_digest-HasDigests tools registry (get registry "tarball_sha512")
      (get registry "dist_integrity") release sha512 refl refl (not-false _ tarball)
      (not-false _ size) k₁

rethrown-returned : (m : Outcome (Unit {0})) → rethrown m ≡ returned tt → m ≡ returned tt
rethrown-returned (returned u) k = k
rethrown-returned (thrown e) k = cc

-- Identities that the registry's attestations tell, which the evidence sums up.
pub record IsAttestedBy (tools : Tools) (evidence : Json) (release : Release) (sha512 : String)
    : Type 0 where
  pub identities : List ProvenanceIdentity
  pub some_identities : identities ≢ []
  pub attested :
      All
        (HasAttestation tools.decoder
          (with_digest release.expected sha512)
          (element_list (attestations_of evidence)))
        identities
  pub summary :
      same_json
        (get (get evidence "provenance") "identities")
        (array (identity_items (with_digest release.expected sha512) identities))
      ≡ true
  pub status : get (get evidence "verification") "status" ≡ string "PASS"
  pub audited :
      validate_audit_signatures
        (get evidence "audit_signatures")
        (with_digest release.expected sha512)
      ≡ returned tt

check_provenance-IsAttestedBy :
    (tools : Tools) (evidence : Json) (release : Release) (sha512 : String)
    → check_provenance tools evidence (with_digest release.expected sha512) ≡ returned tt
    → IsAttestedBy tools evidence release sha512
unfolding check_provenance check_summary
check_provenance-IsAttestedBy tools evidence release sha512 k =
    let expected = with_digest release.expected sha512 in
    let (identities, k₁, k₂) =
      bind-returned (provenance_identities tools.decoder (attestations_of evidence) expected) _ tt
        k in
    let (full, attested) =
      provenance_identities-HasAttestation tools.decoder (attestations_of evidence) expected
        identities k₁ in
    let (summed, k₃) =
      throw_if-returned
        (summary_differs (get (get evidence "provenance") "identities") expected identities) _ _ tt
        k₂ in
    let (is_list, summary) =
      or-false (not (is_array (get (get evidence "provenance") "identities"))) _ summed in
    let (verified, k₄) =
      throw_if-returned
        (not (is_string (get (get evidence "verification") "status") "PASS")
          || not (
              is_string (get (get evidence "verification") "command")
                "npm audit signatures --json --include-attestations"))
        _ _ tt k₃ in
    let (status, command) =
      or-false (not (is_string (get (get evidence "verification") "status") "PASS")) _ verified in
    record {
      identities = identities;
      some_identities = full;
      attested = attested;
      summary = not-false _ summary;
      status = differs-eq _ _ status;
      audited = k₄;
    }

-- The registry's metadata: the package and the version, what the registry tells of the tarball and
-- the attestations, and the canonical repository.
pub record IsMetadata (metadata registry : Json) (release : Release) : Type 0 where
  pub name : get metadata "name" ≡ string release.expected.package_name
  pub version : get metadata "version" ≡ string release.expected.version
  pub tarball : is_same (get (get metadata "dist") "tarball") (get registry "tarball_url") ≡ true
  pub integrity :
      is_same (get (get metadata "dist") "integrity") (get registry "dist_integrity") ≡ true
  pub attestations :
      is_same
        (get (get (get metadata "dist") "attestations") "url")
        (get registry "attestations_url")
      ≡ true
  pub repository : HaveTexts (get metadata "repository") expected_npm_repository

check_metadata-IsMetadata :
    (metadata registry : Json) (release : Release)
    → check_metadata metadata registry release ≡ returned tt
    → IsMetadata metadata registry release
unfolding check_metadata
check_metadata-IsMetadata metadata registry release k =
    let (same, k₁) = throw_if-returned (metadata_differs metadata registry release) _ _ tt k in
    let (d₁, attestations) =
      or-false _
        (not (
          is_same (get (get (get metadata "dist") "attestations") "url")
            (get registry "attestations_url")))
        same in
    let (d₂, integrity) =
      or-false _
        (not (is_same (get (get metadata "dist") "integrity") (get registry "dist_integrity")))
        d₁ in
    let (d₃, tarball) =
      or-false _ (not (is_same (get (get metadata "dist") "tarball") (get registry "tarball_url")))
        d₂ in
    let (d₄, plain) = or-false _ (not (is_plain_object (get metadata "dist"))) d₃ in
    let (d₅, version) =
      or-false _ (not (is_string (get metadata "version") release.expected.version)) d₄ in
    let (d₆, name) =
      or-false _ (not (is_string (get metadata "name") release.expected.package_name)) d₅ in
    record {
      name = differs-eq _ _ name;
      version = differs-eq _ _ version;
      tarball = not-false _ tarball;
      integrity = not-false _ integrity;
      attestations = not-false _ attestations;
      repository =
          validate_npm_repository_metadata-HaveTexts metadata "npm registry metadata evidence"
            (rethrown-returned _ k₁);
    }

-- The canonical artifact: what the registry tells of the tarball.
pub record IsCanonicalArtifact (canonical registry : Json) : Type 0 where
  pub source : get canonical "source" ≡ string "registry"
  pub sha256 : is_same (get canonical "sha256") (get registry "tarball_sha256") ≡ true
  pub sha512 : is_same (get canonical "sha512") (get registry "tarball_sha512") ≡ true
  pub size : is_same (get canonical "size") (get registry "tarball_size") ≡ true
  pub integrity : is_same (get canonical "integrity") (get registry "dist_integrity") ≡ true
  pub tarball_url : is_same (get canonical "tarball_url") (get registry "tarball_url") ≡ true

canonical_differs-IsCanonicalArtifact :
    (canonical registry : Json)
    → canonical_differs canonical registry ≡ false
    → IsCanonicalArtifact canonical registry
canonical_differs-IsCanonicalArtifact canonical registry d =
    let (d₁, url) =
      or-false _ (not (is_same (get canonical "tarball_url") (get registry "tarball_url"))) d in
    let (d₂, integrity) =
      or-false _ (not (is_same (get canonical "integrity") (get registry "dist_integrity"))) d₁ in
    let (d₃, size) =
      or-false _ (not (is_same (get canonical "size") (get registry "tarball_size"))) d₂ in
    let (d₄, sha512) =
      or-false _ (not (is_same (get canonical "sha512") (get registry "tarball_sha512"))) d₃ in
    let (d₅, sha256) =
      or-false _ (not (is_same (get canonical "sha256") (get registry "tarball_sha256"))) d₄ in
    let (plain, source) = or-false _ (not (is_string (get canonical "source") "registry")) d₅ in
    record {
      source = differs-eq _ _ source;
      sha256 = not-false _ sha256;
      sha512 = not-false _ sha512;
      size = not-false _ size;
      integrity = not-false _ integrity;
      tarball_url = not-false _ url;
    }

-- Evidence of the provenance of a release.
pub record IsEvidence (tools : Tools) (evidence : Json) (release : Release) : Type 0 where
  pub of_release : IsOfRelease evidence release
  pub sha512 : String
  pub digests : HasDigests tools (get evidence "registry") release sha512
  pub canonical : IsCanonicalArtifact (get evidence "canonical_artifact") (get evidence "registry")
  pub metadata : IsMetadata (get evidence "registry_metadata") (get evidence "registry") release
  pub provenance : IsAttestedBy tools evidence release sha512

-- When validateNpmProvenanceEvidence returns, the evidence has the package, the version, the tag, the
-- commit and the environment of the release; the registry tells the digests that are expected, and
-- an integrity that is the Base64 of its SHA-512; the canonical artifact has the digests, the size,
-- the integrity and the tarball URL of the registry; the metadata has the package and the version,
-- the tarball, the integrity and the attestations of the registry, and the canonical repository; and
-- the registry's attestations, checked against the same SHA-512, tell the identities that the
-- evidence sums up, of which there is at least one, and which the signature verifier passed.
pub validate_npm_provenance_evidence-IsEvidence :
    (tools : Tools) (evidence : Json) (release : Release)
    → validate_npm_provenance_evidence tools evidence release ≡ returned tt
    → IsEvidence tools evidence release
unfolding validate_npm_provenance_evidence check_artifacts
validate_npm_provenance_evidence-IsEvidence tools evidence release k =
    let registry = get evidence "registry" in
    let metadata = get evidence "registry_metadata" in
    let (a, k₁, l₁) = bind-returned (check_header evidence release) _ tt k in
    let (sha512, k₂, l₂) = bind-returned (check_registry tools registry release) _ tt l₁ in
    let (b, k₃, l₃) = bind-returned (check_artifacts evidence registry) _ tt l₂ in
    let (c, k₄, l₄) = bind-returned (check_urls tools registry release) _ tt l₃ in
    let (d, k₅, l₅) = bind-returned (check_metadata metadata registry release) _ tt l₄ in
    let (canonical, k₆) =
      throw_if-returned (canonical_differs (get evidence "canonical_artifact") registry) _ _ tt
        k₃ in
    record {
      of_release = check_header-IsOfRelease evidence release k₁;
      sha512 = sha512;
      digests = check_registry-HasDigests tools registry release sha512 k₂;
      canonical =
          canonical_differs-IsCanonicalArtifact (get evidence "canonical_artifact") registry
            canonical;
      metadata = check_metadata-IsMetadata metadata registry release k₅;
      provenance = check_provenance-IsAttestedBy tools evidence release sha512 l₅;
    }
