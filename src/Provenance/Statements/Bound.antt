-- ===== src/Provenance/Statements/Bound.antt =====
-- scripts/npm-provenance.mjs: the attestations behind the identities of a provenance.
use symbol_nem_wallet_core.Prelude.{
  String, Bool, true, false, not, ◌&&◌, ◌||◌, Option, none, some, List, [], ◌∷◌, ◌≡◌, ◌≢◌, refl,
  subst, inl, inr, arith, any, All, In, ◌==◌, ◌===◌, Bool-cases, and-true, not-false, length,
  eq_iff,
}
use symbol_nem_wallet_core.Js.Json.{
  Json, undefined, null, boolean, number, string, array, object, opaque, is_plain_object, get,
  is_same, throw_if-returned,
}
use symbol_nem_wallet_core.Js.Outcome.{Outcome, returned, thrown, bind-returned, traverse}
use symbol_nem_wallet_core.Operation.{is_text_value}
use symbol_nem_wallet_core.Operation.Spdx.{element_list, is_array}
use symbol_nem_wallet_core.Provenance.Statements.Told.{IsStatement, statement_identity-IsStatement}
use symbol_nem_wallet_core.Provenance.Statements.{
  Decoder, Expected, is_provenance_type, decode_payload, parsed_payload, payload_statement,
  decode_statement, is_subject, ProvenanceIdentity, typed_identity, is_null, check_statement,
  provenance_identity, present_of, some_identities, provenance_identities,
}

-- The attestation whose statement, the canonical payload of its bundle, the identity is read from.
pub record IsAttested (decoder : Decoder) (expected : Expected) (attestation : Json)
    (identity : ProvenanceIdentity) : Type 0 where
  pub payload : String
  pub payload_text : get (get (get attestation "bundle") "dsseEnvelope") "payload" ≡ string payload
  pub canonical : decoder.encode (decoder.decode payload) ≡ payload
  pub statement : Json
  pub parsed : decoder.parse (decoder.decode payload) ≡ returned statement
  pub is_statement : IsStatement expected (get attestation "predicateType") statement identity

-- What a payload is decoded to.
abbrev Decoded : Decoder → Json → Json → Type 0
Decoded decoder v statement =
    (payload : String) × (v ≡ string payload)
    × (decoder.encode (decoder.decode payload) ≡ payload)
    × (decoder.parse (decoder.decode payload) ≡ returned statement)

parsed_payload-returned :
    (label : String) (m : Outcome Json) (statement : Json)
    → parsed_payload label m ≡ returned statement
    → m ≡ returned statement
parsed_payload-returned label (returned v) statement k = k
parsed_payload-returned label (thrown e) statement k = cc

payload_statement-Decoded :
    (decoder : Decoder) (v : Json) (label : String) (statement : Json)
    → payload_statement decoder v label ≡ returned statement
    → Decoded decoder v statement
unfolding decode_payload
payload_statement-Decoded decoder (string payload) label statement k =
    elim (Bool-cases (decoder.encode (decoder.decode payload) === payload)) [
      | inl e ↦
          (payload, refl, (eq_iff _ _).0 e, parsed_payload-returned label _ statement (rw e at k))
      | inr e ↦ cc (rw e at k)
    ]
payload_statement-Decoded decoder undefined label statement k = cc
payload_statement-Decoded decoder null label statement k = cc
payload_statement-Decoded decoder (boolean b) label statement k = cc
payload_statement-Decoded decoder (number t) label statement k = cc
payload_statement-Decoded decoder (array vs) label statement k = cc
payload_statement-Decoded decoder (object fs) label statement k = cc
payload_statement-Decoded decoder (opaque t) label statement k = cc

typed_identity-some :
    (typed : Bool) (m : Outcome ProvenanceIdentity) (identity : ProvenanceIdentity)
    → typed_identity typed m ≡ returned (some identity)
    → (typed ≡ true) × (m ≡ returned identity)
typed_identity-some true m identity k =
    let (found, e, f) = bind-returned m _ (some identity) k in
    let q : found ≡ identity = ground arith in (refl, rw q at e)
typed_identity-some false m identity k = cc

check_statement-IsStatement :
    (expected : Expected) (predicate_type statement : Json) (identity : ProvenanceIdentity)
    → check_statement expected predicate_type statement ≡ returned (some identity)
    → IsStatement expected predicate_type statement identity
unfolding check_statement
check_statement-IsStatement expected predicate_type statement identity k =
    let (c, k₁) = throw_if-returned (is_null statement) _ _ (some identity) k in
    let (same, k₂) =
      throw_if-returned (not (is_same (get statement "predicateType") predicate_type)) _ _
        (some identity) k₁ in
    let (subject, k₃) =
      throw_if-returned
        (not (
          is_array (get statement "subject")
          && any (is_subject expected) (element_list (get statement "subject"))))
        _ _ (some identity) k₂ in
    let (is_list, subjects) =
      and-true (is_array (get statement "subject")) _ (not-false _ subject) in
    let (typed, k₄) = typed_identity-some (is_provenance_type predicate_type) _ identity k₃ in
    statement_identity-IsStatement expected predicate_type statement identity typed
      (not-false _ same) subjects k₄

provenance_identity-IsAttested :
    (decoder : Decoder) (expected : Expected) (attestation : Json) (identity : ProvenanceIdentity)
    → provenance_identity decoder expected attestation ≡ returned (some identity)
    → IsAttested decoder expected attestation identity
unfolding provenance_identity decode_statement
provenance_identity-IsAttested decoder expected attestation identity k =
    let predicate_type = get attestation "predicateType" in
    let bundle = get attestation "bundle" in
    let (c, k₁) =
      throw_if-returned (not (is_plain_object attestation) || not (is_text_value predicate_type)) _
        _ (some identity) k in
    let (statement, k₂, k₃) =
      bind-returned (decode_statement decoder bundle _) _ (some identity) k₁ in
    let (d, k₄) =
      throw_if-returned
        (not (is_plain_object bundle) || not (is_plain_object (get bundle "dsseEnvelope"))) _ _
        statement k₂ in
    let (payload, text, canonical, parsed) =
      payload_statement-Decoded decoder (get (get bundle "dsseEnvelope") "payload") _ statement
        k₄ in
    record {
      payload = payload;
      payload_text = text;
      canonical = canonical;
      statement = statement;
      parsed = parsed;
      is_statement = check_statement-IsStatement expected predicate_type statement identity k₃;
    }

-- One of the attestations stands behind an identity.
pub record HasAttestation (decoder : Decoder) (expected : Expected) (attestations : List Json)
    (identity : ProvenanceIdentity) : Type 0 where
  pub attestation : Json
  pub listed : In attestation attestations
  pub attested : IsAttested decoder expected attestation identity

module _ (decoder : Decoder) (expected : Expected) where
  have-more :
      (attestation : Json) (attestations : List Json) (identities : List ProvenanceIdentity)
      → All (HasAttestation decoder expected attestations) identities
      → All (HasAttestation decoder expected (attestation ∷ attestations)) identities
  have-more attestation attestations [] k = tt
  have-more attestation attestations (identity ∷ identities) (h, hs) = (
    record { attestation = h.attestation; listed = inr h.listed; attested = h.attested },
    have-more attestation attestations identities hs,
  )

  have-first :
      (attestation : Json) (attestations : List Json) (found : Option ProvenanceIdentity)
      (rest : List (Option ProvenanceIdentity))
      → provenance_identity decoder expected attestation ≡ returned found
      → All (HasAttestation decoder expected attestations) (present_of rest)
      → All
          (HasAttestation decoder expected (attestation ∷ attestations))
          (present_of (found ∷ rest))
  have-first attestation attestations none rest k hs =
      have-more attestation attestations (present_of rest) hs
  have-first attestation attestations (some identity) rest k hs = (
    record {
      attestation = attestation;
      listed = inl refl;
      attested = provenance_identity-IsAttested decoder expected attestation identity k;
    },
    have-more attestation attestations (present_of rest) hs,
  )

  traverse-HasAttestation :
      (attestations : List Json) (found : List (Option ProvenanceIdentity))
      → traverse (provenance_identity decoder expected) attestations ≡ returned found
      → All (HasAttestation decoder expected attestations) (present_of found)
  unfolding traverse
  traverse-HasAttestation [] found k = let q : [] ≡ found = ground arith in rw (← q) tt
  traverse-HasAttestation (attestation ∷ attestations) found k =
      let (first, k₁, k₂) =
        bind-returned (provenance_identity decoder expected attestation) _ found k in
      let (rest, k₃, k₄) =
        bind-returned (traverse (provenance_identity decoder expected) attestations) _ found k₂ in
      let q : first ∷ rest ≡ found = ground arith in
      subst (λ w. All (HasAttestation decoder expected (attestation ∷ attestations)) (present_of w))
        q
        (have-first attestation attestations first rest k₁
          (traverse-HasAttestation attestations rest k₃))

some_identities-same :
    (found identities : List ProvenanceIdentity)
    → some_identities found ≡ returned identities
    → (found ≡ identities) × (identities ≢ [])
some_identities-same [] identities k = cc
some_identities-same (i ∷ is₁) identities k =
    let q : i ∷ is₁ ≡ identities = ground arith in (q, λ e. cc)

-- When provenanceIdentities returns, there is an identity, and behind each stands one of the
-- attestations: its payload is canonical Base64 of a statement of a provenance type, with a subject
-- of the package and the version and the digest of the tarball, with the release workflow of the
-- repository at the tag, with the repository at the tag and the commit as a source, and with the
-- invocation id of the identity, a run of the repository, and the run and the attempt that are
-- expected.
pub provenance_identities-HasAttestation :
    (decoder : Decoder) (attestations : Json) (expected : Expected)
    (identities : List ProvenanceIdentity)
    → provenance_identities decoder attestations expected ≡ returned identities
    → (identities ≢ [])
      × All (HasAttestation decoder expected (element_list attestations)) identities
unfolding provenance_identities
provenance_identities-HasAttestation decoder attestations expected identities k =
    let (c, k₁) =
      throw_if-returned (not (is_array attestations) || length (element_list attestations) == 0) _ _
        identities k in
    let (found, k₂, k₃) =
      bind-returned (traverse (provenance_identity decoder expected) (element_list attestations)) _
        identities k₁ in
    let (same, full) = some_identities-same (present_of found) identities k₃ in
    (
      full,
      subst (All (HasAttestation decoder expected (element_list attestations))) same
          (traverse-HasAttestation decoder expected (element_list attestations) found k₂),
    )
