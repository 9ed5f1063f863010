-- ===== src/Tests/Provenance.antt =====
-- Runs of scripts/npm-provenance.mjs.
use symbol_nem_wallet_core.Prelude.{
  String, ℕ, zero, suc, ◌≡◌, refl, true, false, none, some, List, [], ◌∷◌, ◌++◌, codes, arith,
  same_codes, if◌then◌else◌, ◌≤◌, ◌<◌,
}
use symbol_nem_wallet_core.Js.Json.{Json, string, array, object, nil, cons, field, end, get}
use symbol_nem_wallet_core.Js.Outcome.{returned}
use symbol_nem_wallet_core.Provenance.{Url, UrlParser, npm_origin, is_foreign, safe_https_url}
use symbol_nem_wallet_core.Provenance.Attestations.{
  Response, Answer, requested, slept, fetch_attestation_record,
}
use symbol_nem_wallet_core.Provenance.Attestations.Retries.{
  Bounded, Gives, is_transient, failures, fetch_attestation_record-Bounded,
  fetch_attestation_record-delivers,
}
use symbol_nem_wallet_core.Provenance.Download.{
  Network, fetch_bytes, transfer_rounds, redirect_url, reply_end,
}
use symbol_nem_wallet_core.Provenance.Download.Registry.{IsTransfer, fetch_bytes-IsTransfer}
use symbol_nem_wallet_core.Provenance.Statements.{Decoder, Expected, ProvenanceIdentity}

abbrev registry_url : List ℕ → Url
registry_url cs = record {
  href = cs;
  protocol = codes "https:";
  origin = npm_origin;
  username = [];
  password = [];
  hash = [];
}

abbrev pub parser : UrlParser
parser cs = some (registry_url cs)

abbrev record_url : List ℕ
record_url = codes "https://registry.npmjs.org/-/npm/v1/attestations/wallet-core@0.2.0"

abbrev record_value : Json
record_value = object (field "attestations" (array nil) end)

abbrev unavailable : Response
unavailable = record { ok = false; status = some 503; json = returned record_value }

abbrev available : Response
available = record { ok = true; status = some 200; json = returned record_value }

-- no answer, then a status 503, then a record
abbrev answers : ℕ → Answer
answers zero = none
answers (suc zero) = none
answers (suc (suc zero)) = some unavailable
answers (suc (suc (suc n))) = some available

transient_answers : (j : ℕ) → 1 ≤ j → j < 3 → is_transient (answers j) ≡ true
transient_answers zero l m = absurd (omega (arith, l))
transient_answers (suc zero) l m = refl
transient_answers (suc (suc zero)) l m = refl
transient_answers (suc (suc (suc n))) l m = absurd (omega (arith, m))

answers-Gives : Gives (answers 3) record_value
unfolding get
answers-Gives = record {
  response = available;
  answered = refl;
  ok = refl;
  json = refl;
  plain = refl;
  attestations = refl;
}

fetch_attestation_record-delivers_example :
    fetch_attestation_record parser record_url
      (some answers)
      (record { attempts = some 6; initial_delay = some 2000; max_delay = some 10000 })
    ≡ (failures record_url 2000 10000 2 1 ++ requested record_url ∷ [], returned record_value)
unfolding is_foreign
fetch_attestation_record-delivers_example =
    fetch_attestation_record-delivers parser record_url (registry_url record_url) answers 5 2 2000
      10000 record_value refl refl (omega arith) (omega arith) transient_answers answers-Gives

delays_run :
    (failures record_url 2000 10000 2 1
      ≡ requested record_url ∷ slept 2000 ∷ requested record_url ∷ slept 4000 ∷ [])
delays_run = refl

fetch_attestation_record-Bounded_example : Bounded 6 10000 (
    fetch_attestation_record parser record_url
      (some (λ n. none))
      (record { attempts = some 6; initial_delay = some 2000; max_delay = some 10000 }))
fetch_attestation_record-Bounded_example =
    fetch_attestation_record-Bounded parser record_url (some (λ n. none)) 5 10000 (some 2000)

abbrev tarball_url : List ℕ
tarball_url = codes "https://registry.npmjs.org/wallet-core/-/wallet-core-0.2.0.tgz"

-- a redirect of every URL but one
abbrev network : Network
network = record {
  fetch = λ url. some (
      if same_codes url tarball_url
      then record { status = some 200; location = none; ok = true; body = returned (1 ∷ 2 ∷ []) }
      else record {
        status = some 302;
        location = some tarball_url;
        ok = false;
        body = returned [];
      });
  parse = parser;
  resolve = λ location base. some location;
}

fetch_bytes-IsTransfer_example :
    IsTransfer network 4 (fetch_bytes network (codes "https://registry.npmjs.org/x") "tarball")
fetch_bytes-IsTransfer_example =
    fetch_bytes-IsTransfer network (codes "https://registry.npmjs.org/x") "tarball"

redirect_run :
    fetch_bytes network (codes "https://registry.npmjs.org/x") "tarball"
    ≡ (codes "https://registry.npmjs.org/x" ∷ tarball_url ∷ [], returned (1 ∷ 2 ∷ []))
unfolding fetch_bytes safe_https_url is_foreign transfer_rounds redirect_url reply_end
redirect_run = refl

abbrev pub expected : Expected
expected = record {
  package_name = "@nemnesia/symbol-nem-wallet-core";
  version = "0.2.0";
  tag = "v0.2.0";
  source_commit = "0123456789abcdef0123456789abcdef01234567";
  repository = "nemnesia/symbol-nem-wallet-core";
  tarball_sha512 = "00";
  workflow_run_id = some "17";
  workflow_run_attempt = some (some 2);
}

abbrev pub statement_of : String → Json
statement_of sha512 = object (
    field "predicateType" (string "https://slsa.dev/provenance/v1") (
      field "subject"
        (array (
          cons
            (object (
              field "name" (string "pkg:npm/%40nemnesia/symbol-nem-wallet-core@0.2.0")
                (field "digest" (object (field "sha512" (string sha512) end)) end)))
            nil))
        (field "predicate"
          (object (
            field "buildDefinition"
              (object (
                field "externalParameters"
                  (object (
                    field "workflow"
                      (object (
                        field "repository"
                          (string "https://github.com/nemnesia/symbol-nem-wallet-core")
                          (field "path" (string ".github/workflows/release.yml")
                            (field "ref" (string "refs/tags/v0.2.0") end))))
                      end))
                  (field "resolvedDependencies"
                    (array (
                      cons
                        (object (
                          field "uri"
                            (string
                              "git+https://github.com/nemnesia/symbol-nem-wallet-core@refs/tags/v0.2.0")
                            (field "digest"
                              (object (
                                field "gitCommit"
                                  (string "0123456789abcdef0123456789abcdef01234567") end))
                              end)))
                        nil))
                    end)))
              (field "runDetails"
                (object (
                  field "metadata"
                    (object (
                      field "invocationId"
                        (string
                          "https://github.com/nemnesia/symbol-nem-wallet-core/actions/runs/17/attempts/2")
                        end))
                    end))
                end)))
          end)))

abbrev decoder : Decoder
decoder = record {
  decode = λ payload. payload;
  encode = λ payload. payload;
  parse = λ payload. returned (statement_of "00");
}

abbrev pub attestations : Json
attestations = array (
    cons
      (object (
        field "predicateType" (string "https://slsa.dev/provenance/v1") (
          field "bundle"
            (object (field "dsseEnvelope" (object (field "payload" (string "eyJ9") end)) end))
            end)))
      nil)

abbrev pub identities : List ProvenanceIdentity
identities =
    record {
      predicate_type = string "https://slsa.dev/provenance/v1";
      workflow_repository = string "https://github.com/nemnesia/symbol-nem-wallet-core";
      workflow_path = string ".github/workflows/release.yml";
      workflow_ref = string "refs/tags/v0.2.0";
      invocation_id =
          "https://github.com/nemnesia/symbol-nem-wallet-core/actions/runs/17/attempts/2";
    }
    ∷ []
