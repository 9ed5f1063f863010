-- ===== src/Provenance/Attestations.antt =====
-- scripts/npm-provenance.mjs: retryDelay, retryableAttestationStatus and fetchAttestationRecord.
-- The requests are answered by a parameter, and what the code does outside of itself is a list.
pub mod Retries
use symbol_nem_wallet_core.Prelude.{
  ℕ, zero, suc, ◌+◌, ◌-◌, ◌*◌, ◌^◌, String, Bool, true, false, not, ◌&&◌, ◌||◌, Option, none, some,
  List, [], ◌∷◌, ◌++◌, leb, ltb, ◌==◌, if◌then◌else◌, decimal,
}
use Prim.Native.String
use symbol_nem_wallet_core.Js.Json.{Json, is_plain_object, get, throw_if, error}
use symbol_nem_wallet_core.Js.Outcome.{Outcome, returned, thrown}
use symbol_nem_wallet_core.Operation.Spdx.{is_array}
use symbol_nem_wallet_core.Provenance.{gate, UrlParser, safe_https_url}

-- A response: `response.ok === true`, its status, none where it is no integer (those below 0 are left
-- out of the model), and what `response.json()` settles to.
pub record Response : Type 0 where
  pub ok : Bool
  pub status : Option ℕ
  pub json : Outcome Json

-- What a request settles to; none where it is rejected.
abbrev pub Answer : Type 0
Answer = Option Response

-- What happens outside: a request of a URL, or a wait of milliseconds.
pub data Event : Type 0 where
  requested : List ℕ → Event
  slept : ℕ → Event

-- A run: its events in order, and its outcome.
abbrev pub Run : Type 0
Run = List Event × Outcome Json

abbrev pub prepend : List Event → Run → Run
prepend events (more, outcome) = (events ++ more, outcome)

-- The retry policy. A value is none where it is no whole number from 0 on; a delay with a fraction
-- is left out of the model.
pub record Policy : Type 0 where
  pub attempts : Option ℕ
  pub initial_delay : Option ℕ
  pub max_delay : Option ℕ

-- ATTESTATION_RETRY_ATTEMPTS and the delays in milliseconds
abbrev pub default_policy : Policy
default_policy = record { attempts = some 6; initial_delay = some 2000; max_delay = some 10000 }

abbrev pub minimum : ℕ → ℕ → ℕ
minimum a b = if leb a b then a else b

-- retryDelay
unfoldable pub retry_delay : ℕ → ℕ → ℕ → ℕ
retry_delay attempt initial_delay max_delay = minimum max_delay (initial_delay * 2 ^ (attempt - 1))

-- retryableAttestationStatus
abbrev pub retryable_attestation_status : ℕ → Bool
retryable_attestation_status status =
    status == 404 || status == 429 || leb 500 status && leb status 599

abbrev pub malformed : String
malformed = gate "npm attestation record response is malformed"

-- The value of a response that is ok. Whatever is thrown here ends in the same message.
unfoldable pub record_of : Outcome Json → Outcome Json
record_of (thrown e) = thrown (error malformed)
record_of (returned value) =
    throw_if (not (is_plain_object value) || not (is_array (get value "attestations"))) malformed
      (returned value)

abbrev pub http_message : ℕ → String → String
http_message status suffix = gate (
    String.◌++◌ "npm attestation record request returned HTTP "
      (String.◌++◌ (decimal status) suffix))

-- What an attempt ends the loop with, or none where the loop goes on.
abbrev pub status_end : Bool → Option ℕ → Option (Outcome Json)
status_end is_last none =
    some (thrown (error (gate "npm attestation record response is ambiguous")))
status_end is_last (some status) =
    if retryable_attestation_status status
    then if is_last
      then some (thrown (error (http_message status " after bounded retry")))
      else none
    else some (thrown (error (http_message status "")))

unfoldable pub attempt_end : Bool → Answer → Option (Outcome Json)
attempt_end is_last none =
    if is_last
    then some (thrown (error (gate "npm attestation record request failed after bounded retry")))
    else none
attempt_end is_last (some response) =
    if response.ok then some (record_of response.json) else status_end is_last response.status

abbrev pub continue_with : List Event → Option (Outcome Json) → Event → Run → Run
continue_with events (some outcome) wait rest = (events, outcome)
continue_with events none wait rest = prepend (events ++ wait ∷ []) rest

-- The loop, with the number of rounds left.
unfoldable pub attempt_rounds : List ℕ → (ℕ → Answer) → ℕ → ℕ → ℕ → ℕ → ℕ → Run
attempt_rounds url fetch attempts initial_delay max_delay zero attempt =
    ([], thrown (error (gate "npm attestation record retry did not complete")))
attempt_rounds url fetch attempts initial_delay max_delay (suc left) attempt =
    continue_with (requested url ∷ []) (attempt_end (attempt == attempts) (fetch attempt))
      (slept (retry_delay attempt initial_delay max_delay))
      (attempt_rounds url fetch attempts initial_delay max_delay left (attempt + 1))

abbrev pub with_url : Outcome (List ℕ) → Run → Run
with_url (returned href) run = run
with_url (thrown e) run = ([], thrown e)

abbrev pub fetch_with : Option (ℕ → Answer) → ((ℕ → Answer) → Run) → Run
fetch_with none run = ([], thrown (error (gate "fetch is unavailable")))
fetch_with (some fetch) run = run fetch

abbrev pub with_delays : Option ℕ → Option ℕ → (ℕ → ℕ → Run) → Run
with_delays none max_delay run =
    ([], thrown (error (gate "npm attestation retry delay policy is invalid")))
with_delays (some initial_delay) none run =
    ([], thrown (error (gate "npm attestation retry delay policy is invalid")))
with_delays (some initial_delay) (some max_delay) run =
    if ltb max_delay initial_delay
    then ([], thrown (error (gate "npm attestation retry delay policy is invalid")))
    else run initial_delay max_delay

abbrev pub with_attempts : Option ℕ → (ℕ → Run) → Run
with_attempts none run = ([], thrown (error (gate "npm attestation retry attempts are invalid")))
with_attempts (some zero) run =
    ([], thrown (error (gate "npm attestation retry attempts are invalid")))
with_attempts (some (suc n)) run = run (suc n)

-- fetchAttestationRecord: `fetch` is none where fetchImpl is no function, and answers a request by
-- its number.
unfoldable pub fetch_attestation_record : UrlParser → List ℕ → Option (ℕ → Answer) → Policy → Run
fetch_attestation_record parse url fetch policy = with_attempts policy.attempts λ attempts.
    with_delays policy.initial_delay policy.max_delay λ initial_delay max_delay.
      with_url (safe_https_url parse url "npm attestations URL") (
        fetch_with fetch
          λ answers. attempt_rounds url answers attempts initial_delay max_delay attempts 1)
