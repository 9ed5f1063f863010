-- ===== src/Provenance/Attestations/Retries.antt =====
-- scripts/npm-provenance.mjs: the retries of fetchAttestationRecord end, and reach an answer.
use symbol_nem_wallet_core.Prelude.{
  ℕ, zero, suc, ◌+◌, ◌-◌, ◌*◌, ◌^◌, ◌≤◌, ◌<◌, Bool, true, false, not, ◌&&◌, ◌||◌, Option, none,
  some, List, [], ◌∷◌, ◌++◌, ◌≡◌, refl, arith, leb, ltb, ◌==◌, if◌then◌else◌, Bool-cases,
  Option-cases, inl, inr, and-true,
}
use symbol_nem_wallet_core.Js.Json.{Json, is_plain_object, get}
use symbol_nem_wallet_core.Js.Outcome.{Outcome, returned, thrown}
use symbol_nem_wallet_core.Operation.Spdx.{is_array}
use symbol_nem_wallet_core.Provenance.{UrlParser, Url, is_foreign, safe_https_url}
use symbol_nem_wallet_core.Provenance.Attestations.{
  Response, Answer, Event, requested, slept, Run, minimum, retry_delay,
  retryable_attestation_status, record_of, status_end, attempt_end, with_url, with_delays,
  fetch_with, attempt_rounds, fetch_attestation_record,
}

abbrev pub retryable_status : Option ℕ → Bool
retryable_status none = false
retryable_status (some status) = status == 404 || status == 429 || leb 500 status && leb status 599

-- An answer after which another may differ: none, or a status that is worth a retry.
abbrev pub is_transient : Answer → Bool
is_transient none = true
is_transient (some response) = not response.ok && retryable_status response.status

-- An answer with a record.
pub record Gives (answer : Answer) (value : Json) : Type 0 where
  pub response : Response
  pub answered : answer ≡ some response
  pub ok : response.ok ≡ true
  pub json : response.json ≡ returned value
  pub plain : is_plain_object value ≡ true
  pub attestations : is_array (get value "attestations") ≡ true

-- The requests and waits of some attempts that fail, from an attempt on.
abbrev pub failures : List ℕ → ℕ → ℕ → ℕ → ℕ → List Event
failures url initial_delay max_delay zero attempt = []
failures url initial_delay max_delay (suc n) attempt =
    requested url
    ∷ slept (minimum max_delay (initial_delay * 2 ^ (attempt - 1)))
    ∷ failures url initial_delay max_delay n (attempt + 1)

attempt_end-Gives :
    (is_last : Bool) (answer : Answer) (value : Json)
    → Gives answer value
    → attempt_end is_last answer ≡ some (returned value)
unfolding attempt_end record_of
attempt_end-Gives is_last answer value gives =
    rw (gives.answered, gives.ok, gives.json, gives.plain, gives.attestations) refl

attempt_end-transient :
    (answer : Answer) → is_transient answer ≡ true → attempt_end false answer ≡ none
unfolding attempt_end
attempt_end-transient none t = refl
attempt_end-transient (some response) t =
    let (ok, retry) = and-true (not response.ok) (retryable_status response.status) t in
    let e : response.ok ≡ false = ground arith in status response.ok response.status e retry
  where
    status :
        (ok : Bool) (s : Option ℕ)
        → ok ≡ false
        → retryable_status s ≡ true
        → (if ok then some (record_of response.json) else status_end false s) ≡ none
    status ok none e r = cc
    status ok (some s) e r = rw (e, r) refl

status_end-last : (s : Option ℕ) → status_end true s ≡ none → ⊥
status_end-last none t = cc
status_end-last (some s) t = elim (Bool-cases (retryable_attestation_status s)) [
  | inl e ↦ cc (rw e at t)
  | inr e ↦ cc (rw e at t)
]

attempt_end-last : (answer : Answer) → attempt_end true answer ≡ none → ⊥
unfolding attempt_end
attempt_end-last none t = cc
attempt_end-last (some response) t = elim (Bool-cases response.ok) [
  | inl e ↦ cc (rw e at t)
  | inr e ↦ status_end-last response.status (rw e at t)
]

module _ (url : List ℕ) (answers : ℕ → Answer) (attempts initial_delay max_delay : ℕ) where
  attempt_rounds-delivers :
      (n left attempt k : ℕ) (value : Json)
      → n < left
      → attempt + left ≡ attempts + 1
      → attempt + n ≡ k
      → ((j : ℕ) → attempt ≤ j → j < k → is_transient (answers j) ≡ true)
      → Gives (answers k) value
      → attempt_rounds url answers attempts initial_delay max_delay left attempt
        ≡ (failures url initial_delay max_delay n attempt ++ requested url ∷ [], returned value)
  unfolding attempt_rounds retry_delay
  attempt_rounds-delivers n zero attempt k value l e f transient gives = absurd (omega arith)
  attempt_rounds-delivers zero (suc left) attempt k value l e f transient gives =
      let q : k ≡ attempt = omega arith in
      rw (attempt_end-Gives (attempt == attempts) (answers attempt) value (rw q at gives)) refl
  attempt_rounds-delivers (suc n) (suc left) attempt k value l e f transient gives =
      let d : (attempt == attempts) ≡ false = ground arith in
      let t =
        attempt_end-transient (answers attempt) (transient attempt (omega arith) (omega arith)) in
      let ih =
        attempt_rounds-delivers n left (attempt + 1) k value (omega arith) (omega arith)
          (omega arith) (λ j a b. transient j (omega arith) b) gives in
      rw (d, t, ih) refl

-- How many requests and how many waits there are, and that no wait is longer than the maximum.
abbrev pub requests : List Event → ℕ
requests [] = 0
requests (requested url ∷ events) = suc (requests events)
requests (slept n ∷ events) = requests events

abbrev pub waits : List Event → ℕ
waits [] = 0
waits (requested url ∷ events) = waits events
waits (slept n ∷ events) = suc (waits events)

abbrev pub WaitAtMost : ℕ → List Event → Type 0
WaitAtMost max_delay [] = Unit
WaitAtMost max_delay (requested url ∷ events) = WaitAtMost max_delay events
WaitAtMost max_delay (slept n ∷ events) = (n ≤ max_delay) × WaitAtMost max_delay events

pub record Bounded (attempts max_delay : ℕ) (run : Run) : Type 0 where
  pub few_requests : requests (run.0) ≤ attempts
  pub fewer_waits : waits (run.0) < attempts
  pub short_waits : WaitAtMost max_delay (run.0)

minimum-le : (a b : ℕ) → minimum a b ≤ a
minimum-le a b = ground arith

module _ (url : List ℕ) (answers : ℕ → Answer) (attempts initial_delay max_delay : ℕ) where
  attempt_rounds-Bounded :
      (left attempt : ℕ)
      → attempt + suc left ≡ attempts + 1
      → Bounded
          (suc left)
          max_delay
          (attempt_rounds url answers attempts initial_delay max_delay (suc left) attempt)
  unfolding attempt_rounds retry_delay
  attempt_rounds-Bounded zero attempt e =
      let q : (attempt == attempts) ≡ true = ground arith in
      elim (Option-cases (attempt_end true (answers attempt))) [
        | inl t ↦ absurd (attempt_end-last (answers attempt) t)
        | inr (outcome, t) ↦
            rw (q, t)
              (record { few_requests = omega arith; fewer_waits = omega arith; short_waits = tt })
      ]
  attempt_rounds-Bounded (suc left) attempt e =
      elim (Option-cases (attempt_end (attempt == attempts) (answers attempt))) [
        | inl t ↦
            let ih = attempt_rounds-Bounded left (attempt + 1) (omega arith) in
            rw t (record {
              few_requests = omega (arith, ih.few_requests);
              fewer_waits = omega (arith, ih.fewer_waits);
              short_waits = (minimum-le max_delay _, ih.short_waits);
            })
        | inr (outcome, t) ↦
            rw t
              (record { few_requests = omega arith; fewer_waits = omega arith; short_waits = tt })
      ]

none-Bounded : (n m : ℕ) (outcome : Outcome Json) → 0 < n → Bounded n m ([], outcome)
none-Bounded n m outcome p = record {
  few_requests = omega (arith, p);
  fewer_waits = omega (arith, p);
  short_waits = tt;
}

with_url-Bounded :
    (n m : ℕ) (href : Outcome (List ℕ)) (run : Run)
    → 0 < n
    → Bounded n m run
    → Bounded n m (with_url href run)
with_url-Bounded n m (returned href) run p b = b
with_url-Bounded n m (thrown e) run p b = none-Bounded n m (thrown e) p

fetch_with-Bounded :
    (n m : ℕ) (fetch : Option (ℕ → Answer)) (run : (ℕ → Answer) → Run)
    → 0 < n
    → ((answers : ℕ → Answer) → Bounded n m (run answers))
    → Bounded n m (fetch_with fetch run)
fetch_with-Bounded n m none run p b = none-Bounded n m _ p
fetch_with-Bounded n m (some answers) run p b = b answers

with_delays-Bounded :
    (n m : ℕ) (initial_delay : Option ℕ) (run : ℕ → ℕ → Run)
    → 0 < n
    → ((i : ℕ) → Bounded n m (run i m))
    → Bounded n m (with_delays initial_delay (some m) run)
with_delays-Bounded n m none run p b = none-Bounded n m _ p
with_delays-Bounded n m (some i) run p b = elim (Bool-cases (ltb m i)) [
  | inl e ↦ rw e (none-Bounded n m _ p)
  | inr e ↦ rw e (b i)
]

-- However the requests are answered, fetchAttestationRecord ends after at most as many requests as
-- the policy has attempts, with fewer waits than that, none of them longer than the maximum of the
-- policy.
pub fetch_attestation_record-Bounded :
    (parse : UrlParser) (url : List ℕ) (fetch : Option (ℕ → Answer)) (n m : ℕ)
    (initial_delay : Option ℕ)
    → Bounded (suc n) m (
        fetch_attestation_record parse url fetch
          (record { attempts = some (suc n); initial_delay = initial_delay; max_delay = some m }))
unfolding fetch_attestation_record
fetch_attestation_record-Bounded parse url fetch n m initial_delay =
    with_delays-Bounded (suc n) m initial_delay _ (omega arith) λ i.
      with_url-Bounded (suc n) m _ _ (omega arith) (
        fetch_with-Bounded (suc n) m fetch _ (omega arith)
          λ answers. attempt_rounds-Bounded url answers (suc n) i m n 1 (omega arith))

-- When the policy is valid and the URL is one of the registry, and one of the attempts is answered
-- with a record, while those before are answered by failures that are worth a retry, or not at all,
-- fetchAttestationRecord returns that record. It has requested the URL once for each attempt up to
-- that one, and waited between two requests for the delay of the policy, which doubles up to the
-- maximum.
pub fetch_attestation_record-delivers :
    (parse : UrlParser) (url : List ℕ) (u : Url) (answers : ℕ → Answer)
    (n k initial_delay max_delay : ℕ) (value : Json)
    → parse url ≡ some u
    → is_foreign u ≡ false
    → initial_delay ≤ max_delay
    → k ≤ n
    → ((j : ℕ) → 1 ≤ j → j < k + 1 → is_transient (answers j) ≡ true)
    → Gives (answers (k + 1)) value
    → fetch_attestation_record parse url (some answers) (record {
      attempts = some (suc n);
      initial_delay = some initial_delay;
      max_delay = some max_delay;
    })
      ≡ (failures url initial_delay max_delay k 1 ++ requested url ∷ [], returned value)
unfolding fetch_attestation_record safe_https_url
fetch_attestation_record-delivers parse url u answers n k initial_delay max_delay value e f d l
      transient gives =
    let g : ltb max_delay initial_delay ≡ false = ground arith in
    rw (g, e, f)
      (attempt_rounds-delivers url answers (suc n) initial_delay max_delay k (suc n) 1 (k + 1) value
        (omega arith) (omega arith) (omega arith) transient gives)
