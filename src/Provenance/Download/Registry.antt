-- ===== src/Provenance/Download/Registry.antt =====
-- scripts/npm-provenance.mjs: where fetchBytes takes its bytes from.
use symbol_nem_wallet_core.Prelude.{
  ℕ, zero, suc, ◌≤◌, String, Bool, true, false, Option, none, some, List, [], ◌∷◌, ◌≡◌, refl, arith,
  length, All, In, Bool-cases, Option-cases, inl, inr,
}
use Prim.Native.String
use symbol_nem_wallet_core.Js.Json.{throw_if-returned}
use symbol_nem_wallet_core.Js.Outcome.{Outcome, returned, thrown}
use symbol_nem_wallet_core.Provenance.{Url, UrlParser, is_foreign, accept_url, safe_https_url}
use symbol_nem_wallet_core.Provenance.Download.{
  Reply, Network, Transfer, is_redirect, redirect_url, body_of, reply_end, also, follow, handle,
  is_zero, transfer_rounds, begin_transfer, fetch_bytes,
}

-- A URL of the registry: https, the registry's origin, and neither credentials nor a fragment.
pub record AtRegistry (parse : UrlParser) (url : List ℕ) : Type 0 where
  pub text : List ℕ
  pub parsed : Url
  pub parse_text : parse text ≡ some parsed
  pub own : is_foreign parsed ≡ false
  pub href : parsed.href ≡ url

accept_url-AtRegistry :
    (parse : UrlParser) (text : List ℕ) (label : String) (found : Option Url) (url : List ℕ)
    → parse text ≡ found
    → accept_url label found ≡ returned url
    → AtRegistry parse url
accept_url-AtRegistry parse text label none url e k = cc
accept_url-AtRegistry parse text label (some u) url e k =
    let (own, k₁) = throw_if-returned (is_foreign u) _ _ url k in
    record { text = text; parsed = u; parse_text = e; own = own; href = ground arith }

safe_https_url-AtRegistry :
    (parse : UrlParser) (text : List ℕ) (label : String) (url : List ℕ)
    → safe_https_url parse text label ≡ returned url
    → AtRegistry parse url
unfolding safe_https_url
safe_https_url-AtRegistry parse text label url k =
    accept_url-AtRegistry parse text label (parse text) url refl k

redirect_url-AtRegistry :
    (network : Network) (label : String) (current : List ℕ) (location : Option (List ℕ))
    (url : List ℕ)
    → redirect_url network label current location ≡ returned url
    → AtRegistry network.parse url
unfolding redirect_url
redirect_url-AtRegistry network label current none url k = cc
redirect_url-AtRegistry network label current (some []) url k = cc
redirect_url-AtRegistry network label current (some (c ∷ cs)) url k =
    elim (Option-cases (network.resolve (c ∷ cs) current)) [
      | inl e ↦ cc (rw e at k)
      | inr (href, e) ↦ safe_https_url-AtRegistry network.parse href _ url (rw e at k)
    ]

-- The bytes are those that one of the URLs was answered with, by a response that is ok.
pub record IsAnswered (network : Network) (urls : List (List ℕ)) (bytes : List ℕ) : Type 0 where
  pub url : List ℕ
  pub listed : In url urls
  pub reply : Reply
  pub answered : network.fetch url ≡ some reply
  pub ok : reply.ok ≡ true
  pub body : reply.body ≡ returned bytes

-- All URLs are the registry's, they are few, and the bytes are an answer.
pub record IsTransfer (network : Network) (n : ℕ) (transfer : Transfer) : Type 0 where
  pub registry : All (AtRegistry network.parse) (transfer.0)
  pub few : length (transfer.0) ≤ n
  pub answer :
      (bytes : List ℕ) → transfer.1 ≡ returned bytes → IsAnswered network (transfer.0) bytes

body_of-returned :
    (label : String) (body : Outcome (List ℕ)) (bytes : List ℕ)
    → body_of label body ≡ returned bytes
    → body ≡ returned bytes
body_of-returned label (returned b) bytes k = k
body_of-returned label (thrown e) bytes k = cc

reply_end-ok :
    (label : String) (reply : Reply) (bytes : List ℕ)
    → reply_end label reply ≡ returned bytes
    → (reply.ok ≡ true) × (reply.body ≡ returned bytes)
unfolding reply_end
reply_end-ok label reply bytes k = elim (Bool-cases reply.ok) [
  | inl e ↦ (e, body_of-returned label reply.body bytes (rw e at k))
  | inr e ↦ cc (rw e at k)
]

module _ (network : Network) (label : String) where
  -- A transfer that ends after the request of a URL without bytes.
  IsTransfer-fails :
      (n : ℕ) (current : List ℕ) (m : Outcome (List ℕ))
      → AtRegistry network.parse current
      → ((bytes : List ℕ) → m ≡ returned bytes → IsAnswered network (current ∷ []) bytes)
      → IsTransfer network (suc n) (current ∷ [], m)
  IsTransfer-fails n current m own answer = record {
    registry = (own, tt);
    few = omega arith;
    answer = answer;
  }

  IsTransfer-also :
      (n : ℕ) (current : List ℕ) (transfer : Transfer)
      → AtRegistry network.parse current
      → IsTransfer network n transfer
      → IsTransfer network (suc n) (also current transfer)
  IsTransfer-also n current (urls, m) own rest = record {
    registry = (own, rest.registry);
    few = omega (arith, rest.few);
    answer = λ bytes k.
        let a = rest.answer bytes k in
        record {
          url = a.url;
          listed = inr a.listed;
          reply = a.reply;
          answered = a.answered;
          ok = a.ok;
          body = a.body;
        };
  }

  follow-IsTransfer :
      (n : ℕ) (current : List ℕ) (is_last : Bool) (location : Option (List ℕ))
      (next : Outcome (List ℕ)) (rest : List ℕ → Transfer)
      → redirect_url network label current location ≡ next
      → AtRegistry network.parse current
      → ((url : List ℕ) → AtRegistry network.parse url → IsTransfer network n (rest url))
      → IsTransfer network (suc n) (also current (follow label is_last next rest))
  follow-IsTransfer n current is_last location (thrown e) rest k own more =
      IsTransfer-fails n current _ own (λ bytes t. cc)
  follow-IsTransfer n current true location (returned url) rest k own more =
      IsTransfer-fails n current _ own (λ bytes t. cc)
  follow-IsTransfer n current false location (returned url) rest k own more =
      IsTransfer-also n current (rest url) own
        (more url (redirect_url-AtRegistry network label current location url k))

  handle-IsTransfer :
      (n : ℕ) (current : List ℕ) (is_last : Bool) (answer : Option Reply) (rest : List ℕ → Transfer)
      → network.fetch current ≡ answer
      → AtRegistry network.parse current
      → ((url : List ℕ) → AtRegistry network.parse url → IsTransfer network n (rest url))
      → IsTransfer network (suc n) (also current (handle network label current is_last answer rest))
  handle-IsTransfer n current is_last none rest k own more =
      IsTransfer-fails n current _ own (λ bytes t. cc)
  handle-IsTransfer n current is_last (some reply) rest k own more =
      elim (Bool-cases (is_redirect reply.status)) [
        | inl e ↦ rw e (follow-IsTransfer n current is_last reply.location _ rest refl own more)
        | inr e ↦ rw e (
            IsTransfer-fails n current (reply_end label reply) own λ bytes t.
              let (ok, body) = reply_end-ok label reply bytes t in
              record {
                url = current;
                listed = inl refl;
                reply = reply;
                answered = k;
                ok = ok;
                body = body;
              })
      ]

  transfer_rounds-IsTransfer :
      (left : ℕ) (current : List ℕ)
      → AtRegistry network.parse current
      → IsTransfer network left (transfer_rounds network label left current)
  unfolding transfer_rounds
  transfer_rounds-IsTransfer zero current own = record {
    registry = tt;
    few = omega arith;
    answer = λ bytes t. cc;
  }
  transfer_rounds-IsTransfer (suc left) current own =
      handle-IsTransfer left current (is_zero left) (network.fetch current) _ refl own
        (transfer_rounds-IsTransfer left)

  begin_transfer-IsTransfer :
      (url : List ℕ) (first : Outcome (List ℕ))
      → safe_https_url network.parse url (String.◌++◌ label " URL") ≡ first
      → IsTransfer network 4 (begin_transfer first (transfer_rounds network label 4))
  begin_transfer-IsTransfer url (thrown e) k = record {
    registry = tt;
    few = omega arith;
    answer = λ bytes t. cc;
  }
  begin_transfer-IsTransfer url (returned first) k =
      transfer_rounds-IsTransfer 4 first (safe_https_url-AtRegistry network.parse url _ first k)

-- Wherever redirects lead, fetchBytes requests at most four URLs, all of them the registry's: https,
-- its origin, without credentials or a fragment. And the bytes that it returns are those that one of
-- these URLs was answered with, by a response that is ok.
pub fetch_bytes-IsTransfer :
    (network : Network) (url : List ℕ) (label : String)
    → IsTransfer network 4 (fetch_bytes network url label)
unfolding fetch_bytes
fetch_bytes-IsTransfer network url label = begin_transfer-IsTransfer network label url _ refl
