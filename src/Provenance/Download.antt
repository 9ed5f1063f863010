-- ===== src/Provenance/Download.antt =====
-- scripts/npm-provenance.mjs: fetchBytes. The answers to requests, the parser of URLs and the
-- resolution of a location are parameters; a run lists the URLs that it requests.
pub mod Registry
use symbol_nem_wallet_core.Prelude.{
  ℕ, zero, suc, String, Bool, true, false, not, ◌&&◌, Option, none, some, List, [], ◌∷◌, leb,
  if◌then◌else◌, decimal,
}
use Prim.Native.String
use symbol_nem_wallet_core.Js.Json.{error}
use symbol_nem_wallet_core.Js.Outcome.{Outcome, returned, thrown}
use symbol_nem_wallet_core.Provenance.{labelled, UrlParser, safe_https_url}

-- A response: its status, none where it is no number from 0 on; its header "location", none where
-- it is no text; `response.ok`; and what `response.arrayBuffer()` settles to.
pub record Reply : Type 0 where
  pub status : Option ℕ
  pub location : Option (List ℕ)
  pub ok : Bool
  pub body : Outcome (List ℕ)

pub record Network : Type 0 where
  -- what a request of a URL settles to, none where it is rejected; no URL is answered in two ways
  pub fetch : List ℕ → Option Reply
  pub parse : UrlParser
  -- `new URL(location, base).href`, none where it throws
  pub resolve : List ℕ → List ℕ → Option (List ℕ)

-- The URLs that are requested, and the outcome.
abbrev pub Transfer : Type 0
Transfer = List (List ℕ) × Outcome (List ℕ)

abbrev pub is_redirect : Option ℕ → Bool
is_redirect none = false
is_redirect (some status) = leb 300 status && leb status 399

abbrev pub status_text : Option ℕ → String
status_text none = "undefined"
status_text (some status) = decimal status

-- The URL that a redirect leads to.
abbrev pub resolved_url : Network → String → Option (List ℕ) → Outcome (List ℕ)
resolved_url network label none = thrown (error "Invalid URL")
resolved_url network label (some href) =
    safe_https_url network.parse href (String.◌++◌ label " redirect")

unfoldable pub redirect_url : Network → String → List ℕ → Option (List ℕ) → Outcome (List ℕ)
redirect_url network label current none =
    thrown (error (labelled label " returned a redirect without a location"))
redirect_url network label current (some []) =
    thrown (error (labelled label " returned a redirect without a location"))
redirect_url network label current (some (c ∷ cs)) =
    resolved_url network label (network.resolve (c ∷ cs) current)

-- What a response that is no redirect ends the transfer with.
abbrev pub body_of : String → Outcome (List ℕ) → Outcome (List ℕ)
body_of label (returned bytes) = returned bytes
body_of label (thrown e) = thrown (error (labelled label " response is unreadable"))

unfoldable pub reply_end : String → Reply → Outcome (List ℕ)
reply_end label reply =
    if reply.ok
    then body_of label reply.body
    else thrown
        (error (labelled label (String.◌++◌ " request returned HTTP " (status_text reply.status))))

abbrev pub also : List ℕ → Transfer → Transfer
also url (urls, outcome) = (url ∷ urls, outcome)

-- The redirect is followed where rounds are left.
abbrev pub follow : String → Bool → Outcome (List ℕ) → (List ℕ → Transfer) → Transfer
follow label is_last (thrown e) rest = ([], thrown e)
follow label is_last (returned url) rest =
    if is_last
    then ([], thrown (error (labelled label " exceeded the redirect limit")))
    else rest url

abbrev pub handle : Network → String → List ℕ → Bool → Option Reply → (List ℕ → Transfer) → Transfer
handle network label current is_last none rest =
    ([], thrown (error (labelled label " request failed")))
handle network label current is_last (some reply) rest =
    if is_redirect reply.status
    then follow label is_last (redirect_url network label current reply.location) rest
    else ([], reply_end label reply)

abbrev pub is_zero : ℕ → Bool
is_zero zero = true
is_zero (suc n) = false

-- The loop, with the number of rounds left.
unfoldable pub transfer_rounds : Network → String → ℕ → List ℕ → Transfer
transfer_rounds network label zero current =
    ([], thrown (error (labelled label " request did not complete")))
transfer_rounds network label (suc left) current = also current (
    handle network label current (is_zero left) (network.fetch current)
      (transfer_rounds network label left))

abbrev pub begin_transfer : Outcome (List ℕ) → (List ℕ → Transfer) → Transfer
begin_transfer (thrown e) rest = ([], thrown e)
begin_transfer (returned url) rest = rest url

-- fetchBytes, with a function for fetchImpl: the first request and three redirects.
unfoldable pub fetch_bytes : Network → List ℕ → String → Transfer
fetch_bytes network url label =
    begin_transfer (safe_https_url network.parse url (String.◌++◌ label " URL"))
      (transfer_rounds network label 4)
