-- ===== src/Provenance.antt =====
-- scripts/npm-provenance.mjs: fail, safeHttpsUrl, packagePurl and registryVersionUrl. The parser of
-- URLs is a parameter.
pub mod Attestations
pub mod Download
pub mod Statements
pub mod Evidence
use symbol_nem_wallet_core.Prelude.{
  ℕ, String, Bool, true, false, not, ◌||◌, Option, none, some, List, [], ◌∷◌, ◌++◌, codes,
  same_codes, starts_with, if◌then◌else◌,
}
use Prim.Native.String
use symbol_nem_wallet_core.Js.Json.{throw_if, error}
use symbol_nem_wallet_core.Js.Outcome.{Outcome, returned, thrown}
use symbol_nem_wallet_core.Manifest.Versions.{is_empty}
use symbol_nem_wallet_core.Release.Registry.{encode}

-- the message of fail
abbrev pub gate : String → String
gate message = String.◌++◌ "npm provenance gate failed: " message

-- `${label}…`, as the message of fail
abbrev pub labelled : String → String → String
labelled label message = gate (String.◌++◌ label message)

-- NPM_REGISTRY and its origin
abbrev pub npm_registry : List ℕ
npm_registry = codes "https://registry.npmjs.org/"

abbrev pub npm_origin : List ℕ
npm_origin = codes "https://registry.npmjs.org"

-- What `new URL` makes of a text.
pub record Url : Type 0 where
  pub href : List ℕ
  pub protocol : List ℕ
  pub origin : List ℕ
  pub username : List ℕ
  pub password : List ℕ
  pub hash : List ℕ

-- `new URL(text)`, none where it throws
abbrev pub UrlParser : Type 0
UrlParser = List ℕ → Option Url

unfoldable pub is_foreign : Url → Bool
is_foreign url =
    not (same_codes url.protocol (codes "https:"))
    || not (same_codes url.origin npm_origin)
    || not (is_empty url.username)
    || not (is_empty url.password)
    || not (is_empty url.hash)

abbrev pub accept_url : String → Option Url → Outcome (List ℕ)
accept_url label none = thrown (error (labelled label " is not a URL"))
accept_url label (some url) =
    throw_if (is_foreign url) (labelled label " is not an npm registry HTTPS URL")
      (returned url.href)

-- safeHttpsUrl, of the registry's origin
unfoldable pub safe_https_url : UrlParser → List ℕ → String → Outcome (List ℕ)
safe_https_url parse text label = accept_url label (parse text)

abbrev after_at : List ℕ → List ℕ
after_at [] = []
after_at (c ∷ cs) = if starts_with (codes "@") (c ∷ cs) then codes "%40" ++ cs else c ∷ cs

unfoldable pub package_purl : List ℕ → List ℕ → List ℕ
package_purl package_name version = codes "pkg:npm/" ++ (after_at package_name ++ b'@' ∷ version)

unfoldable pub registry_version_url : List ℕ → List ℕ → List ℕ
registry_version_url package_name version =
    npm_registry ++ (encode package_name ++ b'/' ∷ encode version)
