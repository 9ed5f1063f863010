-- ===== src/Release/Registry.antt =====
-- scripts/release-identity.mjs: npmVersionUrl and checkNpmVersionAvailability. The request to the
-- registry is a parameter.
pub mod Available
use symbol_nem_wallet_core.Prelude.{
  ℕ, ◌+◌, ◌/◌, ◌%◌, String, Bool, true, false, not, ◌&&◌, ◌||◌, Option, none, some, List, [], ◌∷◌,
  ◌++◌, codes, contains, leb, ltb, ◌==◌, ◌===◌, if◌then◌else◌, any,
}
use Prim.Native.String
use symbol_nem_wallet_core.Js.Json.{Json, string, throw_if, error, is_string, text}
use symbol_nem_wallet_core.Js.Outcome.{Outcome, returned, thrown, ◌>>=◌}
use symbol_nem_wallet_core.Manifest.Versions.{is_digit}
use symbol_nem_wallet_core.Release.SemVer.{is_valid_semver}
use symbol_nem_wallet_core.Release.Versions.{gate, npm_package_name}

-- What a request settles to: an object with an integer as its status, or anything else.
pub data Response : Type 0 where
  status : ℕ → Response
  other_response : Response

abbrev pub hex_digit : ℕ → ℕ
hex_digit n = if ltb n 10 then 48 + n else 55 + n

-- the characters that encodeURIComponent keeps
abbrev pub is_kept : ℕ → Bool
is_kept c =
    is_digit c
    || leb 65 c && leb c 90
    || leb 97 c && leb c 122
    || any (λ k. k == c) (codes "-_.!~*'()")

-- encodeURIComponent, of ASCII
abbrev pub encode : List ℕ → List ℕ
encode [] = []
encode (c ∷ cs) =
    let rest = encode cs in
    if is_kept c then c ∷ rest else b'%' ∷ hex_digit (c / 16) ∷ hex_digit (c % 16) ∷ rest

unfoldable pub npm_version_url : Json → Json → List ℕ
npm_version_url package_name version =
    codes "https://registry.npmjs.org/"
    ++ (encode (text package_name) ++ (b'/' ∷ encode (text version)))

pub data Availability : Type 0 where
  not_found exists : Availability

-- The status of the response is left out of the last message, and the package out of the other.
unfoldable pub availability : Bool → Response → Outcome Availability
availability allow_existing other_response =
    thrown (error (gate "npm registry response is ambiguous"))
availability allow_existing (status code) =
    if code == 404
    then returned not_found
    else if leb 200 code && ltb code 300
    then if allow_existing
      then returned exists
      else thrown (error (gate "npm version already exists"))
    else thrown (error (gate "npm registry response is ambiguous"))

abbrev requested : Bool → Outcome Response → Outcome Availability
requested allow_existing (returned response) = availability allow_existing response
requested allow_existing (thrown e) = thrown (error (gate "npm registry request failed"))

-- `request` is none where the argument is no function.
abbrev check_with : Bool → List ℕ → Option (List ℕ → Outcome Response) → Outcome Availability
check_with allow_existing url none =
    thrown (error (gate "npm registry request function is unavailable"))
check_with allow_existing url (some request) = requested allow_existing (request url)

unfoldable pub check_npm_version_availability :
    Json → Json → Option (List ℕ → Outcome Response) → Bool → Outcome Availability
check_npm_version_availability package_name version request allow_existing =
    throw_if (not (is_string package_name npm_package_name) || not (is_valid_semver version))
      (gate "invalid npm duplicate-check identity")
      (check_with allow_existing (npm_version_url package_name version) request)
