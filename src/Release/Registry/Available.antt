-- ===== src/Release/Registry/Available.antt =====
-- scripts/release-identity.mjs: when a version may be published.
use symbol_nem_wallet_core.Prelude.{
  ℕ, ◌≤◌, ◌<◌, Bool, true, not, ◌||◌, some, List, ◌≡◌, refl, ◌↔◌, ap, arith, or-false, not-false,
}
use symbol_nem_wallet_core.Js.Json.{string, is_string-eq, Json, is_string, throw_if-returned}
use symbol_nem_wallet_core.Js.Outcome.{Outcome, returned, thrown}
use symbol_nem_wallet_core.Release.SemVer.{is_valid_semver}
use symbol_nem_wallet_core.Release.Versions.{gate, npm_package_name}
use symbol_nem_wallet_core.Release.Registry.{
  Response, status, other_response, npm_version_url, Availability, not_found, exists, availability,
  requested, check_npm_version_availability,
}

-- What a status says of the version.
abbrev pub Means : Bool → ℕ → Availability → Type 0
Means allow_existing code not_found = code ≡ 404
Means allow_existing code exists = (allow_existing ≡ true) × ((200 ≤ code) × (code < 300))

availability-Means :
    (allow : Bool) (r : Response) (a : Availability)
    → availability allow r ≡ returned a
    → (code : ℕ) × (r ≡ status code) × Means allow code a
unfolding availability
availability-Means allow other_response a k = cc
availability-Means allow (status code) not_found k = (code, refl, ground arith)
availability-Means allow (status code) exists k =
    (code, refl, (ground arith, (ground arith, ground arith)))

Means-availability :
    (allow : Bool) (code : ℕ) (a : Availability)
    → Means allow code a
    → availability allow (status code) ≡ returned a
unfolding availability
Means-availability allow code not_found k = ground arith
Means-availability allow code exists (t, (l, u)) = ground arith

requested-Means :
    (allow : Bool) (m : Outcome Response) (a : Availability)
    → requested allow m ≡ returned a
    → (code : ℕ) × (m ≡ returned (status code)) × Means allow code a
requested-Means allow (returned r) a k =
    let (code, e, means) = availability-Means allow r a k in (code, ap returned e, means)
requested-Means allow (thrown e) a k = cc

-- The version is of the package, and the registry's answer to its URL means `a`.
pub record Answered (package_name version : Json) (request : List ℕ → Outcome Response)
    (allow : Bool) (a : Availability) : Type 0 where
  pub named : package_name ≡ string npm_package_name
  pub valid : is_valid_semver version ≡ true
  pub code : ℕ
  pub answer : request (npm_version_url package_name version) ≡ returned (status code)
  pub means : Means allow code a

check-Answered :
    (p v : Json) (request : List ℕ → Outcome Response) (allow : Bool) (a : Availability)
    → check_npm_version_availability p v (some request) allow ≡ returned a
    → Answered p v request allow a
unfolding check_npm_version_availability
check-Answered p v request allow a k =
    let (c, rest) =
      throw_if-returned (not (is_string p npm_package_name) || not (is_valid_semver v))
        (gate "invalid npm duplicate-check identity") _ a k in
    let (name, version) =
      or-false (not (is_string p npm_package_name)) (not (is_valid_semver v)) c in
    let (code, e, means) = requested-Means allow (request (npm_version_url p v)) a rest in
    record {
      named = is_string-eq p npm_package_name (not-false _ name);
      valid = not-false _ version;
      code = code;
      answer = e;
      means = means;
    }

Answered-check :
    (p v : Json) (request : List ℕ → Outcome Response) (allow : Bool) (a : Availability)
    → Answered p v request allow a
    → check_npm_version_availability p v (some request) allow ≡ returned a
unfolding check_npm_version_availability
Answered-check p v request allow a k =
    let name : is_string p npm_package_name ≡ true = rw k.named refl in
    rw (name, k.valid, k.answer) (Means-availability allow k.code a k.means)

-- The check of the registry ends well exactly where the package is the wallet's, the version is
-- valid, and the registry answers for its URL with 404, or with a status from 200 to 299 where an
-- existing version is allowed: then the version exists, otherwise it is free.
pub check_npm_version_availability_iff :
    (package_name version : Json) (request : List ℕ → Outcome Response) (allow : Bool)
    (a : Availability)
    → (check_npm_version_availability package_name version (some request) allow ≡ returned a)
      ↔ Answered package_name version request allow a
check_npm_version_availability_iff p v request allow a =
    (check-Answered p v request allow a, Answered-check p v request allow a)
