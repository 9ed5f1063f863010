-- ===== src/Release/SemVer.antt =====
-- scripts/release-identity.mjs: parseSemVer, isValidSemVer and isValidCommit. The pattern is read by
-- cutting the text: at the first `+`, which stands before the build, then at the first `-`, then at
-- the dots.
pub mod Parts
use symbol_nem_wallet_core.Prelude.{
  ℕ, zero, suc, ◌+◌, ◌-◌, ◌*◌, String, Bool, true, false, not, ◌&&◌, ◌||◌, Option, none, some, List,
  [], ◌∷◌, ◌++◌, codes, length, contains, leb, ltb, ◌==◌, ◌===◌, if◌then◌else◌, all, any,
  same_codes,
}
use symbol_nem_wallet_core.Js.Json.{Json, string}
use symbol_nem_wallet_core.Manifest.Versions.{is_empty, is_digit, is_digest}

pub record SemVer : Type 0 where
  pub value : String
  pub core : List ℕ
  pub prerelease : Option (List ℕ)
  pub build : Option (List ℕ)

abbrev pub cons_cut : ℕ → List ℕ × Option (List ℕ) → List ℕ × Option (List ℕ)
cons_cut c (front, rest) = (c ∷ front, rest)

-- what stands in front of the first separator, and what follows it
unfoldable pub cut : ℕ → List ℕ → List ℕ × Option (List ℕ)
cut separator [] = ([], none)
cut separator (c ∷ cs) =
    let rest = cut separator cs in if c == separator then ([], some cs) else cons_cut c rest

abbrev pub cons_part : ℕ → List (List ℕ) → List (List ℕ)
cons_part c [] = (c ∷ []) ∷ []
cons_part c (part ∷ parts) = (c ∷ part) ∷ parts

-- text.split(separator)
unfoldable pub split : ℕ → List ℕ → List (List ℕ)
split separator [] = [] ∷ []
split separator (c ∷ cs) =
    let rest = split separator cs in if c == separator then [] ∷ rest else cons_part c rest

-- [0-9A-Za-z-]
abbrev pub is_identifier_char : ℕ → Bool
is_identifier_char c = is_digit c || leb 65 c && leb c 90 || leb 97 c && leb c 122 || c == b'-'

-- IDENTIFIER
abbrev pub is_identifier : List ℕ → Bool
is_identifier cs = not (is_empty cs) && all is_identifier_char cs

-- NUMERIC_IDENTIFIER
abbrev pub is_numeric_identifier : List ℕ → Bool
is_numeric_identifier [] = false
is_numeric_identifier (c ∷ []) = is_digit c
is_numeric_identifier (c ∷ d ∷ ds) = leb 49 c && leb c 57 && is_digit d && all is_digit ds

-- PRERELEASE_IDENTIFIER
abbrev pub is_prerelease_identifier : List ℕ → Bool
is_prerelease_identifier cs =
    is_numeric_identifier cs || is_identifier cs && any (λ c. not (is_digit c)) cs

abbrev pub is_core : List (List ℕ) → Bool
is_core (major ∷ minor ∷ patch ∷ []) =
    is_numeric_identifier major && is_numeric_identifier minor && is_numeric_identifier patch
is_core _ = false

abbrev pub optional_parts : (List ℕ → Bool) → Option (List ℕ) → Bool
optional_parts accepts none = true
optional_parts accepts (some cs) = all accepts (split b'.' cs)

abbrev semver_of : String → List ℕ × Option (List ℕ) → Option (List ℕ) → Option SemVer
semver_of value (core, prerelease) build =
    if is_core (split b'.' core)
      && optional_parts is_prerelease_identifier prerelease
      && optional_parts is_identifier build
    then some (record { value = value; core = core; prerelease = prerelease; build = build })
    else none

abbrev without_build : String → List ℕ × Option (List ℕ) → Option SemVer
without_build value (front, build) = semver_of value (cut b'-' front) build

unfoldable pub parse_semver : Json → Option SemVer
parse_semver (string value) = without_build value (cut b'+' (codes value))
parse_semver _ = none

abbrev pub is_some : Option SemVer → Bool
is_some none = false
is_some (some v) = true

unfoldable pub is_valid_semver : Json → Bool
is_valid_semver value = is_some (parse_semver value)

unfoldable pub is_valid_commit : Json → Bool
is_valid_commit (string value) = is_digest 40 (codes value)
is_valid_commit _ = false
