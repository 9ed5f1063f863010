-- ===== src/Manifest/Versions.antt =====
-- manifest.mjs: the patterns of versions and digests, and supportsLinuxGlibc.
use symbol_nem_wallet_core.Prelude.{
  ℕ, ◌+◌, ◌-◌, ◌*◌, Bool, true, false, not, ◌&&◌, ◌||◌, Option, none, some, List, [], ◌∷◌, codes,
  length, leb, ltb, ◌==◌, if◌then◌else◌, all,
}
use symbol_nem_wallet_core.Js.Json.{Json, string}

-- the length of a text
abbrev pub is_empty : List ℕ → Bool
is_empty [] = true
is_empty (c ∷ cs) = false

-- \d, [0-9a-f] and [0-9A-Za-z.-]
abbrev pub is_digit : ℕ → Bool
is_digit c = leb 48 c && leb c 57

abbrev pub is_lower_hex : ℕ → Bool
is_lower_hex c = is_digit c || leb 97 c && leb c 102

abbrev pub is_label : ℕ → Bool
is_label c = is_digit c || leb 65 c && leb c 90 || leb 97 c && leb c 122 || c == b'.' || c == b'-'

-- /^[0-9a-f]{n}$/
abbrev pub is_digest : ℕ → List ℕ → Bool
is_digest n cs = length cs == n && all is_lower_hex cs

-- the digits at the front, and what follows them
abbrev pub keep_digit : Bool → ℕ → List ℕ × List ℕ → List ℕ → List ℕ × List ℕ
keep_digit true c (ds, rest) cs = (c ∷ ds, rest)
keep_digit false c (ds, rest) cs = ([], c ∷ cs)

unfoldable pub span_digits : List ℕ → List ℕ × List ℕ
span_digits [] = ([], [])
span_digits (c ∷ cs) = keep_digit (is_digit c) c (span_digits cs) cs

-- \d+, of which the longest match is taken, since none of the patterns goes on with a digit
abbrev pub some_digits : List ℕ × List ℕ → Option (List ℕ × List ℕ)
some_digits ([], rest) = none
some_digits (d ∷ ds, rest) = some (d ∷ ds, rest)

abbrev pub skip_dot : List ℕ → Option (List ℕ)
skip_dot [] = none
skip_dot (c ∷ cs) = if c == b'.' then some cs else none

-- \d+\.
abbrev pub number_dot : List ℕ → Option (List ℕ)
number_dot cs = elim (some_digits (span_digits cs)) [
  | none ↦ none
  | some (ds, rest) ↦ skip_dot rest
]

-- [0-9A-Za-z.-]+$
abbrev labels : List ℕ → Bool
labels cs = not (is_empty cs) && all is_label cs

-- [0-9A-Za-z.-]*(?:\+[0-9A-Za-z.-]+)?$
abbrev labels_and_build : List ℕ → Bool
labels_and_build [] = true
labels_and_build (c ∷ cs) =
    let rest = labels_and_build cs in if is_label c then rest else c == b'+' && labels cs

abbrev prerelease_and_build : List ℕ → Bool
prerelease_and_build [] = false
prerelease_and_build (c ∷ cs) = is_label c && labels_and_build cs

-- (?:-[0-9A-Za-z.-]+)?(?:\+[0-9A-Za-z.-]+)?$
abbrev version_suffix : List ℕ → Bool
version_suffix [] = true
version_suffix (c ∷ cs) = if c == b'-' then prerelease_and_build cs else c == b'+' && labels cs

abbrev version_end : Option (List ℕ × List ℕ) → Bool
version_end none = false
version_end (some (ds, rest)) = version_suffix rest

abbrev patch_version : Option (List ℕ) → Bool
patch_version none = false
patch_version (some cs) = version_end (some_digits (span_digits cs))

abbrev minor_version : Option (List ℕ) → Bool
minor_version none = false
minor_version (some cs) = patch_version (number_dot cs)

-- the pattern of package_version
unfoldable pub is_version : List ℕ → Bool
is_version cs = minor_version (number_dot cs)

-- Number, of decimal digits
abbrev pub digits_value : ℕ → List ℕ → ℕ
digits_value n [] = n
digits_value n (d ∷ ds) = digits_value (n * 10 + (d - 48)) ds

abbrev pub number_value : List ℕ → ℕ
number_value ds = digits_value 0 ds

abbrev minor_supported : ℕ → Option (List ℕ × List ℕ) → Bool
minor_supported major none = false
minor_supported major (some (ds, [])) = ltb 2 major || major == 2 && leb 28 (number_value ds)
minor_supported major (some (ds, c ∷ cs)) = false

abbrev after_major : List ℕ → Option (List ℕ) → Bool
after_major ds none = false
after_major ds (some cs) = minor_supported (number_value ds) (some_digits (span_digits cs))

abbrev glibc_of : Option (List ℕ × List ℕ) → Bool
glibc_of none = false
glibc_of (some (ds, rest)) = after_major ds (skip_dot rest)

unfoldable pub supports_linux_glibc : Json → Bool
supports_linux_glibc (string s) = glibc_of (some_digits (span_digits (codes s)))
supports_linux_glibc _ = false
