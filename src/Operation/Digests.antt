-- ===== src/Operation/Digests.antt =====
-- scripts/release-operation.mjs: safeRelativePath, parseDigestFile, assertDigestEntries and
-- validateEvidenceDigests. The contents of the files and SHA-256 are parameters.
pub mod Lines
pub mod Exact
use symbol_nem_wallet_core.Prelude.{
  ℕ, zero, suc, ◌+◌, String, Bool, true, false, not, ◌&&◌, ◌||◌, Option, none, some, List, [], ◌∷◌,
  codes, length, all, any, map, ◌==◌, same_codes, ends_with, if◌then◌else◌, decimal,
}
use Prim.Native.String
use symbol_nem_wallet_core.Js.Json.{Json, boolean, string, object, field, end, throw_if, error}
use symbol_nem_wallet_core.Js.Outcome.{Outcome, returned, thrown, ◌>>=◌, ◌>>◌}
use symbol_nem_wallet_core.Manifest.Versions.{is_empty, is_lower_hex}
use symbol_nem_wallet_core.Release.SemVer.{split}
use symbol_nem_wallet_core.Release.Sources.{is_space}
use symbol_nem_wallet_core.Recovery.Paths.{is_unsafe_path}
use symbol_nem_wallet_core.Operation.{gate, labelled}

unfoldable pub safe_relative_text : List ℕ → String → Outcome (Unit {0})
safe_relative_text cs label =
    throw_if (is_unsafe_path cs) (labelled label " is not a safe relative path") (returned tt)

unfoldable pub safe_relative_path : Json → String → Outcome (Unit {0})
safe_relative_path (string s) label = safe_relative_text (codes s) label
safe_relative_path _ label = thrown (error (labelled label " is not a safe relative path"))

pub record DigestEntry : Type 0 where
  pub hash : List ℕ
  pub path : List ℕ

abbrev pub cons_hash : ℕ → Option (List ℕ × List ℕ) → Option (List ℕ × List ℕ)
cons_hash c none = none
cons_hash c (some (hash, rest)) = some (c ∷ hash, rest)

-- [0-9a-f]{n} at the front, and what follows
unfoldable pub take_hex : ℕ → List ℕ → Option (List ℕ × List ℕ)
take_hex zero cs = some ([], cs)
take_hex (suc n) [] = none
take_hex (suc n) (c ∷ cs) =
    let rest = take_hex n cs in if is_lower_hex c then cons_hash c rest else none

abbrev pub is_path_char : ℕ → Bool
is_path_char c = not (is_space c)

--  {2}([^\s\r\n]+)$
abbrev pub path_after : List ℕ → Option (List ℕ)
path_after (c ∷ d ∷ path) =
    if c == b' ' && d == b' ' && not (is_empty path) && all is_path_char path
    then some path
    else none
path_after (c ∷ []) = none
path_after [] = none

abbrev pub entry_with : List ℕ → Option (List ℕ) → Option DigestEntry
entry_with hash none = none
entry_with hash (some path) = some (record { hash = hash; path = path })

abbrev pub entry_of : Option (List ℕ × List ℕ) → Option DigestEntry
entry_of none = none
entry_of (some (hash, rest)) = entry_with hash (path_after rest)

-- The match of a line.
unfoldable pub match_line : List ℕ → Option DigestEntry
match_line line = entry_of (take_hex 64 line)

abbrev numbered : String → String → ℕ → String
numbered label word n = String.◌++◌ label (String.◌++◌ word (decimal n))

-- The callback of a line, whose number is one more than its index.
abbrev pub read_entry : String → ℕ → Option DigestEntry → Outcome DigestEntry
read_entry label n none = thrown (error (labelled (numbered label " line " n) " is malformed"))
read_entry label n (some entry) =
    safe_relative_text entry.path (numbered label " path " n) >> returned entry

unfoldable pub read_lines : String → ℕ → List (List ℕ) → Outcome (List DigestEntry)
read_lines label n [] = returned []
read_lines label n (line ∷ lines) = read_entry label n (match_line line) >>= λ entry.
    read_lines label (n + 1) lines >>= λ entries. returned (entry ∷ entries)

abbrev pub has_path : List ℕ → List DigestEntry → Bool
has_path path entries = any (λ entry. same_codes path entry.path) entries

-- new Set(…).size, of the paths
unfoldable pub path_count : List DigestEntry → ℕ
path_count [] = 0
path_count (entry ∷ entries) =
    let rest = path_count entries in if has_path entry.path entries then rest else suc rest

-- content.slice(0, -1)
abbrev pub without_last : List ℕ → List ℕ
without_last [] = []
without_last (c ∷ []) = []
without_last (c ∷ d ∷ ds) = c ∷ without_last (d ∷ ds)

unfoldable pub parse_digest_file : List ℕ → String → Outcome (List DigestEntry)
parse_digest_file content label =
    throw_if (not (ends_with (10 ∷ []) content)) (labelled label " must end with one newline") (
      read_lines label 1 (split 10 (without_last content)) >>= λ entries.
      throw_if (not (path_count entries == length entries))
        (labelled label " contains duplicate paths") (returned entries))

abbrev pub is_entry : DigestEntry → DigestEntry → Bool
is_entry supplied entry = same_codes supplied.path entry.path && same_codes supplied.hash entry.hash

-- The loop over the expected entries; a missing one is not reached, since the lengths agree.
unfoldable pub compare_entries :
    String → ℕ → List DigestEntry → List DigestEntry → Outcome (Unit {0})
compare_entries label n actual [] = returned tt
compare_entries label n [] (entry ∷ expected) = thrown (error "undefined")
compare_entries label n (supplied ∷ actual) (entry ∷ expected) =
    throw_if (not (is_entry supplied entry)) (labelled (numbered label " entry " n) " differs")
      (compare_entries label (n + 1) actual expected)

unfoldable pub assert_digest_entries : List ℕ → String → List DigestEntry → Outcome (Unit {0})
assert_digest_entries content label expected = parse_digest_file content label >>= λ actual.
    throw_if (not (length actual == length expected))
      (labelled label " has missing or extra entries") (compare_entries label 1 actual expected)

-- Files by their paths, as texts, and the digests of files, as lowercase hexadecimal texts.
pub record Files : Type 0 where
  pub content : String → String → Outcome (List ℕ)
  pub sha256_file : String → String → Outcome (List ℕ)

pub record EvidencePaths : Type 0 where
  pub sbom : String
  pub inventory : String
  pub sbom_sums : String
  pub policy : String
  pub third_party : String
  pub policy_sums : String

abbrev pub listed : List ℕ → String → DigestEntry
listed hash path = record { hash = hash; path = codes path }

-- A file of the evidence: where it is, its label, and its name in the list.
pub record Evidence : Type 0 where
  pub path : String
  pub label : String
  pub name : String

-- assertDigestEntries of two files: their digests are taken before the list is read.
unfoldable pub assert_pair : Files → String → String → Evidence → Evidence → Outcome (Unit {0})
assert_pair files sums label first second = files.sha256_file first.path first.label >>= λ hash.
    files.sha256_file second.path second.label >>= λ other. files.content sums label >>= λ content.
    assert_digest_entries content label (listed hash first.name ∷ listed other second.name ∷ [])

abbrev pub evidence : String → String → String → Evidence
evidence path label name = record { path = path; label = label; name = name }

unfoldable pub validate_evidence_digests : Files → EvidencePaths → Outcome Json
validate_evidence_digests files paths =
    assert_pair files paths.sbom_sums "SBOM-SHA256SUMS"
      (evidence paths.sbom "SPDX SBOM" "sbom.spdx.json")
      (evidence paths.inventory "license inventory" "license-inventory.json")
    >> (assert_pair files paths.policy_sums "LICENSE-POLICY-SHA256SUMS"
          (evidence paths.policy "license policy" "license-policy.json")
          (evidence paths.third_party "third-party license evidence" "THIRD_PARTY_LICENSES.json")
        >> returned
            (object (field "sbom" (boolean true) (field "license_policy" (boolean true) end))))
