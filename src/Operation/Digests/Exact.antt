-- ===== src/Operation/Digests/Exact.antt =====
-- scripts/release-operation.mjs: the one text of a digest file that is accepted.
use symbol_nem_wallet_core.Prelude.{
  ℕ, ◌+◌, String, true, not, Option, none, some, List, [], ◌∷◌, ◌++◌, append_assoc, ◌≡◌, ◌≢◌, refl,
  sym, ap, ◌∙◌, subst, arith, length, All, map, ◌==◌, ends_with, same_codes, and-true,
  same_codes-eq, same_codes-same, ◌↔◌, not-false,
}
use symbol_nem_wallet_core.Js.Json.{throw_if, throw_if-returned}
use symbol_nem_wallet_core.Js.Outcome.{returned, bind-returned}
use symbol_nem_wallet_core.Release.SemVer.{split}
use symbol_nem_wallet_core.Recovery.Paths.{is_unsafe_path}
use symbol_nem_wallet_core.Operation.Digests.{
  DigestEntry, match_line, without_last, safe_relative_text, read_entry, read_lines, path_count,
  parse_digest_file, is_entry, compare_entries, assert_digest_entries, numbered,
}
use symbol_nem_wallet_core.Operation.Digests.Lines.{
  line_text, digest_text, IsEntry, match_line-some, match_line-of, line_text-IsLine, join_lines,
  join_lines-split, split-line, split-append, ends_with-without_last, without_last-append,
  ends_with-append,
}

read_entry-matched :
    (label : String) (n : ℕ) (line : List ℕ) (found : Option DigestEntry) (entry : DigestEntry)
    → match_line line ≡ found
    → read_entry label n found ≡ returned entry
    → (line ≡ line_text entry) × IsEntry entry
unfolding safe_relative_text
read_entry-matched label n line none entry e k = cc
read_entry-matched label n line (some supplied) entry e k =
    let (u, k₁, k₂) =
      bind-returned (safe_relative_text supplied.path (numbered label " path " n)) _ entry k in
    let q : supplied ≡ entry = ground arith in
    let (safe, k₃) = throw_if-returned (is_unsafe_path supplied.path) _ _ u k₁ in
    let (text, digest, printed) = match_line-some line supplied e in
    subst (λ w. (line ≡ line_text w) × IsEntry w) q
      (text, record { digest = digest; printed = printed; safe = safe })

-- The entries that are read from lines, and the lines that entries are written on.
read_lines-matched :
    (label : String) (n : ℕ) (lines : List (List ℕ)) (entries : List DigestEntry)
    → read_lines label n lines ≡ returned entries
    → (join_lines lines ≡ digest_text entries) × All IsEntry entries
unfolding read_lines
read_lines-matched label n [] entries k = let q : [] ≡ entries = ground arith in rw (← q) (refl, tt)
read_lines-matched label n (line ∷ lines) entries k =
    let (entry, k₁, k₂) = bind-returned (read_entry label n (match_line line)) _ entries k in
    let (rest, k₃, k₄) = bind-returned (read_lines label (n + 1) lines) _ entries k₂ in
    let q : entry ∷ rest ≡ entries = ground arith in
    let (text, valid) = read_entry-matched label n line (match_line line) entry refl k₁ in
    let (texts, more) = read_lines-matched label (n + 1) lines rest k₃ in
    subst (λ w. (join_lines (line ∷ lines) ≡ digest_text w) × All IsEntry w) q
      (rw (text, texts) refl, (valid, more))

read_entry-of :
    (label : String) (n : ℕ) (entry : DigestEntry)
    → IsEntry entry
    → read_entry label n (match_line (line_text entry)) ≡ returned entry
unfolding safe_relative_text
read_entry-of label n entry valid = rw (match_line-of entry valid, valid.safe) refl

read_lines-of :
    (label : String) (n : ℕ) (entries : List DigestEntry)
    → All IsEntry entries
    → read_lines label n (map line_text entries) ≡ returned entries
unfolding read_lines
read_lines-of label n [] valid = refl
read_lines-of label n (entry ∷ entries) (v, vs) =
    rw (read_entry-of label n entry v, read_lines-of label (n + 1) entries vs) refl

-- The text of entries without its last line end.
abbrev body : DigestEntry → List DigestEntry → List ℕ
body entry [] = line_text entry
body entry (other ∷ others) = line_text entry ++ 10 ∷ body other others

digest_text-body :
    (entry : DigestEntry) (entries : List DigestEntry)
    → digest_text (entry ∷ entries) ≡ body entry entries ++ 10 ∷ []
digest_text-body entry [] = refl
digest_text-body entry (other ∷ others) =
    rw (digest_text-body other others)
      (sym (append_assoc (line_text entry) (10 ∷ body other others) (10 ∷ [])))

split-body :
    (entry : DigestEntry) (entries : List DigestEntry)
    → All IsEntry (entry ∷ entries)
    → split 10 (body entry entries) ≡ map line_text (entry ∷ entries)
split-body entry [] (v, vs) = split-line (line_text entry) (line_text-IsLine entry v)
split-body entry (other ∷ others) (v, vs) =
    split-append (line_text entry) (body other others) (line_text-IsLine entry v)
    ∙ ap (λ w. line_text entry ∷ w) (split-body other others vs)

-- A list that a digest file can hold: it is not empty, and its paths are distinct.
pub record IsListed (entries : List DigestEntry) : Type 0 where
  pub full : entries ≢ []
  pub valid : All IsEntry entries
  pub distinct : path_count entries ≡ length entries

parse-distinct :
    (label : String) (found entries : List DigestEntry)
    → throw_if (not (path_count found == length found)) label (returned found) ≡ returned entries
    → (found ≡ entries) × (path_count entries ≡ length entries)
parse-distinct label found entries k =
    let (c, k₁) =
      throw_if-returned (not (path_count found == length found)) label (returned found) entries k in
    let q : found ≡ entries = ground arith in
    let d : path_count found ≡ length found = ground arith in (q, rw q at d)

full-entries :
    (cs : List ℕ) (entries : List DigestEntry) → cs ++ 10 ∷ [] ≡ digest_text entries → entries ≢ []
full-entries [] [] e f = cc
full-entries (c ∷ cs) [] e f = cc
full-entries cs (entry ∷ entries) e f = cc

parse_digest_file-IsListed :
    (content : List ℕ) (label : String) (entries : List DigestEntry)
    → parse_digest_file content label ≡ returned entries
    → (content ≡ digest_text entries) × IsListed entries
unfolding parse_digest_file
parse_digest_file-IsListed content label entries k =
    let (ends, k₁) = throw_if-returned (not (ends_with (10 ∷ []) content)) _ _ entries k in
    let (found, k₂, k₃) =
      bind-returned (read_lines label 1 (split 10 (without_last content))) _ entries k₁ in
    let (same, distinct) = parse-distinct _ found entries k₃ in
    let (text, valid) = read_lines-matched label 1 _ entries (rw same at k₂) in
    let cut = join_lines-split (without_last content) in
    let whole = ends_with-without_last content (not-false _ ends) in
    (
      whole ∙ sym cut ∙ text,
      record {
        full = full-entries (without_last content) entries (sym cut ∙ text);
        valid = valid;
        distinct = distinct;
      },
    )

parse_digest_file-of :
    (label : String) (entries : List DigestEntry)
    → IsListed entries
    → parse_digest_file (digest_text entries) label ≡ returned entries
unfolding parse_digest_file
parse_digest_file-of label [] listed = absurd (listed.full refl)
parse_digest_file-of label (entry ∷ entries) listed =
    let e : (path_count (entry ∷ entries) == length (entry ∷ entries)) ≡ true =
      rw listed.distinct (ground arith) in
    rw
      (
        digest_text-body entry entries,
        ends_with-append (body entry entries),
        without_last-append (body entry entries),
        split-body entry entries listed.valid,
        read_lines-of label 1 (entry ∷ entries) listed.valid,
        e,
      )
      refl

is_entry-eq : (supplied entry : DigestEntry) → is_entry supplied entry ≡ true → supplied ≡ entry
is_entry-eq supplied entry k =
    let (path, hash) = and-true (same_codes supplied.path entry.path) _ k in
    let p = same_codes-eq supplied.path entry.path path in
    let q = same_codes-eq supplied.hash entry.hash hash in cc

compare_entries-eq :
    (label : String) (n : ℕ) (actual expected : List DigestEntry)
    → length actual ≡ length expected
    → compare_entries label n actual expected ≡ returned tt
    → actual ≡ expected
unfolding compare_entries
compare_entries-eq label n [] [] l k = refl
compare_entries-eq label n (a ∷ as₁) [] l k = absurd (omega (arith, l))
compare_entries-eq label n [] (e ∷ es) l k = cc
compare_entries-eq label n (supplied ∷ actual) (entry ∷ expected) l k =
    let (same, rest) = throw_if-returned (not (is_entry supplied entry)) _ _ tt k in
    let p = is_entry-eq supplied entry (not-false _ same) in
    let q = compare_entries-eq label (n + 1) actual expected (omega (arith, l)) rest in cc

compare_entries-same :
    (label : String) (n : ℕ) (entries : List DigestEntry)
    → compare_entries label n entries entries ≡ returned tt
unfolding compare_entries
compare_entries-same label n [] = refl
compare_entries-same label n (entry ∷ entries) =
    rw (same_codes-same entry.path, same_codes-same entry.hash)
      (compare_entries-same label (n + 1) entries)

assert_digest_entries-IsListed :
    (content : List ℕ) (label : String) (expected : List DigestEntry)
    → assert_digest_entries content label expected ≡ returned tt
    → (content ≡ digest_text expected) × IsListed expected
unfolding assert_digest_entries
assert_digest_entries-IsListed content label expected k =
    let (actual, k₁, k₂) = bind-returned (parse_digest_file content label) _ tt k in
    let (long, k₃) = throw_if-returned (not (length actual == length expected)) _ _ tt k₂ in
    let l : length actual ≡ length expected = ground arith in
    let same = compare_entries-eq label 1 actual expected l k₃ in
    rw same at (parse_digest_file-IsListed content label actual k₁)

assert_digest_entries-of :
    (content : List ℕ) (label : String) (expected : List DigestEntry)
    → content ≡ digest_text expected
    → IsListed expected
    → assert_digest_entries content label expected ≡ returned tt
unfolding assert_digest_entries
assert_digest_entries-of content label expected e listed =
    let l : (length expected == length expected) ≡ true = ground arith in
    rw (e, parse_digest_file-of label expected listed, l) (compare_entries-same label 1 expected)

-- assertDigestEntries accepts just one text: a line for each expected entry, in order, of its
-- digest, two spaces and its path, each with a line end. And it accepts that text just when there
-- is an expected entry, the digests have 64 lowercase hexadecimal digits, and the paths are safe,
-- without spaces and distinct.
pub assert_digest_entries_iff :
    (content : List ℕ) (label : String) (expected : List DigestEntry)
    → (assert_digest_entries content label expected ≡ returned tt)
      ↔ ((content ≡ digest_text expected) × IsListed expected)
assert_digest_entries_iff content label expected = (
  assert_digest_entries-IsListed content label expected,
  λ (e, listed). assert_digest_entries-of content label expected e listed,
)
