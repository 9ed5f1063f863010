-- ===== src/Operation/Digests/Lines.antt =====
-- scripts/release-operation.mjs: the lines of a digest file, and the text of a list of entries.
use symbol_nem_wallet_core.Prelude.{
  ℕ, zero, suc, Bool, true, false, not, ◌&&◌, ◌||◌, Option, none, some, List, [], ◌∷◌, ◌++◌, ◌≡◌,
  refl, sym, ap, subst, arith, length, all, ◌==◌, ends_with, Bool-cases, inl, inr, and-true,
}
use symbol_nem_wallet_core.Manifest.Versions.{is_empty, is_lower_hex, is_digest}
use symbol_nem_wallet_core.Release.SemVer.{split, cons_part}
use symbol_nem_wallet_core.Recovery.Paths.{is_unsafe_path}
use symbol_nem_wallet_core.Operation.Digests.{
  DigestEntry, take_hex, cons_hash, path_after, is_path_char, entry_with, entry_of, match_line,
  without_last,
}

-- A line, and the whole text, of entries.
abbrev pub line_text : DigestEntry → List ℕ
line_text entry = entry.hash ++ b' ' ∷ b' ' ∷ entry.path

abbrev pub digest_text : List DigestEntry → List ℕ
digest_text [] = []
digest_text (entry ∷ entries) = line_text entry ++ 10 ∷ digest_text entries

-- An entry that a line can hold: a digest of 64 digits, and a safe path without spaces.
pub record IsEntry (entry : DigestEntry) : Type 0 where
  pub digest : is_digest 64 entry.hash ≡ true
  pub printed : all is_path_char entry.path ≡ true
  pub safe : is_unsafe_path entry.path ≡ false

abbrev Taken : ℕ → List ℕ → List ℕ → List ℕ → Type 0
Taken n cs hash rest = (cs ≡ hash ++ rest) × (length hash ≡ n) × (all is_lower_hex hash ≡ true)

take_hex-step :
    (c n : ℕ) (cs hash rest : List ℕ) (found : Option (List ℕ × List ℕ))
    → is_lower_hex c ≡ true
    → ((h r : List ℕ) → found ≡ some (h, r) → Taken n cs h r)
    → cons_hash c found ≡ some (hash, rest)
    → Taken (suc n) (c ∷ cs) hash rest
take_hex-step c n cs hash rest none e ih k = cc
take_hex-step c n cs hash rest (some (h, r)) e ih k =
    let (text, long, hex) = ih h r refl in
    let q : c ∷ h ≡ hash = ground arith in
    let s : r ≡ rest = ground arith in
    (rw (← q, text, s) refl, rw (← q, long) refl, rw (← q, e) hex)

take_hex-some :
    (n : ℕ) (cs hash rest : List ℕ) → take_hex n cs ≡ some (hash, rest) → Taken n cs hash rest
unfolding take_hex
take_hex-some zero cs hash rest k =
    let q : [] ≡ hash = ground arith in
    let r : cs ≡ rest = ground arith in (rw (← q, r) refl, rw (← q) refl, rw (← q) refl)
take_hex-some (suc n) [] hash rest k = cc
take_hex-some (suc n) (c ∷ cs) hash rest k = elim (Bool-cases (is_lower_hex c)) [
  | inr e ↦ cc (rw e at k)
  | inl e ↦
      take_hex-step c n cs hash rest (take_hex n cs) e (λ h r. take_hex-some n cs h r) (rw e at k)
]

take_hex-of :
    (n : ℕ) (hash rest : List ℕ)
    → length hash ≡ n
    → all is_lower_hex hash ≡ true
    → take_hex n (hash ++ rest) ≡ some (hash, rest)
unfolding take_hex
take_hex-of zero [] rest l e = refl
take_hex-of zero (c ∷ cs) rest l e = absurd (omega (arith, l))
take_hex-of (suc n) [] rest l e = absurd (omega (arith, l))
take_hex-of (suc n) (c ∷ cs) rest l e =
    let (hex, more) = and-true (is_lower_hex c) (all is_lower_hex cs) e in
    rw (hex, take_hex-of n cs rest (omega (arith, l)) more) refl

path_after-some :
    (cs path : List ℕ)
    → path_after cs ≡ some path
    → (cs ≡ b' ' ∷ b' ' ∷ path) × (all is_path_char path ≡ true)
path_after-some [] path k = cc
path_after-some (c ∷ []) path k = cc
path_after-some (c ∷ d ∷ ds) path k =
    elim (Bool-cases (c == b' ' && d == b' ' && not (is_empty ds) && all is_path_char ds)) [
      | inr e ↦ cc (rw e at k)
      | inl e ↦
          let (f, printed) = and-true _ (all is_path_char ds) e in
          let (g, full) = and-true _ (not (is_empty ds)) f in
          let (first, second) = and-true (c == b' ') (d == b' ') g in
          let p : c ≡ b' ' = ground arith in
          let q : d ≡ b' ' = ground arith in
          let m : some ds ≡ some path = rw e at k in
          let r : ds ≡ path = ground arith in (rw (p, q, r) refl, rw r at printed)
    ]

-- What the match of a line tells of it.
abbrev pub Matched : List ℕ → DigestEntry → Type 0
Matched line entry =
    (line ≡ line_text entry)
    × (is_digest 64 entry.hash ≡ true)
    × (all is_path_char entry.path ≡ true)

entry_with-some :
    (hash cs : List ℕ) (found : Option (List ℕ)) (entry : DigestEntry)
    → path_after cs ≡ found
    → is_digest 64 hash ≡ true
    → entry_with hash found ≡ some entry
    → Matched (hash ++ cs) entry
entry_with-some hash cs none entry e digest k = cc
entry_with-some hash cs (some path) entry e digest k =
    let (spaces, printed) = path_after-some cs path e in
    let q : record { hash = hash; path = path } ≡ entry = ground arith in
    subst (Matched (hash ++ cs)) q (ap (λ w. hash ++ w) spaces, digest, printed)

entry_of-some :
    (line : List ℕ) (found : Option (List ℕ × List ℕ)) (entry : DigestEntry)
    → take_hex 64 line ≡ found
    → entry_of found ≡ some entry
    → Matched line entry
entry_of-some line none entry e k = cc
entry_of-some line (some (hash, rest)) entry e k =
    let (text, long, hex) = take_hex-some 64 line hash rest e in
    let digest : is_digest 64 hash ≡ true = rw (long, hex) refl in
    subst (λ w. Matched w entry) (sym text)
      (entry_with-some hash rest (path_after rest) entry refl digest k)

pub match_line-some :
    (line : List ℕ) (entry : DigestEntry) → match_line line ≡ some entry → Matched line entry
unfolding match_line
match_line-some line entry k = entry_of-some line (take_hex 64 line) entry refl k

unsafe-empty : (path : List ℕ) → is_unsafe_path path ≡ false → is_empty path ≡ false
unfolding is_unsafe_path
unsafe-empty [] k = cc
unsafe-empty (c ∷ cs) k = refl

-- The line of an entry is matched as the entry.
pub match_line-of :
    (entry : DigestEntry) → IsEntry entry → match_line (line_text entry) ≡ some entry
unfolding match_line
match_line-of entry valid =
    let (long, hex) =
      and-true (length entry.hash == 64) (all is_lower_hex entry.hash) valid.digest in
    let l : length entry.hash ≡ 64 = ground arith in
    rw
      (
        take_hex-of 64 entry.hash (b' ' ∷ b' ' ∷ entry.path) l hex,
        unsafe-empty entry.path valid.safe,
        valid.printed,
      )
      refl

-- A line holds no line end.
abbrev pub IsLine : List ℕ → Type 0
IsLine line = all (λ c. not (c == 10)) line ≡ true

all-append :
    (p : ℕ → Bool) (cs ds : List ℕ) → all p cs ≡ true → all p ds ≡ true → all p (cs ++ ds) ≡ true
all-append p [] ds e f = f
all-append p (c ∷ cs) ds e f =
    let (g, more) = and-true (p c) (all p cs) e in rw g (all-append p cs ds more f)

all-weaken :
    (p q : ℕ → Bool)
    → ((c : ℕ) → p c ≡ true → q c ≡ true)
    → (cs : List ℕ) → all p cs ≡ true
    → all q cs ≡ true
all-weaken p q w [] e = refl
all-weaken p q w (c ∷ cs) e =
    let (g, more) = and-true (p c) (all p cs) e in rw (w c g) (all-weaken p q w cs more)

hex-newline : (c : ℕ) → is_lower_hex c ≡ true → not (c == 10) ≡ true
hex-newline c e = ground arith

path_char-newline : (c : ℕ) → is_path_char c ≡ true → not (c == 10) ≡ true
path_char-newline c e = ground arith

pub line_text-IsLine : (entry : DigestEntry) → IsEntry entry → IsLine (line_text entry)
line_text-IsLine entry valid =
    let (long, hex) =
      and-true (length entry.hash == 64) (all is_lower_hex entry.hash) valid.digest in
    all-append (λ c. not (c == 10)) entry.hash (b' ' ∷ b' ' ∷ entry.path)
      (all-weaken is_lower_hex _ hex-newline entry.hash hex)
      (all-weaken is_path_char (λ c. not (c == 10)) path_char-newline entry.path valid.printed)

-- Lines and the texts they are cut from.
abbrev pub join_lines : List (List ℕ) → List ℕ
join_lines [] = []
join_lines (line ∷ lines) = line ++ 10 ∷ join_lines lines

join_lines-cons :
    (c : ℕ) (lines : List (List ℕ)) (rest : List ℕ)
    → join_lines lines ≡ rest ++ 10 ∷ []
    → join_lines (cons_part c lines) ≡ c ∷ (rest ++ 10 ∷ [])
join_lines-cons c [] [] e = cc
join_lines-cons c [] (d ∷ ds) e = cc
join_lines-cons c (line ∷ lines) rest e = ap (λ w. c ∷ w) e

pub join_lines-split : (cs : List ℕ) → join_lines (split 10 cs) ≡ cs ++ 10 ∷ []
unfolding split
join_lines-split [] = refl
join_lines-split (c ∷ cs) = elim (Bool-cases (c == 10)) [
  | inl e ↦ let q : c ≡ 10 = ground arith in rw (e, q) (ap (λ w. 10 ∷ w) (join_lines-split cs))
  | inr e ↦ rw e (join_lines-cons c (split 10 cs) cs (join_lines-split cs))
]

pub split-line : (line : List ℕ) → IsLine line → split 10 line ≡ line ∷ []
unfolding split
split-line [] k = refl
split-line (c ∷ cs) k =
    let (e, more) = and-true (not (c == 10)) _ k in
    let f : (c == 10) ≡ false = ground arith in rw (f, split-line cs more) refl

pub split-append :
    (line rest : List ℕ) → IsLine line → split 10 (line ++ 10 ∷ rest) ≡ line ∷ split 10 rest
unfolding split
split-append [] rest k = refl
split-append (c ∷ cs) rest k =
    let (e, more) = and-true (not (c == 10)) _ k in
    let f : (c == 10) ≡ false = ground arith in rw (f, split-append cs rest more) refl

not-alone : (a b : Bool) → (a && false || b) ≡ true → b ≡ true
not-alone true b k = k
not-alone false b k = k

-- The text in front of the last line end.
pub ends_with-without_last :
    (cs : List ℕ) → ends_with (10 ∷ []) cs ≡ true → cs ≡ without_last cs ++ 10 ∷ []
ends_with-without_last [] k = cc
ends_with-without_last (c ∷ []) k = ap (λ w. w ∷ []) (ground arith)
ends_with-without_last (c ∷ d ∷ ds) k =
    ap (λ w. c ∷ w)
      (ends_with-without_last (d ∷ ds) (not-alone (10 == c) (ends_with (10 ∷ []) (d ∷ ds)) k))

pub without_last-append : (cs : List ℕ) → without_last (cs ++ 10 ∷ []) ≡ cs
without_last-append [] = refl
without_last-append (c ∷ []) = refl
without_last-append (c ∷ d ∷ ds) = ap (λ w. c ∷ w) (without_last-append (d ∷ ds))

alone : (a b : Bool) → b ≡ true → (a && false || b) ≡ true
alone true b k = k
alone false b k = k

pub ends_with-append : (cs : List ℕ) → ends_with (10 ∷ []) (cs ++ 10 ∷ []) ≡ true
ends_with-append [] = refl
ends_with-append (c ∷ []) = alone (10 == c) true refl
ends_with-append (c ∷ d ∷ ds) =
    alone (10 == c) (ends_with (10 ∷ []) (d ∷ ds ++ 10 ∷ [])) (ends_with-append (d ∷ ds))
