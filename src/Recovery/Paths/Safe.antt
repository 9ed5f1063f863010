-- ===== src/Recovery/Paths/Safe.antt =====
-- scripts/release-recovery.mjs: a path that is accepted stays under the directory it is resolved in.
use symbol_nem_wallet_core.Prelude.{
  ℕ, String, Bool, false, ◌||◌, List, [], ◌∷◌, ◌≡◌, refl, codes, any, ◌==◌, same_codes,
  if◌then◌else◌, or-false,
}
use symbol_nem_wallet_core.Js.Json.{string, throw_if-returned}
use symbol_nem_wallet_core.Js.Outcome.{returned}
use symbol_nem_wallet_core.Manifest.Versions.{is_empty}
use symbol_nem_wallet_core.Release.SemVer.{split}
use symbol_nem_wallet_core.Recovery.Paths.{
  has, is_special, is_unsafe_path, safe_relative_path, is_unsafe_filename, safe_filename,
}

-- How a path is resolved: the directories from the last to the first, and ".." goes up.
abbrev drop_last : List (List ℕ) → List (List ℕ)
drop_last [] = []
drop_last (d ∷ ds) = ds

abbrev pub enter : List (List ℕ) → List ℕ → List (List ℕ)
enter dirs part =
    if same_codes part (codes "..")
    then drop_last dirs
    else if is_empty part || same_codes part (codes ".")
    then dirs
    else part ∷ dirs

abbrev pub resolve : List (List ℕ) → List (List ℕ) → List (List ℕ)
resolve dirs [] = dirs
resolve dirs (part ∷ parts) = resolve (enter dirs part) parts

-- the parts on top of the directories, the last part first
abbrev pub below : List (List ℕ) → List (List ℕ) → List (List ℕ)
below dirs [] = dirs
below dirs (part ∷ parts) = below (part ∷ dirs) parts

any-false-cons :
    {A : Type 0} (p : A → Bool) (x : A) (xs : List A)
    → any p (x ∷ xs) ≡ false
    → (p x ≡ false) × (any p xs ≡ false)
any-false-cons p x xs k = or-false (p x) (any p xs) k

enter-plain :
    (dirs : List (List ℕ)) (part : List ℕ) → is_special part ≡ false → enter dirs part ≡ part ∷ dirs
enter-plain dirs part k =
    let (k₁, up) = or-false _ (same_codes part (codes "..")) k in rw (up, k₁) refl

resolve-below :
    (dirs parts : List (List ℕ))
    → any is_special parts ≡ false
    → resolve dirs parts ≡ below dirs parts
resolve-below dirs [] k = refl
resolve-below dirs (part ∷ parts) k =
    let (plain, rest) = any-false-cons is_special part parts k in
    rw (enter-plain dirs part plain) (resolve-below (part ∷ dirs) parts rest)

-- An accepted path, resolved in any directory, leads to just its own parts below that directory.
pub safe_relative_path-below :
    (path : String) (label : String) (dirs : List (List ℕ))
    → safe_relative_path (string path) label ≡ returned tt
    → resolve dirs (split b'/' (codes path)) ≡ below dirs (split b'/' (codes path))
unfolding safe_relative_path is_unsafe_path
safe_relative_path-below path label dirs k =
    let (safe, r) = throw_if-returned (is_unsafe_path (codes path)) _ (returned tt) tt k in
    let (rest, special) = or-false _ (any is_special (split b'/' (codes path))) safe in
    resolve-below dirs (split b'/' (codes path)) special

split-none : (s : ℕ) (cs : List ℕ) → has s cs ≡ false → split s cs ≡ cs ∷ []
unfolding split
split-none s [] k = refl
split-none s (c ∷ cs) k =
    let (here, later) = or-false (c == s) (has s cs) k in rw (here, split-none s cs later) refl

-- An accepted filename is one part of a path, and resolved in any directory it names an entry of it.
pub safe_filename-enter :
    (name : String) (label : String) (dirs : List (List ℕ))
    → safe_filename (string name) label ≡ returned tt
    → resolve dirs (split b'/' (codes name)) ≡ codes name ∷ dirs
unfolding safe_filename is_unsafe_filename
safe_filename-enter name label dirs k =
    let cs = codes name in
    let (safe, r) = throw_if-returned (is_unsafe_filename cs) _ (returned tt) tt k in
    let (k₁, up) = or-false _ (same_codes cs (codes "..")) safe in
    let (k₂, dot) = or-false _ (same_codes cs (codes ".")) k₁ in
    let (k₃, backslash) = or-false _ (has b'\\' cs) k₂ in
    let (empty, slash) = or-false (is_empty cs) (has b'/' cs) k₃ in
    rw (split-none b'/' cs slash, up, empty, dot) refl
