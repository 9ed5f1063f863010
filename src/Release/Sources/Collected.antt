-- ===== src/Release/Sources/Collected.antt =====
-- scripts/release-identity.mjs: what the collected versions are of, and which lines of a Cargo
-- manifest count.
use symbol_nem_wallet_core.Prelude.{
  ℕ, String, false, not, Option, none, some, List, [], ◌∷◌, ◌++◌, ◌≡◌, refl, ◌≢◌, codes, same_codes,
  same_codes-eq, All, Bool-cases, inl, inr, arith, not-false, ap, ◌∙◌, subst,
}
use symbol_nem_wallet_core.Js.Json.{Json, throw_if-returned}
use symbol_nem_wallet_core.Release.Sources.Package.{IsPackage, metadata_for-IsPackage}
use symbol_nem_wallet_core.Js.Outcome.{
  thrown, returned-eq, Outcome, returned, traverse, bind-returned,
}
use symbol_nem_wallet_core.Release.Versions.{Source, release_version_sources}
use symbol_nem_wallet_core.Release.Sources.{
  section_of, CargoPackage, read_line, read_lines, metadata_for, read_contents, VersionSource,
  collect_source, collect_release_version_sources,
}

-- What a repository's files are, and how package metadata is parsed.
pub record Files : Type 0 where
  pub read_file : String → Outcome Json
  pub parse : Json → Outcome Json

-- An entry is of its source: the id, the path, the name, and what the file of the source tells.
pub record IsOf (files : Files) (source : Source) (entry : VersionSource) : Type 0 where
  pub id : entry.id ≡ source.id
  pub relative_path : entry.relative_path ≡ source.relative_path
  pub package_name : entry.package_name ≡ codes source.package_name
  pub contents : Json
  pub read : files.read_file source.relative_path ≡ returned contents
  pub is_package : IsPackage files.parse source contents entry.package_name entry.version

abbrev pub AreOf : Files → List Source → List VersionSource → Type 0
AreOf files [] [] = Unit
AreOf files [] (e ∷ es) = ⊥
AreOf files (s ∷ ss) [] = ⊥
AreOf files (s ∷ ss) (e ∷ es) = IsOf files s e × AreOf files ss es

read_contents-returned :
    (path : String) (m : Outcome Json) (contents : Json)
    → read_contents path m ≡ returned contents
    → m ≡ returned contents
read_contents-returned path (returned c) contents k = k
read_contents-returned path (thrown e) contents k = cc

module _ (files : Files) where
  collect_source-IsOf :
      (s : Source) (e : VersionSource)
      → collect_source files.read_file files.parse s ≡ returned e
      → IsOf files s e
  unfolding collect_source
  collect_source-IsOf s e k =
      let (contents, r, k₁) =
        bind-returned (read_contents s.relative_path (files.read_file s.relative_path)) _ e k in
      let (m, p, k₂) = bind-returned (metadata_for files.parse s contents) _ e k₁ in
      let (same, k₃) =
        throw_if-returned (not (same_codes m.package_name (codes s.package_name))) _ _ e k₂ in
      subst (IsOf files s) (returned-eq _ e k₃) (record {
        id = refl;
        relative_path = refl;
        package_name = same_codes-eq _ _ (not-false _ same);
        contents = contents;
        read = read_contents-returned s.relative_path _ contents r;
        is_package = metadata_for-IsPackage files.parse s contents m p;
      })

  traverse-AreOf :
      (ss : List Source) (es : List VersionSource)
      → traverse (collect_source files.read_file files.parse) ss ≡ returned es
      → AreOf files ss es
  unfolding traverse
  traverse-AreOf [] [] k = tt
  traverse-AreOf [] (e ∷ es) k = cc
  traverse-AreOf (s ∷ ss) es k =
      let collect = collect_source files.read_file files.parse in
      let (e, c, k₁) = bind-returned (collect s) _ es k in
      let (rest, t, k₂) = bind-returned (traverse collect ss) _ es k₁ in
      subst (AreOf files (s ∷ ss)) (returned-eq _ es k₂)
        (collect_source-IsOf s e c, traverse-AreOf ss rest t)

  -- The collected versions are one for each source, in their order. The file of the source is read,
  -- and tells the name that the source asks for and the version: for npm as the fields of the parsed
  -- metadata, and for a Cargo manifest on the last lines of its [package] section that assign them.
  pub collect_release_version_sources-AreOf :
      (es : List VersionSource)
      → collect_release_version_sources files.read_file files.parse ≡ returned es
      → AreOf files release_version_sources es
  unfolding collect_release_version_sources
  collect_release_version_sources-AreOf es k = traverse-AreOf release_version_sources es k

-- After a section other than [package], the lines up to the next [package] do not count.
abbrev pub IsOther : List ℕ → Type 0
IsOther line = section_of line ≢ some (codes "package")

same_codes-package :
    (cs : List ℕ) → some cs ≢ some (codes "package") → same_codes cs (codes "package") ≡ false
same_codes-package cs k = elim (Bool-cases (same_codes cs (codes "package"))) [
  | inl e ↦ absurd (k (ap some (same_codes-eq cs (codes "package") e)))
  | inr e ↦ e
]

-- The state is outside of [package], and has the fields of an earlier one.
record StaysOutside (state later : CargoPackage) : Type 0 where
  outside : later.in_package ≡ false
  name : later.name ≡ state.name
  version : later.version ≡ state.version

read_line-StaysOutside :
    (state : CargoPackage) (section : Option (List ℕ)) (l : List ℕ)
    → state.in_package ≡ false
    → section ≢ some (codes "package")
    → StaysOutside state (read_line state section l)
read_line-StaysOutside state (some section) l o k = record {
  outside = same_codes-package section k;
  name = refl;
  version = refl;
}
read_line-StaysOutside state none l o k =
    rw o (record { outside = refl; name = refl; version = refl })

read_lines-StaysOutside :
    (state : CargoPackage) (ls : List (List ℕ))
    → state.in_package ≡ false
    → All IsOther ls
    → StaysOutside state (read_lines state ls)
unfolding read_lines
read_lines-StaysOutside state [] o k = record { outside = o; name = refl; version = refl }
read_lines-StaysOutside state (l ∷ ls) o (k, ks) =
    let first = read_line-StaysOutside state (section_of l) l o k in
    let rest = read_lines-StaysOutside (read_line state (section_of l) l) ls first.outside ks in
    record {
      outside = rest.outside;
      name = rest.name ∙ first.name;
      version = rest.version ∙ first.version;
    }

read_lines-append :
    (state : CargoPackage) (xs ys : List (List ℕ))
    → read_lines state (xs ++ ys) ≡ read_lines (read_lines state xs) ys
unfolding read_lines
read_lines-append state [] ys = refl
read_lines-append state (x ∷ xs) ys = read_lines-append (read_line state (section_of x) x) xs ys

-- The header of another section, with its name.
abbrev pub IsHeaderOf : List ℕ → List ℕ → Type 0
IsHeaderOf section line = (section_of line ≡ some section) × (section ≢ codes "package")

header-StaysOutside :
    (state : CargoPackage) (section header : List ℕ) (ys : List (List ℕ))
    → IsHeaderOf section header
    → All IsOther ys
    → StaysOutside state (read_lines state (header ∷ ys))
unfolding read_lines
header-StaysOutside state section header ys (h, n) k =
    let different : some section ≢ some (codes "package") = λ e. n (ground arith) in
    let s = read_line state (section_of header) header in
    let o : s.in_package ≡ false = rw h (same_codes-package section different) in
    let rest = read_lines-StaysOutside s ys o k in
    record {
      outside = rest.outside;
      name = rest.name ∙ rw h refl;
      version = rest.version ∙ rw h refl;
    }

-- A Cargo manifest's name and version come from its [package] section: what follows the header of
-- another section, up to a further [package], changes neither.
pub read_lines-other :
    (state : CargoPackage) (xs ys : List (List ℕ)) (section header : List ℕ)
    → IsHeaderOf section header
    → All IsOther ys
    → ((read_lines state (xs ++ (header ∷ ys))).name ≡ (read_lines state xs).name)
      × ((read_lines state (xs ++ (header ∷ ys))).version ≡ (read_lines state xs).version)
read_lines-other state xs ys section header h k =
    let s = header-StaysOutside (read_lines state xs) section header ys h k in
    let e = read_lines-append state xs (header ∷ ys) in
    (ap (λ c. c.name) e ∙ s.name, ap (λ c. c.version) e ∙ s.version)
