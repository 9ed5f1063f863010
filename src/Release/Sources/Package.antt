-- ===== src/Release/Sources/Package.antt =====
-- scripts/release-identity.mjs: where in a Cargo manifest parseCargoPackage finds a field.
use symbol_nem_wallet_core.Prelude.{
  String, true, false, Option, none, some, List, [], ◌∷◌, ◌≡◌, ◌≢◌, not, eq_iff, ◌===◌, refl, sym,
  ap, subst, ◌∙◌, ◌⊎◌, inl, inr, codes, ℕ, same_codes, same_codes-eq, arith, Bool-cases,
}
use symbol_nem_wallet_core.Js.Json.{
  Json, undefined, null, boolean, number, string, array, object, opaque, get, is_plain_object,
  throw_if-returned,
}
use symbol_nem_wallet_core.Js.Outcome.{Outcome, returned, thrown, returned-eq}
use symbol_nem_wallet_core.Release.Versions.{Source}
use symbol_nem_wallet_core.Release.Sources.{
  section_of, field_of, or_else, CargoPackage, read_line, read_lines, lines, Metadata, metadata_of,
  parse_cargo_package, npm_metadata, parsed_metadata, parse_npm_package, metadata_for,
}

-- The last section header of some lines, given from the last one to the first, is [package].
abbrev pub InPackage : List (List ℕ) → Type 0
InPackage [] = ⊥
InPackage (line ∷ before) =
    (section_of line ≡ some (codes "package")) ⊎ ((section_of line ≡ none) × InPackage before)

-- A line of [package], behind some lines, that assigns a key.
abbrev pub Assigns : String → List ℕ → List ℕ → List (List ℕ) → Type 0
Assigns key value line before =
    (section_of line ≡ none) × InPackage before × (field_of key line ≡ some value)

-- The last line of [package] that assigns the key assigns the value; the lines are given from the
-- last one to the first.
abbrev pub HasField : String → List ℕ → List (List ℕ) → Type 0
HasField key value [] = ⊥
HasField key value (line ∷ before) =
    Assigns key value line before
    ⊎ (((w : List ℕ) → Assigns key w line before → ⊥) × HasField key value before)

abbrev Told : String → Option (List ℕ) → List (List ℕ) → Type 0
Told key none before = Unit
Told key (some value) before = HasField key value before

-- What the state tells of the lines that are read, from the last one to the first.
record IsState (before : List (List ℕ)) (state : CargoPackage) : Type 0 where
  inside : state.in_package ≡ true → InPackage before
  complete : InPackage before → state.in_package ≡ true
  name : Told "name" state.name before
  version : Told "version" state.version before

Told-skip :
    (key : String) (value : Option (List ℕ)) (line : List ℕ) (before : List (List ℕ))
    → ((w : List ℕ) → Assigns key w line before → ⊥)
    → Told key value before
    → Told key value (line ∷ before)
Told-skip key none line before n t = tt
Told-skip key (some value) line before n t = inr (n, t)

Told-assigned :
    (key : String) (found earlier : Option (List ℕ)) (line : List ℕ) (before : List (List ℕ))
    → section_of line ≡ none
    → InPackage before
    → field_of key line ≡ found
    → Told key earlier before
    → Told key (or_else found earlier) (line ∷ before)
Told-assigned key none earlier line before s p f t =
    Told-skip key earlier line before (λ w (s', p', e). let q : none ≡ some w = sym f ∙ e in cc) t
Told-assigned key (some value) earlier line before s p f t = inl (s, p, f)

package-known :
    (section : List ℕ) → section ≡ codes "package" → same_codes section (codes "package") ≡ true
package-known section e = rw e refl

read_line-section :
    (before : List (List ℕ)) (state : CargoPackage) (line section : List ℕ)
    → section_of line ≡ some section
    → IsState before state
    → IsState (line ∷ before) (read_line state (some section) line)
read_line-section before state line section e known = record {
  inside = λ k. inl (e ∙ ap some (same_codes-eq section (codes "package") k));
  complete = λ p. elim p [
    | inl s ↦ let q : section ≡ codes "package" = ground arith in package-known section q
    | inr (s, p') ↦ let q : none ≡ some section = sym s ∙ e in cc
  ];
  name =
      Told-skip "name" state.name line before
        (λ w (s, p, f). let q : none ≡ some section = sym s ∙ e in cc) known.name;
  version =
      Told-skip "version" state.version line before
        (λ w (s, p, f). let q : none ≡ some section = sym s ∙ e in cc) known.version;
}

read_line-inside :
    (before : List (List ℕ)) (state : CargoPackage) (line : List ℕ)
    → section_of line ≡ none
    → state.in_package ≡ true
    → IsState before state
    → IsState (line ∷ before) (read_line state none line)
read_line-inside before state line e i known =
    let p = known.inside i in
    rw i (record {
      inside = λ k. inr (e, p);
      complete = λ q. refl;
      name = Told-assigned "name" (field_of "name" line) state.name line before e p refl known.name;
      version =
          Told-assigned "version" (field_of "version" line) state.version line before e p refl
            known.version;
    })

read_line-outside :
    (before : List (List ℕ)) (state : CargoPackage) (line : List ℕ)
    → section_of line ≡ none
    → state.in_package ≡ false
    → IsState before state
    → IsState (line ∷ before) (read_line state none line)
read_line-outside before state line e o known =
    let n : InPackage before → ⊥ = λ p. let q : true ≡ false = sym (known.complete p) ∙ o in cc in
    rw o (record {
      inside = λ k. cc;
      complete = λ p. elim p [
        | inl s ↦ let q : none ≡ some (codes "package") = sym e ∙ s in cc
        | inr (s, p') ↦ absurd (n p')
      ];
      name = Told-skip "name" state.name line before (λ w (s, p, f). n p) known.name;
      version = Told-skip "version" state.version line before (λ w (s, p, f). n p) known.version;
    })

read_line-IsState :
    (before : List (List ℕ)) (state : CargoPackage) (section : Option (List ℕ)) (line : List ℕ)
    → section_of line ≡ section
    → IsState before state
    → IsState (line ∷ before) (read_line state section line)
read_line-IsState before state (some section) line e known =
    read_line-section before state line section e known
read_line-IsState before state none line e known = elim (Bool-cases state.in_package) [
  | inl i ↦ read_line-inside before state line e i known
  | inr o ↦ read_line-outside before state line e o known
]

-- Some lines, from the last one to the first, in front of others.
abbrev pub latest_first : List (List ℕ) → List (List ℕ) → List (List ℕ)
latest_first [] before = before
latest_first (line ∷ rest) before = latest_first rest (line ∷ before)

read_lines-IsState :
    (before : List (List ℕ)) (state : CargoPackage) (rest : List (List ℕ))
    → IsState before state
    → IsState (latest_first rest before) (read_lines state rest)
unfolding read_lines
read_lines-IsState before state [] known = known
read_lines-IsState before state (line ∷ rest) known =
    read_lines-IsState (line ∷ before) (read_line state (section_of line) line) rest
      (read_line-IsState before state (section_of line) line refl known)

-- A Cargo manifest, as a text, with the name and the version of its package.
pub record IsCargoPackage (contents : String) (name version : List ℕ) : Type 0 where
  pub has_name : HasField "name" name (latest_first (lines (codes contents)) [])
  pub has_version : HasField "version" version (latest_first (lines (codes contents)) [])

metadata-IsCargoPackage :
    (contents path : String) (name version : Option (List ℕ)) (metadata : Metadata)
    → Told "name" name (latest_first (lines (codes contents)) [])
    → Told "version" version (latest_first (lines (codes contents)) [])
    → metadata_of path name version ≡ returned metadata
    → IsCargoPackage contents metadata.package_name metadata.version
metadata-IsCargoPackage contents path (some n) (some v) metadata p q k =
    subst (λ (m : Metadata). IsCargoPackage contents m.package_name m.version)
      (returned-eq _ metadata k) (record { has_name = p; has_version = q })
metadata-IsCargoPackage contents path (some n) none metadata p q k = cc
metadata-IsCargoPackage contents path none v metadata p q k = cc

pub parse_cargo_package-IsCargoPackage :
    (contents path : String) (metadata : Metadata)
    → parse_cargo_package (string contents) path ≡ returned metadata
    → IsCargoPackage contents metadata.package_name metadata.version
unfolding parse_cargo_package
parse_cargo_package-IsCargoPackage contents path metadata k =
    let start : CargoPackage = record { in_package = false; name = none; version = none } in
    let all_lines = lines (codes contents) in
    let known =
      read_lines-IsState [] start all_lines
        (record { inside = λ i. cc; complete = λ p. absurd p; name = tt; version = tt }) in
    let state = read_lines start all_lines in
    metadata-IsCargoPackage contents path state.name state.version metadata known.name known.version
      k

-- npm package metadata, as a value that is parsed, with its name and its version.
pub record IsNpmPackage (parsed : Outcome Json) (name version : List ℕ) : Type 0 where
  pub metadata : Json
  pub known : parsed ≡ returned metadata
  pub name_text : String
  pub version_text : String
  pub name_field : get metadata "name" ≡ string name_text
  pub version_field : get metadata "version" ≡ string version_text
  pub same_name : name ≡ codes name_text
  pub same_version : version ≡ codes version_text

npm_metadata-IsNpmPackage :
    (path : String) (m v w : Json) (metadata : Metadata)
    → get m "name" ≡ v
    → get m "version" ≡ w
    → npm_metadata path v w ≡ returned metadata
    → IsNpmPackage (returned m) metadata.package_name metadata.version
npm_metadata-IsNpmPackage path m (string n) (string v) metadata e f k =
    let q = returned-eq _ metadata k in
    record {
      metadata = m;
      known = refl;
      name_text = n;
      version_text = v;
      name_field = e;
      version_field = f;
      same_name = sym (ap (λ (w : Metadata). w.package_name) q);
      same_version = sym (ap (λ (w : Metadata). w.version) q);
    }
npm_metadata-IsNpmPackage path m (string n) undefined metadata e f k = cc
npm_metadata-IsNpmPackage path m (string n) null metadata e f k = cc
npm_metadata-IsNpmPackage path m (string n) (boolean b) metadata e f k = cc
npm_metadata-IsNpmPackage path m (string n) (number t) metadata e f k = cc
npm_metadata-IsNpmPackage path m (string n) (array vs) metadata e f k = cc
npm_metadata-IsNpmPackage path m (string n) (object fs) metadata e f k = cc
npm_metadata-IsNpmPackage path m (string n) (opaque t) metadata e f k = cc
npm_metadata-IsNpmPackage path m undefined w metadata e f k = cc
npm_metadata-IsNpmPackage path m null w metadata e f k = cc
npm_metadata-IsNpmPackage path m (boolean b) w metadata e f k = cc
npm_metadata-IsNpmPackage path m (number t) w metadata e f k = cc
npm_metadata-IsNpmPackage path m (array vs) w metadata e f k = cc
npm_metadata-IsNpmPackage path m (object fs) w metadata e f k = cc
npm_metadata-IsNpmPackage path m (opaque t) w metadata e f k = cc

parsed_metadata-IsNpmPackage :
    (path : String) (parsed : Outcome Json) (metadata : Metadata)
    → parsed_metadata path parsed ≡ returned metadata
    → IsNpmPackage parsed metadata.package_name metadata.version
parsed_metadata-IsNpmPackage path (returned m) metadata k =
    let (plain, k₁) = throw_if-returned (not (is_plain_object m)) _ _ metadata k in
    npm_metadata-IsNpmPackage path m (get m "name") (get m "version") metadata refl refl k₁
parsed_metadata-IsNpmPackage path (thrown e) metadata k = cc

-- What the file of a source tells: npm package metadata for the source npm, and a Cargo manifest for
-- every other one.
pub data IsPackage (parse : Json → Outcome Json) (source : Source) (contents : Json)
    (name version : List ℕ) : Type 0 where
  is_npm :
      source.id ≡ "npm"
      → IsNpmPackage (parse contents) name version
      → IsPackage parse source contents name version
  is_cargo :
      (manifest : String)
      → source.id ≢ "npm"
      → contents ≡ string manifest
      → IsCargoPackage manifest name version
      → IsPackage parse source contents name version

cargo-IsPackage :
    (parse : Json → Outcome Json) (source : Source) (contents : Json) (metadata : Metadata)
    → source.id ≢ "npm"
    → parse_cargo_package contents source.relative_path ≡ returned metadata
    → IsPackage parse source contents metadata.package_name metadata.version
unfolding parse_cargo_package
cargo-IsPackage parse source (string s) metadata n k =
    is_cargo s n refl (parse_cargo_package-IsCargoPackage s source.relative_path metadata k)
cargo-IsPackage parse source undefined metadata n k = cc
cargo-IsPackage parse source null metadata n k = cc
cargo-IsPackage parse source (boolean b) metadata n k = cc
cargo-IsPackage parse source (number t) metadata n k = cc
cargo-IsPackage parse source (array vs) metadata n k = cc
cargo-IsPackage parse source (object fs) metadata n k = cc
cargo-IsPackage parse source (opaque t) metadata n k = cc

pub metadata_for-IsPackage :
    (parse : Json → Outcome Json) (source : Source) (contents : Json) (metadata : Metadata)
    → metadata_for parse source contents ≡ returned metadata
    → IsPackage parse source contents metadata.package_name metadata.version
unfolding parse_npm_package
metadata_for-IsPackage parse source contents metadata k = elim (Bool-cases (source.id === "npm")) [
  | inl e ↦
      is_npm ((eq_iff source.id "npm").0 e)
        (parsed_metadata-IsNpmPackage source.relative_path (parse contents) metadata (rw e at k))
  | inr e ↦
      cargo-IsPackage parse source contents metadata
        (λ q. let r : (source.id === "npm") ≡ true = (eq_iff source.id "npm").1 q in cc) (rw e at k)
]
