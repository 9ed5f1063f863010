-- ===== src/Release/Sources.antt =====
-- scripts/release-identity.mjs: parseCargoPackage, parseNpmPackage and collectReleaseVersionSources.
-- The file system and JSON.parse are parameters.
pub mod Collected
pub mod Package
use symbol_nem_wallet_core.Prelude.{
  ℕ, String, Bool, true, false, not, ◌||◌, ◌&&◌, Option, none, some, List, [], ◌∷◌, ◌++◌, codes,
  ◌==◌, leb, contains, all, any, same_codes, starts_with, if◌then◌else◌, ◌===◌,
}
use Prim.Native.String
use symbol_nem_wallet_core.Js.Json.{
  Json, undefined, string, object, Fields, field, end, is_plain_object, get, throw_if, error, text,
}
use symbol_nem_wallet_core.Js.Outcome.{Outcome, returned, thrown, ◌>>=◌, traverse}
use symbol_nem_wallet_core.Manifest.Versions.{is_empty}
use symbol_nem_wallet_core.Release.SemVer.{cut}
use symbol_nem_wallet_core.Release.Versions.{Source, release_version_sources, gate}

-- \s
abbrev pub is_space : ℕ → Bool
is_space c =
    leb 9 c && leb c 13
    || c == 32
    || c == 160
    || c == 5760
    || leb 8192 c && leb c 8202
    || c == 8232
    || c == 8233
    || c == 8239
    || c == 8287
    || c == 12288
    || c == 65279

unfoldable pub skip_spaces : List ℕ → List ℕ
skip_spaces [] = []
skip_spaces (c ∷ cs) = let rest = skip_spaces cs in if is_space c then rest else c ∷ cs

-- split(/\r?\n/), one line at a time: a line loses the \r in front of its \n
abbrev cons_line : ℕ → List (List ℕ) → List (List ℕ)
cons_line c [] = (c ∷ []) ∷ []
cons_line c (line ∷ lines) = (c ∷ line) ∷ lines

abbrev starts_line_end : List ℕ → Bool
starts_line_end cs = starts_with (10 ∷ []) cs

unfoldable pub lines : List ℕ → List (List ℕ)
lines [] = [] ∷ []
lines (c ∷ cs) =
    let rest = lines cs in
    if c == 10 then [] ∷ rest else if c == 13 && starts_line_end cs then rest else cons_line c rest

-- [^\]]+\]\s*$, to the name in front of the bracket
abbrev section_name : List ℕ × Option (List ℕ) → Option (List ℕ)
section_name (name, none) = none
section_name (name, some rest) =
    if not (is_empty name) && all is_space rest then some name else none

abbrev after_bracket : List ℕ → Option (List ℕ)
after_bracket [] = none
after_bracket (c ∷ cs) = if c == b'[' then section_name (cut b']' cs) else none

-- /^\s*\[([^\]]+)\]\s*$/
unfoldable pub section_of : List ℕ → Option (List ℕ)
section_of line = after_bracket (skip_spaces line)

-- (?:\s*#.*)?$
abbrev is_comment : List ℕ → Bool
is_comment [] = false
is_comment (c ∷ cs) = c == b'#' && all (λ d. not (d == 10 || d == 13 || d == 8232 || d == 8233)) cs

abbrev field_value : List ℕ × Option (List ℕ) → Option (List ℕ)
field_value (value, none) = none
field_value (value, some rest) =
    if not (is_empty value) && (is_empty rest || is_comment (skip_spaces rest))
    then some value
    else none

abbrev quoted : List ℕ → Option (List ℕ)
quoted [] = none
quoted (c ∷ cs) = if c == b'"' then field_value (cut b'"' cs) else none

abbrev assigned : List ℕ → Option (List ℕ)
assigned [] = none
assigned (c ∷ cs) = if c == b'=' then quoted (skip_spaces cs) else none

-- what follows a key, if the text starts with it
abbrev drop_key : List ℕ → List ℕ → Option (List ℕ)
drop_key [] cs = some cs
drop_key (k ∷ ks) [] = none
drop_key (k ∷ ks) (c ∷ cs) = let rest = drop_key ks cs in if k == c then rest else none

abbrev value_after : Option (List ℕ) → Option (List ℕ)
value_after none = none
value_after (some cs) = assigned (skip_spaces cs)

-- /^\s*(name|version)\s*=\s*"([^"]+)"(?:\s*#.*)?$/, for one of the two keys
unfoldable pub field_of : String → List ℕ → Option (List ℕ)
field_of key line = value_after (drop_key (codes key) (skip_spaces line))

-- the last value wins
abbrev or_else : Option (List ℕ) → Option (List ℕ) → Option (List ℕ)
or_else none old = old
or_else (some new) old = some new

pub record CargoPackage : Type 0 where
  pub in_package : Bool
  pub name : Option (List ℕ)
  pub version : Option (List ℕ)

abbrev pub read_line : CargoPackage → Option (List ℕ) → List ℕ → CargoPackage
read_line state (some section) line = record state {
  in_package = same_codes section (codes "package");
}
read_line state none line =
    if state.in_package
    then record {
      in_package = true;
      name = or_else (field_of "name" line) state.name;
      version = or_else (field_of "version" line) state.version;
    }
    else state

unfoldable pub read_lines : CargoPackage → List (List ℕ) → CargoPackage
read_lines state [] = state
read_lines state (line ∷ rest) = read_lines (read_line state (section_of line) line) rest

pub record Metadata : Type 0 where
  pub package_name : List ℕ
  pub version : List ℕ

abbrev metadata_of : String → Option (List ℕ) → Option (List ℕ) → Outcome Metadata
metadata_of path (some name) (some version) =
    returned (record { package_name = name; version = version })
metadata_of path (some name) none =
    thrown (error (gate (String.◌++◌ "Cargo package name/version is unavailable: " path)))
metadata_of path none version =
    thrown (error (gate (String.◌++◌ "Cargo package name/version is unavailable: " path)))

unfoldable pub parse_cargo_package : Json → String → Outcome Metadata
parse_cargo_package (string contents) path =
    let state =
      read_lines (record { in_package = false; name = none; version = none })
        (lines (codes contents)) in
    metadata_of path state.name state.version
parse_cargo_package _ path =
    thrown (error (gate (String.◌++◌ "Cargo manifest is unreadable: " path)))

-- `parse` is JSON.parse, of what it throws nothing is used.
abbrev npm_metadata : String → Json → Json → Outcome Metadata
npm_metadata path (string name) (string version) =
    returned (record { package_name = codes name; version = codes version })
npm_metadata path _ _ =
    thrown (error (gate (String.◌++◌ "npm package name/version is unavailable: " path)))

abbrev parsed_metadata : String → Outcome Json → Outcome Metadata
parsed_metadata path (thrown e) =
    thrown (error (gate (String.◌++◌ "npm package metadata is unreadable: " path)))
parsed_metadata path (returned metadata) =
    throw_if (not (is_plain_object metadata))
      (gate (String.◌++◌ "npm package name/version is unavailable: " path))
      (npm_metadata path (get metadata "name") (get metadata "version"))

unfoldable pub parse_npm_package : (Json → Outcome Json) → Json → String → Outcome Metadata
parse_npm_package parse contents path = parsed_metadata path (parse contents)

pub record VersionSource : Type 0 where
  pub id : String
  pub relative_path : String
  pub package_name : List ℕ
  pub version : List ℕ

-- of the sources, npm alone has the kind "npm"
abbrev metadata_for : (Json → Outcome Json) → Source → Json → Outcome Metadata
metadata_for parse source contents =
    if source.id === "npm"
    then parse_npm_package parse contents source.relative_path
    else parse_cargo_package contents source.relative_path

abbrev read_contents : String → Outcome Json → Outcome Json
read_contents path (returned contents) = returned contents
read_contents path (thrown e) =
    thrown (error (gate (String.◌++◌ "release manifest is unreadable: " path)))

unfoldable pub collect_source :
    (String → Outcome Json) → (Json → Outcome Json) → Source → Outcome VersionSource
collect_source read_file parse source =
    read_contents source.relative_path (read_file source.relative_path) >>= λ contents.
    metadata_for parse source contents >>= λ metadata.
    throw_if (not (same_codes metadata.package_name (codes source.package_name)))
      (gate (String.◌++◌ "unexpected release package name: " source.relative_path))
      (returned (record {
        id = source.id;
        relative_path = source.relative_path;
        package_name = metadata.package_name;
        version = metadata.version;
      }))

-- `read_file` reads a file of the repository by its path from the root.
unfoldable pub collect_release_version_sources :
    (String → Outcome Json) → (Json → Outcome Json) → Outcome (List VersionSource)
collect_release_version_sources read_file parse =
    traverse (collect_source read_file parse) release_version_sources
