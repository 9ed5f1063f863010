-- ===== src/Release/Versions.antt =====
-- scripts/release-identity.mjs: the five files that give the version, and releaseTagVersion.
use symbol_nem_wallet_core.Prelude.{
  ℕ, String, Bool, true, false, not, ◌||◌, Option, none, some, List, [], ◌∷◌, ◌==◌, map,
  if◌then◌else◌,
}
use Prim.Native.String
use Prim.Native.Char
use symbol_nem_wallet_core.Js.Json.{
  Json, string, is_plain_object, get, is_string, exact_keys, throw_if, error,
}
use symbol_nem_wallet_core.Js.Outcome.{Outcome, returned, thrown, ◌>>=◌}
use symbol_nem_wallet_core.Release.SemVer.{SemVer, parse_semver, is_valid_semver}

pub record Source : Type 0 where
  pub id : String
  pub relative_path : String
  pub package_name : String

abbrev pub npm_package_name : String
npm_package_name = "@nemnesia/symbol-nem-wallet-core"

-- RELEASE_VERSION_SOURCES
abbrev pub release_version_sources : List Source
release_version_sources =
    record {
      id = "core";
      relative_path = "crates/core/Cargo.toml";
      package_name = "symbol-nem-wallet-core";
    }
    ∷ record {
      id = "cAbi";
      relative_path = "crates/c-abi/Cargo.toml";
      package_name = "symbol-nem-wallet-core-native";
    }
    ∷ record {
      id = "node";
      relative_path = "crates/node/Cargo.toml";
      package_name = "symbol-nem-wallet-core-node";
    }
    ∷ record {
      id = "wasm";
      relative_path = "crates/wasm/Cargo.toml";
      package_name = "symbol-nem-wallet-core-wasm";
    }
    ∷ record {
      id = "npm";
      relative_path = "packages/wallet-core/package.json";
      package_name = npm_package_name;
    }
    ∷ []

-- the message of fail
abbrev pub gate : String → String
gate message = String.◌++◌ "Release identity gate failed: " message

abbrev pub has_prerelease_of : Option (List ℕ) → Bool
has_prerelease_of none = false
has_prerelease_of (some cs) = true

-- parseSemVer(version).prerelease !== null, of a valid version
abbrev pub has_prerelease : Option SemVer → Bool
has_prerelease none = false
has_prerelease (some v) = has_prerelease_of v.prerelease

unfoldable pub entry_differs : Source → Json → Bool
entry_differs source entry =
    not (is_plain_object entry)
    || not (is_string (get entry "relative_path") source.relative_path)
    || not (is_string (get entry "package_name") source.package_name)
    || not (is_valid_semver (get entry "version"))

-- The message has entry.relativePath, which the entries that collectReleaseVersionSources makes do
-- not have: their field is relative_path.
abbrev pub prerelease_message : String
prerelease_message = "pre-release version is not accepted for a formal release: undefined"

unfoldable pub validate_entries : Json → List Source → Outcome (Unit {0})
validate_entries version_sources [] = returned tt
validate_entries version_sources (source ∷ sources) =
    let entry = get version_sources source.id in
    throw_if (entry_differs source entry)
      (gate (String.◌++◌ "invalid SemVer in " source.relative_path))
      (throw_if (has_prerelease (parse_semver (get entry "version"))) (gate prerelease_message)
        (validate_entries version_sources sources))

unfoldable pub validate_version_sources : Json → Outcome (Unit {0})
validate_version_sources version_sources =
    throw_if (not (is_plain_object version_sources))
      (gate "release version sources are unavailable")
      (throw_if (not (exact_keys version_sources (map (λ s. s.id) release_version_sources)))
        (gate "release version sources are incomplete or unexpected")
        (validate_entries version_sources release_version_sources))

-- tag.slice(1), where the tag starts with "v"
abbrev pub after_v : String → Option String
after_v String.[] = none
after_v (String.◌∷◌ c s) = if Char.code c == b'v' then some s else none

abbrev pub formal_version : String → Option SemVer → Outcome String
formal_version version none = thrown (error (gate "tag must exactly match v<SemVer>"))
formal_version version (some parsed) =
    throw_if (has_prerelease_of parsed.prerelease)
      (gate "pre-release tags are not accepted for a formal release") (returned version)

abbrev pub tag_version : Option String → Outcome String
tag_version none = thrown (error (gate "tag must use the v<SemVer> format"))
tag_version (some version) = formal_version version (parse_semver (string version))

unfoldable pub release_tag_version : Json → Outcome String
release_tag_version (string tag) = tag_version (after_v tag)
release_tag_version _ = thrown (error (gate "tag must use the v<SemVer> format"))

unfoldable pub validate_tag : Json → Json → Outcome String
validate_tag tag version = release_tag_version tag >>= λ found.
    throw_if (not (is_string version found)) (gate "tag version does not match manifest version")
      (returned found)
