-- ===== src/Tests/Sources.antt =====
-- Runs of scripts/release-identity.mjs on the manifests of the sources.
use symbol_nem_wallet_core.Prelude.{
  String, refl, some, none, List, [], ◌∷◌, codes, map, if◌then◌else◌, ◌===◌, true,
}
use Prim.Native.String
use symbol_nem_wallet_core.Js.Json.{Json, string, object, field, end, get}
use symbol_nem_wallet_core.Js.Outcome.{Outcome, returned, traverse}
use symbol_nem_wallet_core.Release.SemVer.{cut}
use symbol_nem_wallet_core.Release.Versions.{Source, release_version_sources, npm_package_name}
use symbol_nem_wallet_core.Release.Sources.{
  skip_spaces, lines, section_of, field_of, CargoPackage, read_lines, parse_cargo_package,
  parse_npm_package, VersionSource, collect_source, collect_release_version_sources,
}
use symbol_nem_wallet_core.Release.Sources.Collected.{
  Files, AreOf, collect_release_version_sources-AreOf,
}

abbrev name_at : List Source → String → String
name_at [] path = ""
name_at (s ∷ ss) path = if s.relative_path === path then s.package_name else name_at ss path

-- every file gives its name and the version 0.2.0
abbrev cargo : String → String
cargo name =
    String.◌++◌ "[package]\r\nname = \""
      (String.◌++◌ name "\"\nversion=\"0.2.0\"  # formal\n[dependencies]\nversion = \"9.9.9\"\n")

abbrev read_file : String → Outcome Json
read_file path = returned (string (cargo (name_at release_version_sources path)))

abbrev parse : Json → Outcome Json
parse contents =
    returned
      (object (field "name" (string npm_package_name) (field "version" (string "0.2.0") end)))

abbrev collected : List VersionSource
collected =
    map
      (λ s. record {
        id = s.id;
        relative_path = s.relative_path;
        package_name = codes s.package_name;
        version = codes "0.2.0";
      })
      release_version_sources

abbrev files : Files
files = record { read_file = read_file; parse = parse }

collect_release_version_sources-AreOf_example : AreOf files release_version_sources collected
unfolding collect_release_version_sources collect_source parse_cargo_package parse_npm_package
    read_lines field_of section_of lines skip_spaces traverse cut get
collect_release_version_sources-AreOf_example =
    collect_release_version_sources-AreOf files collected refl

abbrev start : CargoPackage
start = record { in_package = true; name = some (codes "core"); version = none }
