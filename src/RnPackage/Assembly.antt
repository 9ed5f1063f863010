-- ===== src/RnPackage/Assembly.antt =====
-- packages/wallet-core/src/react-native-manifest.mjs: assembleReactNativeManifest.
pub mod Backed
use symbol_nem_wallet_core.Prelude.{
  ℕ, String, Bool, false, ◌&&◌, Option, none, some, List, [], ◌∷◌, leb, if◌then◌else◌,
}
use symbol_nem_wallet_core.Js.Json.{
  Json, string, number, array, object, Items, nil, cons, end, field, text,
}
use symbol_nem_wallet_core.Js.Outcome.{Outcome, returned, thrown, ◌>>=◌}
use symbol_nem_wallet_core.Manifest.Versions.{is_digest}
use symbol_nem_wallet_core.Operation.Spdx.{is_array}
use symbol_nem_wallet_core.RnPackage.Bytes.{require}
use symbol_nem_wallet_core.RnPackage.Archive.{caught}
use symbol_nem_wallet_core.RnPackage.Manifest.{
  non_empty_string, valid_package_version, validate_react_native_manifest,
}
use symbol_nem_wallet_core.RnPackage.Inputs.{Disk, Input, validate_inputs}

-- The argument.
pub record Parts : Type 0 where
  pub package_version : Json
  pub source_commit : Json
  pub artifacts : Json
  pub toolchain_identifier : Json
  pub require_complete : Bool

-- The sort by the place in the canonical order.
abbrev pub insert_input : Input → List Input → List Input
insert_input i [] = i ∷ []
insert_input i (j ∷ js) =
    let rest = insert_input i js in if leb i.index j.index then i ∷ j ∷ js else j ∷ rest

abbrev pub in_canonical_order : List Input → List Input
in_canonical_order [] = []
in_canonical_order (i ∷ is) = insert_input i (in_canonical_order is)

abbrev pub toolchain_or : Json → Option String → Json
toolchain_or default none = default
toolchain_or default (some s) = string s

-- The callback of the map.
abbrev pub entry_of : Json → Input → Json
entry_of toolchain i = object (
    field "target_id" (string i.target_id) (
      field "platform" (string i.target.platform) (
        field "environment" (string i.target.environment) (
          field "architecture" (string i.target.architecture) (
            field "relative_path" (string i.target.relative_path) (
              field "artifact_filename" (string i.target.artifact_filename) (
                field "sha256" (string i.inspected.sha256) (
                  field "toolchain_identifier" (toolchain_or toolchain i.toolchain_identifier)
                    end))))))))

abbrev pub entries_of : Json → List Input → Items
entries_of toolchain [] = nil
entries_of toolchain (i ∷ is) = cons (entry_of toolchain i) (entries_of toolchain is)

abbrev pub manifest_of : Parts → List Input → Json
manifest_of parts inputs = object (
    field "schema_version" (number "1") (
      field "package_name" (string "@nemnesia/symbol-nem-wallet-core") (
        field "package_version" parts.package_version (
          field "source_commit" parts.source_commit (
            field "artifacts"
              (array (entries_of parts.toolchain_identifier (in_canonical_order inputs))) end)))))

abbrev pub package_meta : Parts → Json
package_meta parts = object (
    field "name" (string "@nemnesia/symbol-nem-wallet-core")
      (field "version" parts.package_version end))

-- The manifest, which is returned where its validation returns.
unfoldable pub checked_manifest : Parts → Json → Outcome Json
checked_manifest parts manifest =
    caught (validate_react_native_manifest manifest (package_meta parts) parts.require_complete)
    >>= λ _. returned manifest

abbrev pub are_parts : Parts → Bool
are_parts parts =
    valid_package_version parts.package_version
    && is_digest 40 (text parts.source_commit)
    && is_array parts.artifacts
    && non_empty_string parts.toolchain_identifier

unfoldable pub assemble_react_native_manifest : Disk → Parts → Outcome Json
assemble_react_native_manifest disk parts = require (are_parts parts) (
    validate_inputs disk parts.artifacts false >>= λ inputs.
    checked_manifest parts (manifest_of parts inputs))
