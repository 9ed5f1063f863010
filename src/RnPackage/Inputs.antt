-- ===== src/RnPackage/Inputs.antt =====
-- packages/wallet-core/src/react-native-manifest.mjs: inspectReactNativeArtifact and
-- validateReactNativeArtifactInputs. The file system and SHA-256 are a parameter. In what is
-- returned, the fields that the target determines stand as the target.
pub mod Read
use symbol_nem_wallet_core.Prelude.{
  ℕ, String, Bool, true, false, not, ◌||◌, Option, none, some, List, [], ◌∷◌, codes, length,
  contains, ends_with, ◌==◌, ◌===◌, if◌then◌else◌,
}
use symbol_nem_wallet_core.Js.Json.{Json, string, is_plain_object, get}
use symbol_nem_wallet_core.Js.Outcome.{Outcome, returned, thrown, ◌>>=◌}
use symbol_nem_wallet_core.Operation.Spdx.{element_list, is_array}
use symbol_nem_wallet_core.ReactNative.Identities.{Expected}
use symbol_nem_wallet_core.RnPackage.{react_native_targets, find_target}
use symbol_nem_wallet_core.RnPackage.Bytes.{assembly_error, require}
use symbol_nem_wallet_core.RnPackage.Archive.{ArchiveIdentity, caught, inspect_static_archive}
use symbol_nem_wallet_core.RnPackage.Elf.{ElfIdentity, inspect_elf}

-- readFileSync, statSync(path).isFile(), and the hexadecimal SHA-256 digest of bytes
pub record Disk : Type 0 where
  pub read_file : String → Outcome (List ℕ)
  pub is_file : String → Outcome Bool
  pub sha256 : List ℕ → String

pub data BinaryIdentity : Type 0 where
  elf64 : ElfIdentity → BinaryIdentity
  static_archive : ArchiveIdentity → BinaryIdentity

pub record Artifact : Type 0 where
  pub sha256 : String
  pub size : ℕ
  pub binary : BinaryIdentity

-- The bytes of a file; every failure is one of the assembly.
unfoldable pub read_artifact : Disk → String → Outcome (List ℕ)
read_artifact disk path =
    caught
      (disk.read_file path >>= λ bytes. disk.is_file path >>= λ file. require file (returned bytes))

unfoldable pub inspect_binary : List ℕ → Expected → Outcome BinaryIdentity
inspect_binary bytes target =
    if target.platform === "android"
    then (inspect_elf bytes target >>= λ identity. returned (elf64 identity))
    else (inspect_static_archive bytes target >>= λ identity. returned (static_archive identity))

unfoldable pub inspect_file : Disk → String → Expected → Outcome Artifact
inspect_file disk path target = read_artifact disk path >>= λ bytes.
    inspect_binary bytes target >>= λ binary.
    returned (record { sha256 = disk.sha256 bytes; size = length bytes; binary = binary })

abbrev pub inspect_found : Disk → String → Option (ℕ × Expected) → Outcome Artifact
inspect_found disk path none = assembly_error
inspect_found disk path (some (index, target)) = inspect_file disk path target

abbrev pub inspect_react_native_artifact : Disk → Json → String → Outcome Artifact
inspect_react_native_artifact disk (string path) id = inspect_found disk path (find_target id)
inspect_react_native_artifact disk _ id = assembly_error

-- What is returned for an item, with the target and its place in the canonical order.
pub record Input : Type 0 where
  pub index : ℕ
  pub target_id : String
  pub target : Expected
  pub path : String
  pub inspected : Artifact
  pub toolchain_identifier : Option String
  pub evidence_path : Json

abbrev pub text_or_none : Json → Option String
text_or_none (string s) = some s
text_or_none _ = none

abbrev pub ends_in_name : String → String → Bool
ends_in_name path filename =
    ends_with (47 ∷ codes filename) (codes path) || ends_with (92 ∷ codes filename) (codes path)

unfoldable pub read_target :
    Disk → List String → Json → String → String → Option (ℕ × Expected) → Outcome Input
read_target disk seen item id path none = assembly_error
read_target disk seen item id path (some (index, target)) = require (not (contains seen id)) (
    require (ends_in_name path target.artifact_filename) (
      inspect_file disk path target >>= λ inspected. returned (record {
        index = index;
        target_id = id;
        target = target;
        path = path;
        inspected = inspected;
        toolchain_identifier = text_or_none (get item "toolchainIdentifier");
        evidence_path = get item "evidencePath";
      })))

abbrev pub read_named : Disk → List String → Json → Json → Json → Outcome Input
read_named disk seen item (string id) (string path) =
    read_target disk seen item id path (find_target id)
read_named disk seen item _ _ = assembly_error

-- The callback of the map.
unfoldable pub read_input : Disk → List String → Json → Outcome Input
read_input disk seen item =
    require (is_plain_object item)
      (read_named disk seen item (get item "targetId") (get item "path"))

unfoldable pub read_inputs : Disk → List String → List Json → Outcome (List Input)
read_inputs disk seen [] = returned []
read_inputs disk seen (item ∷ items) = read_input disk seen item >>= λ input.
    read_inputs disk (input.target_id ∷ seen) items >>= λ inputs. returned (input ∷ inputs)

-- No id is seen twice, so that there are as many ids as inputs.
unfoldable pub validate_inputs : Disk → Json → Bool → Outcome (List Input)
validate_inputs disk artifacts require_complete = require (is_array artifacts) (
    read_inputs disk [] (element_list artifacts) >>= λ inputs.
    require (not require_complete || length inputs == length react_native_targets)
      (returned inputs))
