-- ===== src/Tests/Assembly.antt =====
-- Runs of packages/wallet-core/src/react-native-manifest.mjs: the assembly of a manifest.
use symbol_nem_wallet_core.Prelude.{◌≡◌, refl, ℕ, String, true, List, All, ◌===◌, if◌then◌else◌}
use symbol_nem_wallet_core.Js.Json.{
  Json, string, array, object, nil, cons, field, end, get, keys, exact_keys, text, error,
}
use symbol_nem_wallet_core.Js.Outcome.{Outcome, returned, thrown}
use symbol_nem_wallet_core.Manifest.Versions.{span_digits, is_version}
use symbol_nem_wallet_core.Operation.Spdx.{element_list}
use symbol_nem_wallet_core.ReactNative.Identities.{
  Expected, android_arm64, android_x86, ios_arm64, ios_simulator, expected_artifacts,
  manifest_artifact_identities,
}
use symbol_nem_wallet_core.Release.Sources.{skip_spaces}
use symbol_nem_wallet_core.RnPackage.{find_target}
use symbol_nem_wallet_core.RnPackage.Manifest.{
  header_differs, differs_from, check_target, check_artifact, check_artifacts,
  validate_react_native_manifest,
}
use symbol_nem_wallet_core.RnPackage.Manifest.Complete.{identities_of}
use symbol_nem_wallet_core.RnPackage.Bytes.{u8, u16, u32, u64, range_end, c_string}
use symbol_nem_wallet_core.RnPackage.MachO
use symbol_nem_wallet_core.RnPackage.MachO.{
  mach_o_identity, read_header, read_commands, read_command, read_sections,
}
use symbol_nem_wallet_core.RnPackage.Archive.{
  trim, read_member, member_step, walk, check_members, inspect_static_archive,
}
use symbol_nem_wallet_core.RnPackage.Dynamic
use symbol_nem_wallet_core.RnPackage.Dynamic.{
  elf_virtual_offset, read_entries, walk_chain, walk_buckets, embedded_identity, parse_tables,
  parse_elf_dynamic_symbols,
}
use symbol_nem_wallet_core.RnPackage.Elf.{
  read_segment, read_headers, check_parsed, check_headers, read_program, inspect_elf,
}
use symbol_nem_wallet_core.RnPackage.Inputs.{
  Disk, read_artifact, inspect_binary, inspect_file, read_target, read_input, read_inputs,
  validate_inputs,
}
use symbol_nem_wallet_core.RnPackage.Assembly.{
  Parts, checked_manifest, assemble_react_native_manifest,
}
use symbol_nem_wallet_core.RnPackage.Assembly.Backed.{
  IsBacked, assemble_react_native_manifest-IsBacked, assemble_react_native_manifest-collected,
}
use symbol_nem_wallet_core.Tests.ReactNative.{digest, manifest}
use symbol_nem_wallet_core.Tests.RnPackage.{elf_of, archive_of}

-- a file for each of the four targets
abbrev content : String → Outcome (List ℕ)
content path =
    if path === "x86/libsymbol_nem_wallet_core_rn.so"
    then returned (elf_of android_x86 62)
    else if path === "arm/libsymbol_nem_wallet_core_rn.so"
    then returned (elf_of android_arm64 183)
    else if path === "ios/libsymbol_nem_wallet_core_rn.a"
    then returned (archive_of ios_arm64 "464       ")
    else if path === "simulator/libsymbol_nem_wallet_core_rn.a"
    then returned (archive_of ios_simulator "484       ")
    else thrown (error "ENOENT")

abbrev disk : Disk
disk = record { read_file = content; is_file = λ path. returned true; sha256 = λ bytes. digest }

abbrev item : Expected → String → Json
item target path =
    object (field "targetId" (string target.target_id) (field "path" (string path) end))

-- the items are not in the canonical order
abbrev parts : Parts
parts = record {
  package_version = string "0.2.0";
  source_commit = string "0123456789abcdef0123456789abcdef01234567";
  artifacts = array (
      cons (item ios_arm64 "ios/libsymbol_nem_wallet_core_rn.a") (
        cons (item android_x86 "x86/libsymbol_nem_wallet_core_rn.so") (
          cons (item android_arm64 "arm/libsymbol_nem_wallet_core_rn.so")
            (cons (item ios_simulator "simulator/libsymbol_nem_wallet_core_rn.a") nil))));
  toolchain_identifier = string "ndk";
  require_complete = true;
}

-- the manifest in the canonical order
assembled : assemble_react_native_manifest disk parts ≡ returned manifest
unfolding assemble_react_native_manifest checked_manifest validate_inputs read_inputs read_input
    read_target inspect_file inspect_binary read_artifact inspect_elf read_program read_headers
    read_segment check_headers check_parsed parse_elf_dynamic_symbols read_entries parse_tables
    elf_virtual_offset walk_chain walk_buckets embedded_identity Dynamic.read_symbol
    Dynamic.read_symbols inspect_static_archive walk member_step read_member mach_o_identity
    read_header read_commands read_command read_sections MachO.read_symbols MachO.read_symbol
    check_members trim skip_spaces u8 u16 u32 u64 range_end c_string validate_react_native_manifest
    header_differs differs_from check_target check_artifact check_artifacts find_target is_version
    span_digits text exact_keys keys get
assembled = refl

assemble_react_native_manifest-IsBacked_example :
    All (IsBacked disk (element_list parts.artifacts)) (element_list (get manifest "artifacts"))
assemble_react_native_manifest-IsBacked_example =
    assemble_react_native_manifest-IsBacked disk parts manifest assembled

assemble_react_native_manifest-collected_example :
    manifest_artifact_identities manifest ≡ returned (identities_of expected_artifacts)
assemble_react_native_manifest-collected_example =
    assemble_react_native_manifest-collected disk parts manifest refl refl assembled
