-- ===== src/Tests/RnPackage.antt =====
-- Runs of packages/wallet-core/src/react-native-manifest.mjs.
use symbol_nem_wallet_core.Prelude.{
  String, ◌+◌, ◌≡◌, refl, ℕ, zero, suc, ◌%◌, ◌/◌, false, List, [], ◌∷◌, ◌++◌, codes, replicate,
  length, some, arith,
}
use symbol_nem_wallet_core.Js.Json.{Json, string, object, field, end, get, keys, exact_keys, text}
use symbol_nem_wallet_core.Js.Outcome.{Outcome, returned}
use symbol_nem_wallet_core.Manifest.Versions.{span_digits, is_version}
use symbol_nem_wallet_core.ReactNative.Identities.{
  Expected, expected_artifacts, manifest_artifact_identities,
}
use symbol_nem_wallet_core.RnPackage.{find_target}
use symbol_nem_wallet_core.RnPackage.Manifest.{
  header_differs, differs_from, check_target, check_artifact, check_artifacts,
  validate_react_native_manifest,
}
use symbol_nem_wallet_core.RnPackage.Manifest.Complete.{
  identities_of, validate_react_native_manifest-collected,
}
use symbol_nem_wallet_core.Release.Sources.{skip_spaces}
use symbol_nem_wallet_core.ReactNative.Identities.{android_arm64, ios_arm64}
use symbol_nem_wallet_core.RnPackage.Bytes.{u8, u16, u32, u64, range_end, c_string}
use symbol_nem_wallet_core.RnPackage.MachO.{
  mach_o_identity, read_header, read_commands, read_command, read_sections, read_symbols,
  read_symbol,
}
use symbol_nem_wallet_core.RnPackage.Archive.{
  ArchiveIdentity, Members, trim, read_member, member_step, walk, check_members, no_members,
  inspect_static_archive,
}
use symbol_nem_wallet_core.RnPackage.Archive.Ends.{walk-done}
use symbol_nem_wallet_core.RnPackage.Archive.Inspected.{
  IsInspected, inspect_static_archive-IsInspected,
}
use symbol_nem_wallet_core.RnPackage.Dynamic
use symbol_nem_wallet_core.RnPackage.Dynamic.{
  elf_virtual_offset, read_entries, walk_chain, walk_buckets, embedded_identity, parse_tables,
  parse_elf_dynamic_symbols,
}
use symbol_nem_wallet_core.RnPackage.Elf.{
  ElfIdentity, read_segment, read_headers, check_parsed, check_headers, read_program, inspect_elf,
}
use symbol_nem_wallet_core.RnPackage.Elf.Inspected.{IsElf, inspect_elf-IsElf}
use symbol_nem_wallet_core.Tests.ReactNative.{manifest}

abbrev package_meta : Json
package_meta = object (
    field "name" (string "@nemnesia/symbol-nem-wallet-core") (field "version" (string "0.2.0") end))

validate_react_native_manifest-collected_example :
    manifest_artifact_identities manifest ≡ returned (identities_of expected_artifacts)
unfolding validate_react_native_manifest header_differs differs_from check_target check_artifact
    check_artifacts find_target is_version span_digits text exact_keys keys get
validate_react_native_manifest-collected_example =
    validate_react_native_manifest-collected manifest package_meta manifest refl refl

-- numbers as bytes, the lowest first
abbrev le : ℕ → ℕ → List ℕ
le zero value = []
le (suc n) value = (value % 256) ∷ le n (value / 256)

abbrev zeros : ℕ → List ℕ
zeros n = replicate n 0

abbrev symbol : ℕ → List ℕ
symbol name_offset = le 4 name_offset ++ (15 ∷ 1 ∷ zeros 10)

abbrev mach_o_header : List ℕ
mach_o_header =
    le 4 4277009103 ++ (le 4 16777228 ++ (le 4 0 ++ (le 4 1 ++ (le 4 2 ++ (le 4 176 ++ zeros 8)))))

abbrev segment : Expected → List ℕ
segment target =
    le 4 25
    ++ (le 4 152
        ++ (zeros 56
            ++ (le 4 1
                ++ (zeros 44
                    ++ (le 8 (suc (length (codes target.artifact_identity)))
                        ++ (le 4 353 ++ zeros 28))))))

abbrev symbol_table : List ℕ
symbol_table = le 4 2 ++ (le 4 24 ++ (le 4 208 ++ (le 4 3 ++ (le 4 256 ++ le 4 97))))

abbrev strings : List ℕ
strings =
    0
    ∷ (codes "_snwc_rn_module_identity"
        ++ 0
          ∷ (codes "_symbolNemWalletCoreCxxModuleProvider"
              ++ 0 ∷ (codes "_snwc_rn_artifact_identity_value" ++ 0 ∷ [])))

-- an object of 354 bytes and the identity
abbrev mach_o_object : Expected → List ℕ
mach_o_object target =
    mach_o_header
    ++ (segment target
        ++ (symbol_table
            ++ (symbol 1
                ++ (symbol 26
                    ++ (symbol 64 ++ (strings ++ (codes target.artifact_identity ++ 0 ∷ [])))))))

-- with the size of the object as a text
abbrev pub archive_of : Expected → String → List ℕ
archive_of target size =
    (codes "!<arch>" ++ 10 ∷ [])
    ++ (codes "rn.o/           "
        ++ (replicate 32 b' ' ++ (codes size ++ (96 ∷ 10 ∷ mach_o_object target))))

abbrev archive : List ℕ
archive = archive_of ios_arm64 "464       "

abbrev inspected : ArchiveIdentity
inspected = record {
  simulator = false;
  load_commands = 2;
  sections = 1;
  exported_symbols = 3;
  object_count = 1;
  artifact_identity = codes ios_arm64.artifact_identity;
}

inspect_static_archive-IsInspected_example : IsInspected archive ios_arm64 inspected
unfolding inspect_static_archive walk member_step read_member mach_o_identity read_header
    read_commands read_command read_sections read_symbols read_symbol check_members trim skip_spaces
    u8 u16 u32 u64 range_end c_string
inspect_static_archive-IsInspected_example =
    inspect_static_archive-IsInspected archive ios_arm64 inspected refl

walk-done_example :
    (outcome : Outcome Members) × (walk archive ios_arm64 (length archive) 8 no_members
      ≡ some outcome)
walk-done_example = walk-done archive ios_arm64 (omega arith)

abbrev elf_header : ℕ → List ℕ
elf_header machine =
    (127 ∷ (codes "ELF" ++ (2 ∷ 1 ∷ zeros 10)))
    ++ (le 2 3
        ++ (le 2 machine
            ++ (zeros 12
                ++ (le 8 64 ++ (zeros 12 ++ (le 2 64 ++ (le 2 56 ++ (le 2 2 ++ zeros 6))))))))

abbrev program_header : ℕ → ℕ → ℕ → List ℕ
program_header kind offset size =
    le 4 kind
    ++ (zeros 4
        ++ (le 8 offset ++ (le 8 offset ++ (zeros 8 ++ (le 8 size ++ (le 8 size ++ le 8 8))))))

abbrev entry : ℕ → ℕ → List ℕ
entry tag value = le 8 tag ++ le 8 value

abbrev entries : List ℕ
entries =
    entry 5 412
    ++ (entry 10 126
        ++ (entry 6 316 ++ (entry 11 24 ++ (entry 14 94 ++ (entry 4 288 ++ entry 0 0)))))

abbrev elf_symbol : ℕ → ℕ → ℕ → List ℕ
elf_symbol name_offset info value =
    le 4 name_offset ++ (info ∷ (0 ∷ (le 2 7 ++ (le 8 value ++ zeros 8))))

abbrev elf_strings : List ℕ
elf_strings =
    0
    ∷ (codes "snwc_rn_module_identity"
        ++ 0
          ∷ (codes "symbolNemWalletCoreCxxModuleProvider"
              ++ 0
                ∷ (codes "snwc_rn_artifact_identity_value"
                    ++ 0 ∷ (codes android_arm64.artifact_filename ++ 0 ∷ []))))

-- a file of 539 bytes and the identity
abbrev pub elf_of : Expected → ℕ → List ℕ
elf_of target machine =
    elf_header machine
    ++ (program_header 1 0 (539 + length (codes target.artifact_identity))
        ++ (program_header 2 176 112
            ++ (entries
                ++ (le 4 1
                    ++ (le 4 4
                        ++ (zeros 20
                            ++ (zeros 24
                                ++ (elf_symbol 1 18 64
                                    ++ (elf_symbol 25 18 64
                                        ++ (elf_symbol 62 17 538
                                            ++ (elf_strings
                                                ++ (codes target.artifact_identity
                                                    ++ 0 ∷ []))))))))))))

abbrev elf : List ℕ
elf = elf_of android_arm64 183

abbrev elf_result : ElfIdentity
elf_result = record {
  machine = 183;
  architecture = "arm64-v8a";
  soname = codes android_arm64.artifact_filename;
  loadable_segments = 1;
  dynamic_symbols = 3;
  artifact_identity = codes android_arm64.artifact_identity;
}

inspect_elf-IsElf_example : IsElf elf android_arm64 elf_result
unfolding inspect_elf read_program read_headers read_segment check_headers check_parsed
    parse_elf_dynamic_symbols read_entries parse_tables elf_virtual_offset walk_chain walk_buckets
    embedded_identity Dynamic.read_symbol Dynamic.read_symbols u8 u16 u32 u64 range_end c_string
inspect_elf-IsElf_example = inspect_elf-IsElf elf android_arm64 elf_result refl
