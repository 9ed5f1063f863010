-- ===== src/RnPackage/Elf.antt =====
-- packages/wallet-core/src/react-native-manifest.mjs: inspectElf.
pub mod Program
pub mod Inspected
use Prim.Native.Nat.{bit_and}
use symbol_nem_wallet_core.Prelude.{
  ℕ, zero, suc, ◌+◌, ◌-◌, ◌*◌, ◌%◌, String, Bool, true, false, not, ◌&&◌, ◌||◌, Option, none, some,
  List, [], ◌∷◌, ◌++◌, codes, length, all, any, ltb, leb, ◌==◌, ◌===◌, if◌then◌else◌, same_codes,
}
use symbol_nem_wallet_core.Js.Outcome.{Outcome, returned, thrown, ◌>>=◌}
use symbol_nem_wallet_core.ReactNative.Identities.{Expected}
use symbol_nem_wallet_core.RnPackage.Bytes.{
  assembly_error, require, part, u16, u32, u64, in_range, has_text,
}
use symbol_nem_wallet_core.RnPackage.MachO.{required_symbols}
use symbol_nem_wallet_core.RnPackage.Archive.{ascii, caught}
use symbol_nem_wallet_core.RnPackage.Dynamic.{Segment, Parsed, parse_elf_dynamic_symbols}

-- The variables of the loop over the program headers, the last load segment first.
pub record Headers : Type 0 where
  pub loads : List Segment
  pub dynamic : Option Segment

-- `(a & (a - 1)) !== 0`, for a from 2 on: the operator takes the lowest 32 bits of its operands.
abbrev pub shares_bits : ℕ → Bool
shares_bits a = not (bit_and (a % 4294967296) ((a - 1) % 4294967296) == 0)

abbrev pub bad_alignment : ℕ → Bool
bad_alignment a = ltb 1 a && shares_bits a

unfoldable pub read_segment : List ℕ → ℕ → Outcome Segment
read_segment bytes offset = u32 bytes offset >>= λ kind. u64 bytes (offset + 8) >>= λ file_offset.
    u64 bytes (offset + 16) >>= λ virtual_address. u64 bytes (offset + 32) >>= λ file_size.
    u64 bytes (offset + 40) >>= λ memory_size. u64 bytes (offset + 48) >>= λ alignment.
    returned (record {
      kind = kind;
      file_offset = file_offset;
      virtual_address = virtual_address;
      file_size = file_size;
      memory_size = memory_size;
      alignment = alignment;
    })

abbrev pub is_load : Segment → Bool
is_load s = s.kind == 1 && not (s.file_size == 0) && not (s.memory_size == 0)

abbrev pub is_none : Option Segment → Bool
is_none none = true
is_none (some s) = false

abbrev pub with_load : Segment → List Segment → List Segment
with_load s loads = if is_load s then s ∷ loads else loads

abbrev pub add_segment : Segment → Headers → Outcome Headers
add_segment s headers =
    if s.kind == 2
    then require (is_none headers.dynamic && not (s.file_size == 0) && s.file_size % 16 == 0)
        (returned (record { loads = with_load s headers.loads; dynamic = some s }))
    else returned (record { loads = with_load s headers.loads; dynamic = headers.dynamic })

abbrev pub check_segment : List ℕ → Headers → Segment → Outcome Headers
check_segment bytes headers s = require (leb s.file_size s.memory_size) (
    in_range s.file_offset s.file_size (length bytes)
      (require (not (bad_alignment s.alignment)) (add_segment s headers)))

-- The loop over the program headers, as many as are left.
unfoldable pub read_headers : List ℕ → ℕ → ℕ → ℕ → Headers → Outcome Headers
read_headers bytes entry_size zero offset headers = returned headers
read_headers bytes entry_size (suc left) offset headers = read_segment bytes offset >>= λ s.
    check_segment bytes headers s >>= read_headers bytes entry_size left (offset + entry_size)

abbrev pub holds : Segment → Segment → Bool
holds dynamic s =
    leb s.file_offset dynamic.file_offset
    && leb (dynamic.file_offset + dynamic.file_size) (s.file_offset + s.file_size)

-- loadSegments, from the first to the last
abbrev pub in_order : List Segment → List Segment → List Segment
in_order [] done = done
in_order (s ∷ ss) done = in_order ss (s ∷ done)

-- The fields of the result that are not constants.
pub record ElfIdentity : Type 0 where
  pub machine : ℕ
  pub architecture : String
  pub soname : List ℕ
  pub loadable_segments : ℕ
  pub dynamic_symbols : ℕ
  pub artifact_identity : List ℕ

-- 183 for AArch64, 62 for x86_64
abbrev pub expected_machine : Expected → ℕ
expected_machine target = if target.architecture === "arm64-v8a" then 183 else 62

abbrev pub elf_identity : Expected → List Segment → Parsed → ElfIdentity
elf_identity target loads parsed = record {
  machine = expected_machine target;
  architecture = target.architecture;
  soname = parsed.soname;
  loadable_segments = length loads;
  dynamic_symbols = length parsed.exported;
  artifact_identity = parsed.artifact_identity;
}

unfoldable pub check_parsed : Expected → List Segment → Parsed → Outcome ElfIdentity
check_parsed target loads parsed = require (all (has_text parsed.exported) required_symbols) (
    require (same_codes parsed.soname (codes target.artifact_filename)) (
      require (same_codes parsed.artifact_identity (codes target.artifact_identity))
        (returned (elf_identity target loads parsed))))

abbrev pub no_segments : List Segment → Bool
no_segments [] = true
no_segments (s ∷ ss) = false

-- What parseElfDynamicSymbols throws is caught and thrown as a failure of the assembly.
abbrev pub check_dynamic : List ℕ → Expected → List Segment → Option Segment → Outcome ElfIdentity
check_dynamic bytes target loads none = assembly_error
check_dynamic bytes target loads (some dynamic) =
    require (not (no_segments loads) && any (holds dynamic) loads)
      (caught (parse_elf_dynamic_symbols bytes loads dynamic) >>= check_parsed target loads)

unfoldable pub check_headers : List ℕ → Expected → Headers → Outcome ElfIdentity
check_headers bytes target headers =
    check_dynamic bytes target (in_order headers.loads []) headers.dynamic

-- The program headers, from the fields that tell where they are.
unfoldable pub read_program : List ℕ → Expected → Outcome ElfIdentity
read_program bytes target = u64 bytes 32 >>= λ offset. u16 bytes 54 >>= λ entry_size.
    u16 bytes 56 >>= λ count. require (not (count == 0) && leb 56 entry_size) (
      in_range offset (entry_size * count) (length bytes) (
        read_headers bytes entry_size count offset (record { loads = []; dynamic = none })
        >>= check_headers bytes target))

abbrev pub has_magic : List ℕ → Bool
has_magic bytes =
    leb 64 (length bytes)
    && same_codes (part bytes 0 1) (127 ∷ [])
    && same_codes (ascii (part bytes 1 3)) (codes "ELF")

-- The class, the byte order, the type and the sizes of the headers.
unfoldable pub inspect_elf : List ℕ → Expected → Outcome ElfIdentity
inspect_elf bytes target = require (has_magic bytes) (
    require (same_codes (part bytes 4 2) (2 ∷ 1 ∷ [])) (
      u16 bytes 16 >>= λ kind. u16 bytes 52 >>= λ header_size. u16 bytes 54 >>= λ entry_size.
      require (kind == 3 && leb 64 header_size && leb 56 entry_size) (
        u16 bytes 18 >>= λ machine.
        require (machine == expected_machine target) (read_program bytes target))))
