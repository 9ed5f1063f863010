-- ===== src/RnPackage/Elf/Inspected.antt =====
-- packages/wallet-core/src/react-native-manifest.mjs: the ELF files that are accepted.
use symbol_nem_wallet_core.Prelude.{
  ℕ, zero, suc, ◌+◌, ◌≤◌, ◌*◌, ◌%◌, true, false, not, ◌&&◌, Option, none, some, List, [], ◌∷◌, ◌≡◌,
  sym, ap, ◌∙◌, subst, arith, codes, length, leb, ◌==◌, Bool-cases, inl, inr, All, and-true,
  same_codes, same_codes-eq, all, any, refl,
}
use symbol_nem_wallet_core.Js.Outcome.{returned-eq, returned, bind-returned}
use symbol_nem_wallet_core.ReactNative.Identities.{Expected}
use symbol_nem_wallet_core.RnPackage.Bytes.{part, u16, u64, range_end, max_safe, has_text}
use symbol_nem_wallet_core.RnPackage.MachO.{required_symbols}
use symbol_nem_wallet_core.RnPackage.Dynamic.{Segment, Parsed, parse_elf_dynamic_symbols}
use symbol_nem_wallet_core.RnPackage.Archive.{caught}
use symbol_nem_wallet_core.RnPackage.Archive.Ends.{require-returned, caught-returned}
use symbol_nem_wallet_core.RnPackage.Elf.Program.{IsProgram, read_headers-Reads, Reads-IsProgram}
use symbol_nem_wallet_core.RnPackage.Elf.{
  Headers, bad_alignment, read_segment, is_load, is_none, with_load, add_segment, check_segment,
  read_headers, holds, in_order, ElfIdentity, expected_machine, elf_identity, check_parsed,
  no_segments, check_dynamic, check_headers, read_program, has_magic, inspect_elf,
}

number-eq : (a b : ℕ) → (a == b) ≡ true → a ≡ b
number-eq a b k = ground arith

-- A segment whose bytes lie in the file, and which is not larger there than in memory.
pub record InFile (bytes : List ℕ) (s : Segment) : Type 0 where
  pub within : s.file_offset + s.file_size ≤ length bytes
  pub memory : s.file_size ≤ s.memory_size

-- The dynamic segment is made of whole entries.
pub record IsDynamic (bytes : List ℕ) (s : Segment) : Type 0 where
  pub in_file : InFile bytes s
  pub some_entries : (s.file_size == 0) ≡ false
  pub whole : (s.file_size % 16 == 0) ≡ true

abbrev pub IfDynamic : List ℕ → Option Segment → Type 0
IfDynamic bytes none = Unit
IfDynamic bytes (some s) = IsDynamic bytes s

pub record AreHeaders (bytes : List ℕ) (headers : Headers) : Type 0 where
  pub loads : All (InFile bytes) headers.loads
  pub dynamic : IfDynamic bytes headers.dynamic

with_load-All :
    (bytes : List ℕ) (s : Segment) (loads : List Segment)
    → InFile bytes s
    → All (InFile bytes) loads
    → All (InFile bytes) (with_load s loads)
with_load-All bytes s loads own rest = elim (Bool-cases (is_load s)) [
  | inl e ↦ rw e (own, rest)
  | inr e ↦ rw e rest
]

add_segment-AreHeaders :
    (bytes : List ℕ) (s : Segment) (headers next : Headers)
    → InFile bytes s
    → AreHeaders bytes headers
    → add_segment s headers ≡ returned next
    → AreHeaders bytes next
add_segment-AreHeaders bytes s headers next own known k = elim (Bool-cases (s.kind == 2)) [
  | inl e ↦
      let (c, k₁) =
        require-returned
          (is_none headers.dynamic && not (s.file_size == 0) && s.file_size % 16 == 0) _ next
          (rw e at k) in
      let (d, whole) = and-true _ (s.file_size % 16 == 0) c in
      let (first, full) = and-true (is_none headers.dynamic) (not (s.file_size == 0)) d in
      subst (AreHeaders bytes) (returned-eq _ next k₁) (record {
        loads = with_load-All bytes s headers.loads own known.loads;
        dynamic = record { in_file = own; some_entries = ground arith; whole = whole };
      })
  | inr e ↦ subst (AreHeaders bytes) (returned-eq _ next (rw e at k)) (record {
    loads = with_load-All bytes s headers.loads own known.loads;
    dynamic = known.dynamic;
  })
]

check_segment-AreHeaders :
    (bytes : List ℕ) (headers next : Headers) (s : Segment)
    → AreHeaders bytes headers
    → check_segment bytes headers s ≡ returned next
    → AreHeaders bytes next
unfolding range_end
check_segment-AreHeaders bytes headers next s known k =
    let (memory, k₁) = require-returned (leb s.file_size s.memory_size) _ next k in
    let (end, k₂, k₃) =
      bind-returned (range_end s.file_offset s.file_size (length bytes)) _ next k₁ in
    let (fits, k₄) =
      require-returned
        (leb s.file_offset max_safe
          && leb s.file_size max_safe
          && leb (s.file_offset + s.file_size) (length bytes))
        _ end k₂ in
    let (safe, within) = and-true _ (leb (s.file_offset + s.file_size) (length bytes)) fits in
    let (aligned, k₅) = require-returned (not (bad_alignment s.alignment)) _ next k₃ in
    let own : InFile bytes s = record { within = ground arith; memory = ground arith } in
    add_segment-AreHeaders bytes s headers next own known k₅

read_headers-AreHeaders :
    (bytes : List ℕ) (entry_size left offset : ℕ) (headers last : Headers)
    → AreHeaders bytes headers
    → read_headers bytes entry_size left offset headers ≡ returned last
    → AreHeaders bytes last
unfolding read_headers
read_headers-AreHeaders bytes entry_size zero offset headers last known k =
    subst (AreHeaders bytes) (returned-eq headers last k) known
read_headers-AreHeaders bytes entry_size (suc left) offset headers last known k =
    let (s, k₁, k₂) = bind-returned (read_segment bytes offset) _ last k in
    let (next, k₃, k₄) = bind-returned (check_segment bytes headers s) _ last k₂ in
    read_headers-AreHeaders bytes entry_size left (offset + entry_size) next last
      (check_segment-AreHeaders bytes headers next s known k₃) k₄

in_order-All :
    (bytes : List ℕ) (ss done : List Segment)
    → All (InFile bytes) ss
    → All (InFile bytes) done
    → All (InFile bytes) (in_order ss done)
in_order-All bytes [] done a b = b
in_order-All bytes (s ∷ ss) done (p, ps) b = in_order-All bytes ss (s ∷ done) ps (p, b)

-- An ELF file of the target, as the result describes it.
pub record IsElf (bytes : List ℕ) (target : Expected) (result : ElfIdentity) : Type 0 where
  pub machine : u16 bytes 18 ≡ returned (expected_machine target)
  pub loads : List Segment
  pub loads_in_file : All (InFile bytes) loads
  pub dynamic : Segment
  pub is_dynamic : IsDynamic bytes dynamic
  pub program : IsProgram bytes loads dynamic
  pub parsed : Parsed
  pub read : parse_elf_dynamic_symbols bytes loads dynamic ≡ returned parsed
  pub soname : parsed.soname ≡ codes target.artifact_filename
  pub identity : parsed.artifact_identity ≡ codes target.artifact_identity
  pub exports : All (λ s. has_text parsed.exported s ≡ true) required_symbols
  pub described : result ≡ elf_identity target loads parsed

exports-All :
    (exported ss : List (List ℕ))
    → all (has_text exported) ss ≡ true
    → All (λ s. has_text exported s ≡ true) ss
exports-All exported [] k = tt
exports-All exported (s ∷ ss) k =
    let (e, more) = and-true (has_text exported s) (all (has_text exported) ss) k in
    (e, exports-All exported ss more)

check_dynamic-IsElf :
    (bytes : List ℕ) (target : Expected) (loads : List Segment) (dynamic : Option Segment)
    (result : ElfIdentity)
    → u16 bytes 18 ≡ returned (expected_machine target)
    → All (InFile bytes) loads
    → IfDynamic bytes dynamic
    → ((d : Segment) → dynamic ≡ some d → IsProgram bytes loads d)
    → check_dynamic bytes target loads dynamic ≡ returned result
    → IsElf bytes target result
unfolding check_parsed
check_dynamic-IsElf bytes target loads none result machine own d p k = cc
check_dynamic-IsElf bytes target loads (some dynamic) result machine own d p k =
    let (held, k₁) =
      require-returned (not (no_segments loads) && any (holds dynamic) loads) _ result k in
    let (parsed, k₂, k₃) =
      bind-returned (caught (parse_elf_dynamic_symbols bytes loads dynamic)) _ result k₁ in
    let (exports, k₄) =
      require-returned (all (has_text parsed.exported) required_symbols) _ result k₃ in
    let (soname, k₅) =
      require-returned (same_codes parsed.soname (codes target.artifact_filename)) _ result k₄ in
    let (identity, k₆) =
      require-returned (same_codes parsed.artifact_identity (codes target.artifact_identity)) _
        result k₅ in
    record {
      machine = machine;
      loads = loads;
      loads_in_file = own;
      dynamic = dynamic;
      is_dynamic = d;
      program = p dynamic refl;
      parsed = parsed;
      read = caught-returned _ parsed k₂;
      soname = same_codes-eq parsed.soname _ soname;
      identity = same_codes-eq parsed.artifact_identity _ identity;
      exports = exports-All parsed.exported required_symbols exports;
      described = sym (returned-eq _ result k₆);
    }

read_program-IsElf :
    (bytes : List ℕ) (target : Expected) (result : ElfIdentity)
    → u16 bytes 18 ≡ returned (expected_machine target)
    → read_program bytes target ≡ returned result
    → IsElf bytes target result
unfolding read_program check_headers
read_program-IsElf bytes target result machine k =
    let (offset, a, k₁) = bind-returned (u64 bytes 32) _ result k in
    let (entry_size, b, k₂) = bind-returned (u16 bytes 54) _ result k₁ in
    let (count, c, k₃) = bind-returned (u16 bytes 56) _ result k₂ in
    let (d, k₄) = require-returned (not (count == 0) && leb 56 entry_size) _ result k₃ in
    let (end, e, k₅) =
      bind-returned (range_end offset (entry_size * count) (length bytes)) _ result k₄ in
    let (headers, f, k₆) =
      bind-returned
        (read_headers bytes entry_size count offset (record { loads = []; dynamic = none })) _
        result k₅ in
    let known =
      read_headers-AreHeaders bytes entry_size count offset _ headers
        (record { loads = tt; dynamic = tt }) f in
    let reads = read_headers-Reads bytes entry_size count offset _ headers f in
    check_dynamic-IsElf bytes target (in_order headers.loads []) headers.dynamic result machine
      (in_order-All bytes headers.loads [] known.loads tt) known.dynamic
      (λ s q. Reads-IsProgram bytes offset entry_size count headers s a b c reads q) k₆

-- When inspectElf accepts a file, its machine is the one of the target; the load segments and the
-- dynamic segment are those of the program headers, and lie in the file, the dynamic one made of
-- whole entries; what parseElfDynamicSymbols reads from them has the file name of the target as its
-- SONAME, the identity of the target as the embedded one, and each of the required symbols among
-- the exported ones; and the result describes just this.
pub inspect_elf-IsElf :
    (bytes : List ℕ) (target : Expected) (result : ElfIdentity)
    → inspect_elf bytes target ≡ returned result
    → IsElf bytes target result
unfolding inspect_elf
inspect_elf-IsElf bytes target result k =
    let (magic, k₁) = require-returned (has_magic bytes) _ result k in
    let (order, k₂) = require-returned (same_codes (part bytes 4 2) (2 ∷ 1 ∷ [])) _ result k₁ in
    let (kind, a, k₃) = bind-returned (u16 bytes 16) _ result k₂ in
    let (header_size, b, k₄) = bind-returned (u16 bytes 52) _ result k₃ in
    let (entry_size, c, k₅) = bind-returned (u16 bytes 54) _ result k₄ in
    let (sizes, k₆) =
      require-returned (kind == 3 && leb 64 header_size && leb 56 entry_size) _ result k₅ in
    let (machine, d, k₇) = bind-returned (u16 bytes 18) _ result k₆ in
    let (same, k₈) = require-returned (machine == expected_machine target) _ result k₇ in
    let q : machine ≡ expected_machine target = number-eq machine (expected_machine target) same in
    read_program-IsElf bytes target result (d ∙ ap returned q) k₈
