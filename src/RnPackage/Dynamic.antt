-- ===== src/RnPackage/Dynamic.antt =====
-- packages/wallet-core/src/react-native-manifest.mjs: elfVirtualOffset and parseElfDynamicSymbols.
-- The walk of a hash chain takes as many rounds of fuel as the file has bytes: from there on it is
-- out of the file, where the source fails in the same way. Sums are exact; those of the source, of
-- doubles, may round above 2 ^ 53.
use symbol_nem_wallet_core.Prelude.{
  ℕ, zero, suc, ◌+◌, ◌-◌, ◌*◌, ◌/◌, ◌%◌, Bool, true, false, not, ◌&&◌, ◌||◌, Option, none, some,
  List, [], ◌∷◌, length, any, ltb, leb, ◌==◌, if◌then◌else◌, same_codes,
}
use symbol_nem_wallet_core.Js.Outcome.{Outcome, returned, ◌>>=◌}
use symbol_nem_wallet_core.Manifest.Versions.{is_empty}
use symbol_nem_wallet_core.RnPackage.Bytes.{
  assembly_error, require, u8, u16, u32, u64, in_range, range_end, c_string, add_text,
}
use symbol_nem_wallet_core.RnPackage.MachO.{identity_symbol}

pub record Segment : Type 0 where
  pub kind : ℕ
  pub file_offset : ℕ
  pub virtual_address : ℕ
  pub file_size : ℕ
  pub memory_size : ℕ
  pub alignment : ℕ

abbrev pub covers : Segment → ℕ → ℕ → Bool
covers segment address size =
    leb segment.virtual_address address
    && leb address (segment.virtual_address + segment.file_size)
    && leb (address + size) (segment.virtual_address + segment.file_size)

abbrev pub offset_in : Segment → ℕ → ℕ → ℕ → Outcome ℕ
offset_in segment address size limit =
    let file_offset = segment.file_offset + address - segment.virtual_address in
    in_range file_offset size limit (returned file_offset)

-- elfVirtualOffset
unfoldable pub elf_virtual_offset : List Segment → ℕ → ℕ → ℕ → Outcome ℕ
elf_virtual_offset [] address size limit = assembly_error
elf_virtual_offset (segment ∷ segments) address size limit =
    let rest = elf_virtual_offset segments address size limit in
    if covers segment address size then offset_in segment address size limit else rest

-- A tag, of which readBigInt64LE gives the same value where it is one of the tags that are looked up.
abbrev pub tag64 : List ℕ → ℕ → Outcome ℕ
tag64 bytes offset = u32 bytes offset >>= λ low.
    u32 bytes (offset + 4) >>= λ high. returned (low + 4294967296 * high)

-- The map of the dynamic entries, the last one first.
abbrev pub Entries : Type 0
Entries = List (ℕ × ℕ)

abbrev pub lookup : ℕ → Entries → Option ℕ
lookup tag [] = none
lookup tag ((key, value) ∷ entries) =
    let rest = lookup tag entries in if key == tag then some value else rest

-- The loop over the dynamic entries, which fails where no tag is zero.
unfoldable pub read_entries : List ℕ → ℕ → ℕ → Entries → Outcome Entries
read_entries bytes zero offset entries = assembly_error
read_entries bytes (suc left) offset entries = tag64 bytes offset >>= λ tag.
    u64 bytes (offset + 8) >>= λ value. elim (tag == 0) [
      | true ↦ returned entries
      | false ↦ read_entries bytes left (offset + 16) ((tag, value) ∷ entries)
    ]

-- The values that are looked up: the tables of strings and symbols, and the offset of the SONAME.
pub record Tables : Type 0 where
  pub string_address : ℕ
  pub string_size : ℕ
  pub symbol_address : ℕ
  pub soname : ℕ

abbrev pub tables_of : Option ℕ → Option ℕ → Option ℕ → Option ℕ → Option ℕ → Outcome Tables
tables_of (some string_address) (some string_size) (some symbol_address) (some entry_size)
      (some soname) =
    require (entry_size == 24) (
      returned (record {
        string_address = string_address;
        string_size = string_size;
        symbol_address = symbol_address;
        soname = soname;
      }))
tables_of _ _ _ _ _ = assembly_error

abbrev pub maximum : ℕ → ℕ → ℕ
maximum a b = if leb a b then b else a

-- The number of symbols that the older hash table tells, 0 where there is none.
abbrev pub sysv_count : List ℕ → List Segment → Option ℕ → Outcome ℕ
sysv_count bytes segments none = returned 0
sysv_count bytes segments (some address) =
    elf_virtual_offset segments address 8 (length bytes) >>= λ offset.
    u32 bytes offset >>= λ buckets. u32 bytes (offset + 4) >>= λ chains.
    require (not (buckets == 0) && not (chains == 0))
      (in_range offset (8 + buckets * 4 + chains * 4) (length bytes) (returned chains))

-- The chain of a bucket, from a symbol on, to the largest number of symbols.
unfoldable pub walk_chain : List ℕ → ℕ → ℕ → ℕ → ℕ → ℕ → Outcome ℕ
walk_chain bytes chain_offset symbol_offset zero symbol_index count = assembly_error
walk_chain bytes chain_offset symbol_offset (suc fuel) symbol_index count =
    range_end chain_offset ((symbol_index - symbol_offset + 1) * 4) (length bytes) >>= λ end.
    u32 bytes (end - 4) >>= λ chain. elim (chain % 2 == 1) [
      | true ↦ returned (maximum count (symbol_index + 1))
      | false ↦
          walk_chain bytes chain_offset symbol_offset fuel (symbol_index + 1)
            (maximum count (symbol_index + 1))
    ]

-- The loop over the buckets; the Boolean is foundBucket.
unfoldable pub walk_buckets : List ℕ → ℕ → ℕ → ℕ → ℕ → Bool × ℕ → Outcome (Bool × ℕ)
walk_buckets bytes chain_offset symbol_offset zero offset state = returned state
walk_buckets bytes chain_offset symbol_offset (suc left) offset (found, count) =
    u32 bytes offset >>= λ bucket.
    (if ltb bucket symbol_offset
      then returned (found, count)
      else walk_chain bytes chain_offset symbol_offset (length bytes) bucket count >>= λ more.
          returned (true, more))
    >>= walk_buckets bytes chain_offset symbol_offset left (offset + 4)

abbrev pub gnu_found : ℕ → Bool × ℕ → Outcome ℕ
gnu_found count (found, largest) =
    require (found && not (largest == 0)) (returned (maximum count largest))

-- The number of symbols with what the GNU hash table tells.
abbrev pub gnu_count : List ℕ → List Segment → ℕ → Option ℕ → Outcome ℕ
gnu_count bytes segments count none = returned count
gnu_count bytes segments count (some address) =
    elf_virtual_offset segments address 16 (length bytes) >>= λ offset.
    u32 bytes offset >>= λ buckets. u32 bytes (offset + 4) >>= λ symbol_offset.
    u32 bytes (offset + 8) >>= λ blooms. require (not (buckets == 0) && not (blooms == 0)) (
      range_end offset (16 + blooms * 8) (length bytes) >>= λ bucket_offset.
      range_end bucket_offset (buckets * 4) (length bytes) >>= λ chain_offset.
      walk_buckets bytes chain_offset symbol_offset buckets bucket_offset (false, symbol_offset)
      >>= gnu_found count)

-- What is known of the file in the loop over the symbols.
pub record Strings : Type 0 where
  pub segments : List Segment
  pub offset : ℕ
  pub size : ℕ

pub record Dynamic : Type 0 where
  pub exported : List (List ℕ)
  pub artifact_identity : Option (List ℕ)

abbrev pub in_memory : ℕ → Segment → Bool
in_memory value segment =
    leb segment.virtual_address value && ltb value (segment.virtual_address + segment.memory_size)

abbrev pub in_file : ℕ → Segment → Bool
in_file value segment =
    leb segment.virtual_address value && ltb value (segment.virtual_address + segment.file_size)

-- loadSegments.find
abbrev pub find_segment : ℕ → List Segment → Option Segment
find_segment value [] = none
find_segment value (s ∷ ss) =
    let rest = find_segment value ss in if in_file value s then some s else rest

abbrev pub identity_at : List ℕ → ℕ → Option Segment → Outcome (List ℕ)
identity_at bytes offset none = assembly_error
identity_at bytes offset (some s) = c_string bytes offset (s.file_offset + s.file_size)

-- The text at the identity symbol, a global object in a load segment.
unfoldable pub embedded_identity : List ℕ → List Segment → ℕ → Bool → ℕ → Outcome (List ℕ)
embedded_identity bytes segments info loaded value =
    require (info % 16 == 1 && info / 16 == 1 && loaded) (
      elf_virtual_offset segments value 1 (length bytes) >>= λ offset.
      identity_at bytes offset (find_segment value segments))

abbrev pub is_global : ℕ → Bool
is_global info = info / 16 == 1 || info / 16 == 10

abbrev pub add_exported : List ℕ → ℕ → Bool → List (List ℕ) → List (List ℕ)
add_exported name info loaded exported =
    if loaded && is_global info then add_text name exported else exported

-- A symbol with a name.
abbrev pub named_symbol : List ℕ → List Segment → ℕ → ℕ → List ℕ → Dynamic → Outcome Dynamic
named_symbol bytes segments info value name state =
    let loaded = any (in_memory value) segments in
    if same_codes name identity_symbol
    then (embedded_identity bytes segments info loaded value >>= λ identity. returned (record {
      exported = add_exported name info loaded state.exported;
      artifact_identity = some identity;
    }))
    else returned (record {
      exported = add_exported name info loaded state.exported;
      artifact_identity = state.artifact_identity;
    })

abbrev pub is_listed : Strings → ℕ → ℕ → ℕ → ℕ → Bool
is_listed strings name_offset info other section =
    ltb name_offset strings.size
    && not (info % 16 == 0)
    && not (other % 4 == 2)
    && not (section == 0)

abbrev pub listed_symbol : List ℕ → Strings → ℕ → ℕ → ℕ → Dynamic → Outcome Dynamic
listed_symbol bytes strings name_offset info value state =
    c_string bytes (strings.offset + name_offset) (strings.offset + strings.size) >>= λ name.
    if is_empty name
    then returned state
    else named_symbol bytes strings.segments info value name state

-- The body of the loop over the symbols, at the offset of the symbol.
unfoldable pub read_symbol : List ℕ → Strings → ℕ → Dynamic → Outcome Dynamic
read_symbol bytes strings offset state = u32 bytes offset >>= λ name_offset.
    u8 bytes (offset + 4) >>= λ info. u8 bytes (offset + 5) >>= λ other.
    u16 bytes (offset + 6) >>= λ section. u64 bytes (offset + 8) >>= λ value.
    if is_listed strings name_offset info other section
    then listed_symbol bytes strings name_offset info value state
    else returned state

unfoldable pub read_symbols : List ℕ → Strings → ℕ → ℕ → Dynamic → Outcome Dynamic
read_symbols bytes strings zero offset state = returned state
read_symbols bytes strings (suc left) offset state =
    read_symbol bytes strings offset state >>= read_symbols bytes strings left (offset + 24)

-- What parseElfDynamicSymbols returns.
pub record Parsed : Type 0 where
  pub soname : List ℕ
  pub exported : List (List ℕ)
  pub artifact_identity : List ℕ

abbrev pub parsed_of : List ℕ → List (List ℕ) → Option (List ℕ) → Outcome Parsed
parsed_of soname exported none = assembly_error
parsed_of soname exported (some identity) =
    returned (record { soname = soname; exported = exported; artifact_identity = identity })

-- From the tables on.
unfoldable pub parse_tables : List ℕ → List Segment → Entries → Tables → Outcome Parsed
parse_tables bytes segments entries tables =
    elf_virtual_offset segments tables.string_address tables.string_size (length bytes)
    >>= λ strings_offset. require (ltb tables.soname tables.string_size) (
        c_string bytes (strings_offset + tables.soname) (strings_offset + tables.string_size)
        >>= λ soname. sysv_count bytes segments (lookup 4 entries) >>= λ older.
            gnu_count bytes segments older (lookup 1879047925 entries) >>= λ count.
            require (not (count == 0)) (
              elf_virtual_offset segments tables.symbol_address (count * 24) (length bytes)
              >>= λ symbols_offset.
                  read_symbols bytes
                    (record {
                      segments = segments;
                      offset = strings_offset;
                      size = tables.string_size;
                    })
                    count symbols_offset (record { exported = []; artifact_identity = none })
                  >>= λ state. parsed_of soname state.exported state.artifact_identity))

-- parseElfDynamicSymbols, with the dynamic segment.
unfoldable pub parse_elf_dynamic_symbols : List ℕ → List Segment → Segment → Outcome Parsed
parse_elf_dynamic_symbols bytes segments dynamic =
    read_entries bytes (dynamic.file_size / 16) dynamic.file_offset [] >>= λ entries.
    tables_of (lookup 5 entries) (lookup 10 entries) (lookup 6 entries) (lookup 11 entries)
      (lookup 14 entries)
    >>= parse_tables bytes segments entries
