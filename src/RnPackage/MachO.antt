-- ===== src/RnPackage/MachO.antt =====
-- packages/wallet-core/src/react-native-manifest.mjs: machOIdentity.
use symbol_nem_wallet_core.Prelude.{
  ℕ, zero, suc, ◌+◌, ◌-◌, ◌*◌, ◌%◌, ◌/◌, Bool, true, not, ◌&&◌, ◌||◌, Option, none, some, List, [],
  ◌∷◌, ◌++◌, codes, length, all, ltb, leb, ◌==◌, ◌===◌, if◌then◌else◌, same_codes,
}
use symbol_nem_wallet_core.Js.Outcome.{Outcome, returned, ◌>>=◌}
use symbol_nem_wallet_core.Manifest.Versions.{is_empty}
use symbol_nem_wallet_core.ReactNative.Identities.{Expected}
use symbol_nem_wallet_core.RnPackage.Bytes.{
  assembly_error, require, u8, u32, u64, in_range, c_string, has_text, add_text,
}

-- REQUIRED_RN_SYMBOLS and EMBEDDED_RN_ARTIFACT_IDENTITY_SYMBOL
abbrev pub required_symbols : List (List ℕ)
required_symbols =
    codes "snwc_rn_module_identity" ∷ codes "symbolNemWalletCoreCxxModuleProvider" ∷ []

abbrev pub identity_symbol : List ℕ
identity_symbol = codes "snwc_rn_artifact_identity_value"

pub record Section : Type 0 where
  pub address : ℕ
  pub size : ℕ
  pub file_offset : ℕ

pub record SymbolTable : Type 0 where
  pub symbol_offset : ℕ
  pub symbol_count : ℕ
  pub string_offset : ℕ
  pub string_size : ℕ

-- The variables of the loop over the load commands.
pub record Commands : Type 0 where
  pub offset : ℕ
  pub platform : Option ℕ
  pub symbol_table : Option SymbolTable
  pub sections : List Section
  pub section_count : ℕ

-- The sections of a segment, as many as are left, from an offset on.
unfoldable pub read_sections : List ℕ → ℕ → ℕ → Outcome (List Section)
read_sections bytes zero offset = returned []
read_sections bytes (suc left) offset = u64 bytes (offset + 32) >>= λ address.
    u64 bytes (offset + 40) >>= λ size. u32 bytes (offset + 48) >>= λ file_offset.
    read_sections bytes left (offset + 80) >>= λ rest.
    returned (record { address = address; size = size; file_offset = file_offset } ∷ rest)

abbrev pub segment_command : List ℕ → ℕ → Commands → Outcome Commands
segment_command bytes size state = require (leb 72 size) (
    u64 bytes (state.offset + 40) >>= λ file_offset. u64 bytes (state.offset + 48) >>= λ file_size.
    in_range file_offset file_size (length bytes) (
      u32 bytes (state.offset + 64) >>= λ count. require (leb (72 + count * 80) size) (
        read_sections bytes count (state.offset + 72) >>= λ sections. returned (record {
          offset = state.offset;
          platform = state.platform;
          symbol_table = state.symbol_table;
          sections = state.sections ++ sections;
          section_count = state.section_count + count;
        }))))

abbrev pub platform_command : List ℕ → ℕ → Commands → Outcome Commands
platform_command bytes size state = require (leb 24 size) (
    u32 bytes (state.offset + 8) >>= λ platform. u32 bytes (state.offset + 20) >>= λ tools.
    require (leb (24 + tools * 8) size) (
      returned (record {
        offset = state.offset;
        platform = some platform;
        symbol_table = state.symbol_table;
        sections = state.sections;
        section_count = state.section_count;
      })))

abbrev pub symbols_command : List ℕ → ℕ → Commands → Outcome Commands
symbols_command bytes size state = require (leb 24 size) (
    u32 bytes (state.offset + 8) >>= λ symbol_offset.
    u32 bytes (state.offset + 12) >>= λ symbol_count.
    u32 bytes (state.offset + 16) >>= λ string_offset.
    u32 bytes (state.offset + 20) >>= λ string_size.
    in_range symbol_offset (symbol_count * 16) (length bytes) (
      in_range string_offset string_size (length bytes) (
        returned (record {
          offset = state.offset;
          platform = state.platform;
          symbol_table = some (record {
            symbol_offset = symbol_offset;
            symbol_count = symbol_count;
            string_offset = string_offset;
            string_size = string_size;
          });
          sections = state.sections;
          section_count = state.section_count;
        }))))

abbrev pub command_body : List ℕ → ℕ → ℕ → Commands → Outcome Commands
command_body bytes command size state =
    if command == 25
    then segment_command bytes size state
    else if command == 50
    then platform_command bytes size state
    else if command == 2
    then symbols_command bytes size state
    else returned state

abbrev pub move_on : ℕ → Commands → Commands
move_on size state = record {
  offset = state.offset + size;
  platform = state.platform;
  symbol_table = state.symbol_table;
  sections = state.sections;
  section_count = state.section_count;
}

-- The body of the loop over the load commands.
unfoldable pub read_command : List ℕ → Commands → Outcome Commands
read_command bytes state = require (leb (state.offset + 8) (length bytes)) (
    u32 bytes state.offset >>= λ command. u32 bytes (state.offset + 4) >>= λ size.
    require (leb 8 size && leb (state.offset + size) (length bytes))
      (command_body bytes command size state >>= λ next. returned (move_on size next)))

unfoldable pub read_commands : List ℕ → ℕ → Commands → Outcome Commands
read_commands bytes zero state = returned state
read_commands bytes (suc left) state =
    read_command bytes state >>= λ next. read_commands bytes left next

-- The variables of the loop over the symbols.
pub record Symbols : Type 0 where
  pub exported : List (List ℕ)
  pub artifact_identity : Option (List ℕ)

-- sections.find
abbrev pub find_section : ℕ → List Section → Option Section
find_section value [] = none
find_section value (s ∷ ss) =
    let rest = find_section value ss in
    if leb s.address value && ltb value (s.address + s.size) then some s else rest

abbrev pub identity_in : List ℕ → ℕ → Option Section → Outcome (List ℕ)
identity_in bytes value none = assembly_error
identity_in bytes value (some s) =
    c_string bytes (s.file_offset + value - s.address) (s.file_offset + s.size)

-- name.startsWith("_") ? name.slice(1) : name
abbrev pub normalized : List ℕ → List ℕ
normalized [] = []
normalized (c ∷ cs) = if c == b'_' then cs else c ∷ cs

-- A symbol with a name.
abbrev pub named_symbol : List ℕ → List Section → ℕ → List ℕ → Symbols → Outcome Symbols
named_symbol bytes sections offset name state =
    if same_codes name identity_symbol
    then (u64 bytes (offset + 8) >>= λ value.
        identity_in bytes value (find_section value sections) >>= λ identity.
        returned
          (record { exported = add_text name state.exported; artifact_identity = some identity }))
    else returned (record {
      exported = add_text name state.exported;
      artifact_identity = state.artifact_identity;
    })

-- `type & 0x01` and `type & 0x0e`, of a byte
abbrev pub is_external : ℕ → Bool
is_external kind = kind % 2 == 1

abbrev pub is_defined : ℕ → Bool
is_defined kind = not (kind / 2 % 8 == 0)

abbrev pub external_symbol : List ℕ → Commands → SymbolTable → ℕ → ℕ → Symbols → Outcome Symbols
external_symbol bytes commands table offset name_offset state =
    c_string bytes (table.string_offset + name_offset) (table.string_offset + table.string_size)
    >>= λ name.
        if is_empty name
        then returned state
        else named_symbol bytes commands.sections offset (normalized name) state

-- The body of the loop over the symbols, at the offset of the symbol.
unfoldable pub read_symbol : List ℕ → Commands → SymbolTable → ℕ → Symbols → Outcome Symbols
read_symbol bytes commands table offset state = u32 bytes offset >>= λ name_offset.
    u8 bytes (offset + 4) >>= λ kind.
    if ltb name_offset table.string_size && is_external kind && is_defined kind
    then external_symbol bytes commands table offset name_offset state
    else returned state

unfoldable pub read_symbols : List ℕ → Commands → SymbolTable → ℕ → ℕ → Symbols → Outcome Symbols
read_symbols bytes commands table zero offset state = returned state
read_symbols bytes commands table (suc left) offset state =
    read_symbol bytes commands table offset state >>= λ next.
    read_symbols bytes commands table left (offset + 16) next

-- REQUIRED_RN_SYMBOLS.filter((symbol) => exported.has(symbol))
abbrev pub present_symbols : List (List ℕ) → List (List ℕ) → List (List ℕ)
present_symbols exported [] = []
present_symbols exported (s ∷ ss) =
    let rest = present_symbols exported ss in if has_text exported s then s ∷ rest else rest

-- The fields of the result that are not constants.
pub record MachIdentity : Type 0 where
  pub simulator : Bool
  pub load_commands : ℕ
  pub sections : ℕ
  pub exported : List (List ℕ)
  pub artifact_identity : Option (List ℕ)
  pub required : List (List ℕ)

abbrev pub is_simulator : Expected → Bool
is_simulator target = target.environment === "simulator"

abbrev pub platform_fits : Expected → Option ℕ → Bool
platform_fits target none = true
platform_fits target (some platform) = platform == (if is_simulator target then 7 else 2)

abbrev pub identity_fits : Bool → Expected → Option (List ℕ) → Bool
identity_fits require_identity target none = not require_identity
identity_fits require_identity target (some identity) =
    same_codes identity (codes target.artifact_identity)

-- The two options of the call.
pub record Options : Type 0 where
  pub require_required_symbols : Bool
  pub require_artifact_identity : Bool

abbrev pub identity_of : Expected → ℕ → Commands → Symbols → MachIdentity
identity_of target count commands symbols = record {
  simulator = is_simulator target;
  load_commands = count;
  sections = commands.section_count;
  exported = symbols.exported;
  artifact_identity = symbols.artifact_identity;
  required = present_symbols symbols.exported required_symbols;
}

abbrev pub check_symbols :
    Options → Expected → ℕ → Commands → Symbols → Outcome (Option MachIdentity)
check_symbols options target count commands symbols =
    require (identity_fits options.require_artifact_identity target symbols.artifact_identity) (
      require
        (not options.require_required_symbols || all (has_text symbols.exported) required_symbols)
        (returned (some (identity_of target count commands symbols))))

abbrev pub with_table :
    List ℕ
    → Options
    → Expected
    → ℕ
    → ℕ
    → Commands
    → Option SymbolTable
    → Outcome (Option MachIdentity)
with_table bytes options target count size commands none = assembly_error
with_table bytes options target count size commands (some table) =
    require (commands.offset == 32 + size && not (commands.section_count == 0)) (
      require (platform_fits target commands.platform) (
        read_symbols bytes commands table table.symbol_count table.symbol_offset
          (record { exported = []; artifact_identity = none })
        >>= check_symbols options target count commands))

abbrev pub no_commands : Commands
no_commands = record {
  offset = 32;
  platform = none;
  symbol_table = none;
  sections = [];
  section_count = 0;
}

-- The fields of the header, behind the magic number.
unfoldable pub read_header : List ℕ → Options → Expected → Outcome (Option MachIdentity)
read_header bytes options target = u32 bytes 4 >>= λ cpu_type. u32 bytes 8 >>= λ cpu_subtype.
    u32 bytes 12 >>= λ file_type.
    require (cpu_type == 16777228 && cpu_subtype % 16777216 == 0 && file_type == 1) (
      u32 bytes 16 >>= λ count. u32 bytes 20 >>= λ size.
      require (not (count == 0) && leb (32 + size) (length bytes)) (
        in_range 32 size (length bytes) (
          read_commands bytes count no_commands >>= λ commands.
          with_table bytes options target count size commands commands.symbol_table)))

-- machOIdentity; none stands for null.
unfoldable pub mach_o_identity : List ℕ → Options → Expected → Outcome (Option MachIdentity)
mach_o_identity bytes options target =
    if ltb (length bytes) 32
    then returned none
    else u32 bytes 0 >>= λ magic.
        if magic == 4277009103 then read_header bytes options target else returned none
