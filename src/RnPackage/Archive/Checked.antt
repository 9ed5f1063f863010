-- ===== src/RnPackage/Archive/Checked.antt =====
-- packages/wallet-core/src/react-native-manifest.mjs: what machOIdentity has checked of an object.
use symbol_nem_wallet_core.Prelude.{
  ℕ, ◌+◌, ◌%◌, leb, true, not, ◌&&◌, ◌||◌, Option, none, some, List, [], ◌≡◌, refl, subst, arith,
  length, ltb, ◌==◌, Bool-cases, inl, inr, All, if◌then◌else◌, all, ◌*◌,
}
use symbol_nem_wallet_core.Js.Outcome.{returned-eq, returned, ◌>>=◌, bind-returned}
use symbol_nem_wallet_core.ReactNative.Identities.{Expected}
use symbol_nem_wallet_core.RnPackage.Bytes.{u32, range_end, has_text}
use symbol_nem_wallet_core.RnPackage.MachO.{
  required_symbols, present_symbols, MachIdentity, mach_o_identity, read_header, read_commands,
  with_table, check_symbols, identity_fits, platform_fits, read_symbols, no_commands, identity_of,
  Options, Commands, Symbols, SymbolTable,
}
use symbol_nem_wallet_core.RnPackage.Archive.Objects.{All-map}
use symbol_nem_wallet_core.RnPackage.Archive.Exported.{IsListed, IsEntry, read_symbols-All}
use symbol_nem_wallet_core.RnPackage.Archive.Ends.{require-returned}

some-eq : {A : Type 0} (a b : A) → some a ≡ some b → a ≡ b
some-eq a b k = ground arith

-- What machOIdentity has checked of an identity, which of the required symbols it lists, and where
-- the exported ones stand.
pub record IsIdentity (bytes : List ℕ) (options : Options) (target : Expected)
    (identity : MachIdentity) : Type 0 where
  pub fits :
      identity_fits options.require_artifact_identity target identity.artifact_identity ≡ true
  pub required : identity.required ≡ present_symbols identity.exported required_symbols
  pub entries : All (IsEntry bytes) identity.exported

check_symbols-fits :
    (bytes : List ℕ) (options : Options) (target : Expected) (count : ℕ) (commands : Commands)
    (symbols : Symbols) (identity : MachIdentity)
    → All (IsEntry bytes) symbols.exported
    → check_symbols options target count commands symbols ≡ returned (some identity)
    → IsIdentity bytes options target identity
check_symbols-fits bytes options target count commands symbols identity entries k =
    let (fits, k₁) =
      require-returned
        (identity_fits options.require_artifact_identity target symbols.artifact_identity) _
        (some identity) k in
    let (present, k₂) =
      require-returned
        (not options.require_required_symbols || all (has_text symbols.exported) required_symbols) _
        (some identity) k₁ in
    let q : identity_of target count commands symbols ≡ identity =
      some-eq _ _ (returned-eq _ _ k₂) in
    subst (IsIdentity bytes options target) q
      (record { fits = fits; required = refl; entries = entries })

with_table-fits :
    (bytes : List ℕ) (options : Options) (target : Expected) (count size : ℕ) (commands : Commands)
    (table : Option SymbolTable) (identity : MachIdentity)
    → u32 bytes 16 ≡ returned count
    → read_commands bytes count no_commands ≡ returned commands
    → commands.symbol_table ≡ table
    → with_table bytes options target count size commands table ≡ returned (some identity)
    → IsIdentity bytes options target identity
with_table-fits bytes options target count size commands none identity a b t k = cc
with_table-fits bytes options target count size commands (some table) identity a b t k =
    let (c, k₁) =
      require-returned (commands.offset == 32 + size && not (commands.section_count == 0)) _
        (some identity) k in
    let (d, k₂) = require-returned (platform_fits target commands.platform) _ (some identity) k₁ in
    let (symbols, k₃, k₄) =
      bind-returned (read_symbols bytes commands table table.symbol_count table.symbol_offset _) _
        (some identity) k₂ in
    let start : table.symbol_offset ≡ table.symbol_offset + 0 * 16 = omega arith in
    let listed =
      read_symbols-All bytes commands table table.symbol_count 0 _ symbols (omega arith) tt (
        subst
          (λ w.
            read_symbols bytes commands table table.symbol_count w
              (record { exported = []; artifact_identity = none })
            ≡ returned symbols)
          start k₃) in
    let entries =
      All-map (IsListed bytes table) (IsEntry bytes) symbols.exported
        (λ symbol l. record {
          count = count;
          counted = a;
          commands = commands;
          loaded = b;
          table = table;
          told = t;
          listed = l;
        })
        listed in
    check_symbols-fits bytes options target count commands symbols identity entries k₄

read_header-fits :
    (bytes : List ℕ) (options : Options) (target : Expected) (identity : MachIdentity)
    → read_header bytes options target ≡ returned (some identity)
    → IsIdentity bytes options target identity
unfolding read_header
read_header-fits bytes options target identity k =
    let (cpu_type, a, k₁) = bind-returned (u32 bytes 4) _ (some identity) k in
    let (cpu_subtype, b, k₂) = bind-returned (u32 bytes 8) _ (some identity) k₁ in
    let (file_type, c, k₃) = bind-returned (u32 bytes 12) _ (some identity) k₂ in
    let (d, k₄) =
      require-returned (cpu_type == 16777228 && cpu_subtype % 16777216 == 0 && file_type == 1) _
        (some identity) k₃ in
    let (count, e, k₅) = bind-returned (u32 bytes 16) _ (some identity) k₄ in
    let (size, f, k₆) = bind-returned (u32 bytes 20) _ (some identity) k₅ in
    let (g, k₇) =
      require-returned (not (count == 0) && leb (32 + size) (length bytes)) _ (some identity) k₆ in
    let (end, h, k₈) = bind-returned (range_end 32 size (length bytes)) _ (some identity) k₇ in
    let (commands, i, k₉) =
      bind-returned (read_commands bytes count no_commands) _ (some identity) k₈ in
    with_table-fits bytes options target count size commands commands.symbol_table identity e i refl
      k₉

pub mach_o_identity-fits :
    (bytes : List ℕ) (options : Options) (target : Expected) (identity : MachIdentity)
    → mach_o_identity bytes options target ≡ returned (some identity)
    → IsIdentity bytes options target identity
unfolding mach_o_identity
mach_o_identity-fits bytes options target identity k = elim (Bool-cases (ltb (length bytes) 32)) [
  | inl e ↦ cc (rw e at k)
  | inr e ↦
      let k₁ : (u32 bytes 0 >>= λ magic.
      if magic == 4277009103 then read_header bytes options target else returned none)
          ≡ returned (some identity) =
        rw e at k in
      let (magic, a, k₂) = bind-returned (u32 bytes 0) _ (some identity) k₁ in
      elim (Bool-cases (magic == 4277009103)) [
        | inl f ↦ read_header-fits bytes options target identity (rw f at k₂)
        | inr f ↦ cc (rw f at k₂)
      ]
]
