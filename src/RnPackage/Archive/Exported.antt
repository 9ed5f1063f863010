-- ===== src/RnPackage/Archive/Exported.antt =====
-- packages/wallet-core/src/react-native-manifest.mjs: the names that machOIdentity exports are those
-- of entries of the symbol table.
use symbol_nem_wallet_core.Prelude.{
  ℕ, zero, suc, ◌+◌, ◌*◌, ◌%◌, ◌/◌, ◌≤◌, false, ◌&&◌, some, List, ◌≡◌, refl, subst, arith, ltb,
  ◌==◌, Bool-cases, inl, inr, All, and-true, same_codes,
}
use symbol_nem_wallet_core.Js.Outcome.{returned, returned-eq, ◌>>=◌, bind-returned}
use symbol_nem_wallet_core.Manifest.Versions.{is_empty}
use symbol_nem_wallet_core.RnPackage.Bytes.{u8, u32, c_string, has_text, add_text}
use symbol_nem_wallet_core.RnPackage.MachO.{
  identity_symbol, find_section, identity_in, normalized, named_symbol, is_external, is_defined,
  external_symbol, read_symbol, read_symbols, read_commands, no_commands, Commands, Symbols,
  SymbolTable, Section,
}
use symbol_nem_wallet_core.RnPackage.Bytes.{u64}

pub add_text-All :
    (P : List ℕ → Type 0) (t : List ℕ) (ts : List (List ℕ)) → P t → All P ts → All P (add_text t ts)
add_text-All P t ts p ps = elim (Bool-cases (has_text ts t)) [
  | inl e ↦ rw e ps
  | inr e ↦ rw e (p, ps)
]

-- An entry of the symbol table, external and defined, with the name of a symbol.
pub record IsNamed (bytes : List ℕ) (table : SymbolTable) (offset : ℕ) (symbol : List ℕ)
    : Type 0 where
  pub name_offset : ℕ
  pub name_at : u32 bytes offset ≡ returned name_offset
  pub kind : ℕ
  pub kind_at : u8 bytes (offset + 4) ≡ returned kind
  pub external : kind % 2 ≡ 1
  pub defined : (kind / 2 % 8 == 0) ≡ false
  pub name : List ℕ
  pub text_at :
      c_string bytes (table.string_offset + name_offset) (table.string_offset + table.string_size)
      ≡ returned name
  pub spelled : symbol ≡ normalized name

-- An entry of the symbol table, at one of its places.
pub record IsListed (bytes : List ℕ) (table : SymbolTable) (symbol : List ℕ) : Type 0 where
  pub index : ℕ
  pub below : suc index ≤ table.symbol_count
  pub named : IsNamed bytes table (table.symbol_offset + index * 16) symbol

-- An entry of the symbol table that the load commands tell.
pub record IsEntry (bytes : List ℕ) (symbol : List ℕ) : Type 0 where
  pub count : ℕ
  pub counted : u32 bytes 16 ≡ returned count
  pub commands : Commands
  pub loaded : read_commands bytes count no_commands ≡ returned commands
  pub table : SymbolTable
  pub told : commands.symbol_table ≡ some table
  pub listed : IsListed bytes table symbol

module _ (P : List ℕ → Type 0) (bytes : List ℕ) where
  named_symbol-All :
      (sections : List Section) (offset : ℕ) (name : List ℕ) (state next : Symbols)
      → P name
      → All P state.exported
      → named_symbol bytes sections offset name state ≡ returned next
      → All P next.exported
  named_symbol-All sections offset name state next p ps k =
      let all = add_text-All P name state.exported p ps in
      elim (Bool-cases (same_codes name identity_symbol)) [
        | inl e ↦
            let k₀ : (u64 bytes (offset + 8) >>= λ value.
            identity_in bytes value (find_section value sections) >>= λ identity.
            returned (record {
              exported = add_text name state.exported;
              artifact_identity = some identity;
            }))
                ≡ returned next =
              rw e at k in
            let (value, a, k₁) = bind-returned (u64 bytes (offset + 8)) _ next k₀ in
            let (identity, b, k₂) =
              bind-returned (identity_in bytes value (find_section value sections)) _ next k₁ in
            subst (λ w. All P w.exported) (returned-eq _ next k₂) all
        | inr e ↦ subst (λ w. All P w.exported) (returned-eq _ next (rw e at k)) all
      ]

  external_symbol-All :
      (commands : Commands) (table : SymbolTable) (offset name_offset : ℕ) (state next : Symbols)
      → ((name : List ℕ)
          → c_string bytes
              (table.string_offset + name_offset)
              (table.string_offset + table.string_size)
            ≡ returned name
          → P (normalized name))
      → All P state.exported
      → external_symbol bytes commands table offset name_offset state ≡ returned next
      → All P next.exported
  external_symbol-All commands table offset name_offset state next p ps k =
      let (name, a, k₁) =
        bind-returned
          (c_string bytes (table.string_offset + name_offset)
            (table.string_offset + table.string_size))
          _ next k in
      elim (Bool-cases (is_empty name)) [
        | inl e ↦ subst (λ w. All P w.exported) (returned-eq _ next (rw e at k₁)) ps
        | inr e ↦
            named_symbol-All commands.sections offset (normalized name) state next (p name a) ps
              (rw e at k₁)
      ]

read_symbol-All :
    (P : List ℕ → Type 0) (bytes : List ℕ) (commands : Commands) (table : SymbolTable) (offset : ℕ)
    (state next : Symbols)
    → ((symbol : List ℕ) → IsNamed bytes table offset symbol → P symbol)
    → All P state.exported
    → read_symbol bytes commands table offset state ≡ returned next
    → All P next.exported
unfolding read_symbol
read_symbol-All P bytes commands table offset state next p ps k =
    let (name_offset, a, k₁) = bind-returned (u32 bytes offset) _ next k in
    let (kind, b, k₂) = bind-returned (u8 bytes (offset + 4)) _ next k₁ in
    elim (Bool-cases (ltb name_offset table.string_size && is_external kind && is_defined kind)) [
      | inr e ↦ subst (λ w. All P w.exported) (returned-eq _ next (rw e at k₂)) ps
      | inl e ↦
          let (front, defined) =
            and-true (ltb name_offset table.string_size && is_external kind) (is_defined kind) e in
          let (below, external) =
            and-true (ltb name_offset table.string_size) (is_external kind) front in
          external_symbol-All P bytes commands table offset name_offset state next
            (λ name c. p (normalized name) (record {
              name_offset = name_offset;
              name_at = a;
              kind = kind;
              kind_at = b;
              external = ground arith;
              defined = ground arith;
              name = name;
              text_at = c;
              spelled = refl;
            }))
            ps (rw e at k₂)
    ]

-- The loop, from the entry with an index on.
pub read_symbols-All :
    (bytes : List ℕ) (commands : Commands) (table : SymbolTable) (left index : ℕ)
    (state last : Symbols)
    → index + left ≡ table.symbol_count
    → All (IsListed bytes table) state.exported
    → read_symbols bytes commands table left (table.symbol_offset + index * 16) state
      ≡ returned last
    → All (IsListed bytes table) last.exported
unfolding read_symbols
read_symbols-All bytes commands table zero index state last l ps k =
    subst (λ w. All (IsListed bytes table) w.exported) (returned-eq state last k) ps
read_symbols-All bytes commands table (suc left) index state last l ps k =
    let offset = table.symbol_offset + index * 16 in
    let (next, a, k₁) = bind-returned (read_symbol bytes commands table offset state) _ last k in
    let q : offset + 16 ≡ table.symbol_offset + suc index * 16 = omega arith in
    read_symbols-All bytes commands table left (suc index) next last (omega (arith, l))
      (read_symbol-All (IsListed bytes table) bytes commands table offset state next
        (λ symbol n. record { index = index; below = omega (arith, l); named = n }) ps a)
      (subst (λ w. read_symbols bytes commands table left w next ≡ returned last) q k₁)
