-- ===== src/RnPackage/Elf/Program.antt =====
-- packages/wallet-core/src/react-native-manifest.mjs: the segments that inspectElf reads are those of
-- the program headers.
use symbol_nem_wallet_core.Prelude.{
  ℕ, zero, suc, ◌+◌, ◌%◌, not, ◌&&◌, Option, none, some, List, [], ◌∷◌, ◌≡◌, refl, ap, ◌∙◌, subst,
  arith, length, leb, ◌==◌, Bool-cases, inl, inr, ◌⊎◌, In, if◌then◌else◌,
}
use symbol_nem_wallet_core.Js.Outcome.{returned, returned-eq, bind-returned}
use symbol_nem_wallet_core.RnPackage.Bytes.{u16, u32, u64, range_end}
use symbol_nem_wallet_core.RnPackage.Dynamic.{Segment}
use symbol_nem_wallet_core.RnPackage.Archive.Ends.{require-returned}
use symbol_nem_wallet_core.RnPackage.Elf.{
  Headers, bad_alignment, read_segment, is_load, is_none, with_load, add_segment, check_segment,
  read_headers, in_order,
}

-- The segment of the program header at an offset.
pub record IsSegmentAt (bytes : List ℕ) (offset : ℕ) (s : Segment) : Type 0 where
  pub kind : u32 bytes offset ≡ returned s.kind
  pub file_offset : u64 bytes (offset + 8) ≡ returned s.file_offset
  pub virtual_address : u64 bytes (offset + 16) ≡ returned s.virtual_address
  pub file_size : u64 bytes (offset + 32) ≡ returned s.file_size
  pub memory_size : u64 bytes (offset + 40) ≡ returned s.memory_size
  pub alignment : u64 bytes (offset + 48) ≡ returned s.alignment

-- The segments of the program headers from an offset on, which are an entry apart.
abbrev pub AreSegmentsAt : List ℕ → ℕ → ℕ → List Segment → Type 0
AreSegmentsAt bytes entry_size offset [] = Unit
AreSegmentsAt bytes entry_size offset (s ∷ ss) =
    IsSegmentAt bytes offset s × AreSegmentsAt bytes entry_size (offset + entry_size) ss

-- The segments that are loaded, of type PT_LOAD and with a size.
abbrev pub load_segments : List Segment → List Segment
load_segments [] = []
load_segments (s ∷ ss) = let rest = load_segments ss in if is_load s then s ∷ rest else rest

read_segment-IsSegmentAt :
    (bytes : List ℕ) (offset : ℕ) (s : Segment)
    → read_segment bytes offset ≡ returned s
    → IsSegmentAt bytes offset s
unfolding read_segment
read_segment-IsSegmentAt bytes offset s k =
    let (kind, a, k₁) = bind-returned (u32 bytes offset) _ s k in
    let (file_offset, b, k₂) = bind-returned (u64 bytes (offset + 8)) _ s k₁ in
    let (virtual_address, c, k₃) = bind-returned (u64 bytes (offset + 16)) _ s k₂ in
    let (file_size, d, k₄) = bind-returned (u64 bytes (offset + 32)) _ s k₃ in
    let (memory_size, e, k₅) = bind-returned (u64 bytes (offset + 40)) _ s k₄ in
    let (alignment, f, k₆) = bind-returned (u64 bytes (offset + 48)) _ s k₅ in
    subst (IsSegmentAt bytes offset) (returned-eq _ s k₆) (record {
      kind = a;
      file_offset = b;
      virtual_address = c;
      file_size = d;
      memory_size = e;
      alignment = f;
    })

-- What a segment adds to the variables of the loop.
record Adds (s : Segment) (headers next : Headers) : Type 0 where
  loads : next.loads ≡ with_load s headers.loads
  dynamic :
      (d : Segment) → next.dynamic ≡ some d → (headers.dynamic ≡ some d) ⊎ ((s ≡ d) × (s.kind ≡ 2))

add_segment-Adds :
    (s : Segment) (headers next : Headers)
    → add_segment s headers ≡ returned next
    → Adds s headers next
add_segment-Adds s headers next k = elim (Bool-cases (s.kind == 2)) [
  | inl e ↦
      let (c, k₁) =
        require-returned
          (is_none headers.dynamic && not (s.file_size == 0) && s.file_size % 16 == 0) _ next
          (rw e at k) in
      subst (Adds s headers) (returned-eq _ next k₁)
        (record { loads = refl; dynamic = λ d q. inr (ground arith, ground arith) })
  | inr e ↦
      subst (Adds s headers) (returned-eq _ next (rw e at k))
        (record { loads = refl; dynamic = λ d q. inl q })
]

check_segment-Adds :
    (bytes : List ℕ) (headers next : Headers) (s : Segment)
    → check_segment bytes headers s ≡ returned next
    → Adds s headers next
check_segment-Adds bytes headers next s k =
    let (memory, k₁) = require-returned (leb s.file_size s.memory_size) _ next k in
    let (end, k₂, k₃) =
      bind-returned (range_end s.file_offset s.file_size (length bytes)) _ next k₁ in
    let (aligned, k₄) = require-returned (not (bad_alignment s.alignment)) _ next k₃ in
    add_segment-Adds s headers next k₄

-- What the loop reads, from some variables to others.
pub record Reads (bytes : List ℕ) (entry_size offset count : ℕ) (headers last : Headers)
    : Type 0 where
  pub segments : List Segment
  pub counted : length segments ≡ count
  pub at : AreSegmentsAt bytes entry_size offset segments
  pub loads : in_order last.loads [] ≡ in_order headers.loads (load_segments segments)
  pub dynamic :
      (d : Segment)
      → last.dynamic ≡ some d
      → (headers.dynamic ≡ some d) ⊎ (In d segments × (d.kind ≡ 2))

with_load-in_order :
    (s : Segment) (loads rest : List Segment)
    → in_order (with_load s loads) rest ≡ in_order loads (if is_load s then s ∷ rest else rest)
with_load-in_order s loads rest = elim (Bool-cases (is_load s)) [
  | inl e ↦ rw e refl
  | inr e ↦ rw e refl
]

dynamic_of :
    (s d : Segment) (headers next : Headers) (segments : List Segment)
    → Adds s headers next
    → (next.dynamic ≡ some d) ⊎ (In d segments × (d.kind ≡ 2))
    → (headers.dynamic ≡ some d) ⊎ (In d (s ∷ segments) × (d.kind ≡ 2))
dynamic_of s d headers next segments adds (inr (i, k)) = inr (inr i, k)
dynamic_of s d headers next segments adds (inl q) = elim (adds.dynamic d q) [
  | inl p ↦ inl p
  | inr (e, k) ↦ inr (inl e, subst (λ (w : Segment). w.kind ≡ 2) e k)
]

pub read_headers-Reads :
    (bytes : List ℕ) (entry_size left offset : ℕ) (headers last : Headers)
    → read_headers bytes entry_size left offset headers ≡ returned last
    → Reads bytes entry_size offset left headers last
unfolding read_headers
read_headers-Reads bytes entry_size zero offset headers last k =
    subst (Reads bytes entry_size offset zero headers) (returned-eq headers last k)
      (record { segments = []; counted = refl; at = tt; loads = refl; dynamic = λ d q. inl q })
read_headers-Reads bytes entry_size (suc left) offset headers last k =
    let (s, k₁, k₂) = bind-returned (read_segment bytes offset) _ last k in
    let (next, k₃, k₄) = bind-returned (check_segment bytes headers s) _ last k₂ in
    let adds = check_segment-Adds bytes headers next s k₃ in
    let rest = read_headers-Reads bytes entry_size left (offset + entry_size) next last k₄ in
    record {
      segments = s ∷ rest.segments;
      counted = ap suc rest.counted;
      at = (read_segment-IsSegmentAt bytes offset s k₁, rest.at);
      loads =
          rest.loads
          ∙ ap (λ w. in_order w (load_segments rest.segments)) adds.loads
          ∙ with_load-in_order s headers.loads (load_segments rest.segments);
      dynamic = λ d q. dynamic_of s d headers next rest.segments adds (rest.dynamic d q);
    }

-- The load segments and the dynamic segment are those of the program headers, in their order.
pub record IsProgram (bytes : List ℕ) (loads : List Segment) (dynamic : Segment) : Type 0 where
  pub offset : ℕ
  pub entry_size : ℕ
  pub count : ℕ
  pub at_offset : u64 bytes 32 ≡ returned offset
  pub of_size : u16 bytes 54 ≡ returned entry_size
  pub counted : u16 bytes 56 ≡ returned count
  pub segments : List Segment
  pub all_read : length segments ≡ count
  pub at : AreSegmentsAt bytes entry_size offset segments
  pub loaded : loads ≡ load_segments segments
  pub listed : In dynamic segments
  pub kind : dynamic.kind ≡ 2

listed_dynamic :
    (d : Segment) (segments : List Segment)
    → (◌≡◌ {A = Option Segment} none (some d)) ⊎ (In d segments × (d.kind ≡ 2))
    → In d segments × (d.kind ≡ 2)
listed_dynamic d segments (inl q) = cc
listed_dynamic d segments (inr p) = p

pub Reads-IsProgram :
    (bytes : List ℕ) (offset entry_size count : ℕ) (headers : Headers) (d : Segment)
    → u64 bytes 32 ≡ returned offset
    → u16 bytes 54 ≡ returned entry_size
    → u16 bytes 56 ≡ returned count
    → Reads bytes entry_size offset count (record { loads = []; dynamic = none }) headers
    → headers.dynamic ≡ some d
    → IsProgram bytes (in_order headers.loads []) d
Reads-IsProgram bytes offset entry_size count headers d a b c reads q =
    let (listed, kind) = listed_dynamic d reads.segments (reads.dynamic d q) in
    record {
      offset = offset;
      entry_size = entry_size;
      count = count;
      at_offset = a;
      of_size = b;
      counted = c;
      segments = reads.segments;
      all_read = reads.counted;
      at = reads.at;
      loaded = reads.loads;
      listed = listed;
      kind = kind;
    }
