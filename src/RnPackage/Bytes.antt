-- ===== src/RnPackage/Bytes.antt =====
-- packages/wallet-core/src/react-native-manifest.mjs: assemblyError, rangeEnd, u64 and cString, and
-- the reads of a Buffer. The reasons that follow in a message are left out, and a text in a binary is
-- the list of its bytes, which is compared with ASCII names.
use symbol_nem_wallet_core.Prelude.{
  ℕ, zero, suc, ◌+◌, ◌*◌, String, Bool, false, not, ◌&&◌, ◌||◌, Option, none, some, List, [], ◌∷◌,
  length, ltb, leb, ◌==◌, if◌then◌else◌, same_codes,
}
use symbol_nem_wallet_core.Js.Json.{throw_if, error}
use symbol_nem_wallet_core.Js.Outcome.{Outcome, returned, thrown, ◌>>=◌}

abbrev pub assembly_failed : String
assembly_failed = "React Native artifact assembly failed"

-- assemblyError()
abbrev pub assembly_error {ℓ} : {A : Type ℓ} → Outcome A
assembly_error = thrown (error assembly_failed)

-- `if (condition) assemblyError();` before the rest
abbrev pub require {ℓ} : {A : Type ℓ} → Bool → Outcome A → Outcome A
require condition rest = throw_if (not condition) assembly_failed rest

abbrev pub drop {ℓ} : {A : Type ℓ} → ℕ → List A → List A
drop zero xs = xs
drop (suc n) [] = []
drop (suc n) (x ∷ xs) = drop n xs

abbrev pub take {ℓ} : {A : Type ℓ} → ℕ → List A → List A
take zero xs = []
take (suc n) [] = []
take (suc n) (x ∷ xs) = x ∷ take n xs

-- bytes.subarray(start, start + size)
abbrev pub part : List ℕ → ℕ → ℕ → List ℕ
part bytes start size = take size (drop start bytes)

abbrev pub first_byte : List ℕ → Outcome ℕ
first_byte [] = thrown (error "The value of offset is out of range")
first_byte (b ∷ bs) = returned b

-- readUInt8, readUInt16LE and readUInt32LE
unfoldable pub u8 : List ℕ → ℕ → Outcome ℕ
u8 bytes offset = first_byte (drop offset bytes)

unfoldable pub u16 : List ℕ → ℕ → Outcome ℕ
u16 bytes offset =
    u8 bytes offset >>= λ low. u8 bytes (offset + 1) >>= λ high. returned (low + 256 * high)

unfoldable pub u32 : List ℕ → ℕ → Outcome ℕ
u32 bytes offset =
    u16 bytes offset >>= λ low. u16 bytes (offset + 2) >>= λ high. returned (low + 65536 * high)

-- Number.MAX_SAFE_INTEGER
abbrev pub max_safe : ℕ
max_safe = 9007199254740991

-- rangeEnd
unfoldable pub range_end : ℕ → ℕ → ℕ → Outcome ℕ
range_end start size limit =
    require (leb start max_safe && leb size max_safe && leb (start + size) limit)
      (returned (start + size))

-- a call of rangeEnd whose result is not used, before the rest
abbrev pub in_range {ℓ} : {A : Type ℓ} → ℕ → ℕ → ℕ → Outcome A → Outcome A
in_range start size limit rest = range_end start size limit >>= λ _. rest

unfoldable pub u64 : List ℕ → ℕ → Outcome ℕ
u64 bytes offset = in_range offset 8 (length bytes) (
    u32 bytes offset >>= λ low. u32 bytes (offset + 4) >>= λ high.
    let value = low + 4294967296 * high in require (leb value max_safe) (returned value))

abbrev pub cons_text : ℕ → Option (List ℕ) → Option (List ℕ)
cons_text b none = none
cons_text b (some cs) = some (b ∷ cs)

-- what stands in front of the first zero, none where there is no zero
abbrev pub until_zero : List ℕ → Option (List ℕ)
until_zero [] = none
until_zero (b ∷ bs) = let rest = until_zero bs in if b == 0 then some [] else cons_text b rest

abbrev pub text_below : ℕ → ℕ → Option (List ℕ) → Outcome (List ℕ)
text_below offset limit none = assembly_error
text_below offset limit (some cs) = require (ltb (offset + length cs) limit) (returned cs)

-- cString
unfoldable pub c_string : List ℕ → ℕ → ℕ → Outcome (List ℕ)
c_string bytes offset limit =
    in_range offset 1 limit (text_below offset limit (until_zero (drop offset bytes)))

-- Set.has and Set.add, of texts
abbrev pub has_text : List (List ℕ) → List ℕ → Bool
has_text [] cs = false
has_text (t ∷ ts) cs = same_codes t cs || has_text ts cs

abbrev pub add_text : List ℕ → List (List ℕ) → List (List ℕ)
add_text cs ts = if has_text ts cs then ts else cs ∷ ts
