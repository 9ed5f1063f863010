-- ===== src/Facade/Bytes.antt =====
-- facade-runtime.mjs: copies of byte arrays, and the clearing of secrets.
pub mod Clearing
pub mod Copying
use symbol_nem_wallet_core.Prelude.{
  ℕ, Bool, true, Option, none, some, List, [], ◌∷◌, ◌==◌, length, replicate, if◌then◌else◌,
}
use symbol_nem_wallet_core.Js.Value.{Value, bytes}
use symbol_nem_wallet_core.Js.Outcome.{returned, thrown}
use symbol_nem_wallet_core.Js.Storage.{Storage, detached, live, Heap, Js, write, allocate}
use symbol_nem_wallet_core.Facade.Errors.{binding_failure}

-- a copy of what a storage holds; every read of a detached one throws
abbrev pub copy_of : Storage → (List ℕ → Bool) → Js ℕ
copy_of detached fits h = (thrown binding_failure, h)
copy_of (live bs) fits h =
    if fits bs then (returned h.next, allocate bs h) else (thrown binding_failure, h)

unfoldable pub snapshot_uint8_array : Value → Js ℕ
snapshot_uint8_array (bytes i) h = copy_of (h.storage i) (λ _. true) h
snapshot_uint8_array _ h = (thrown binding_failure, h)

-- `length === undefined || value.byteLength === length`
abbrev pub has_length : Option ℕ → List ℕ → Bool
has_length none bs = true
has_length (some n) bs = length bs == n

unfoldable pub output_bytes : Value → Option ℕ → Js ℕ
output_bytes (bytes i) len h = copy_of (h.storage i) (has_length len) h
output_bytes _ len h = (thrown binding_failure, h)

-- fill(value, 0); on a detached buffer it throws and writes nothing
abbrev pub zeroed : Storage → Storage
zeroed detached = detached
zeroed (live bs) = live (replicate (length bs) 0)

unfoldable pub clear_secret_bytes : Value → Heap → Heap
clear_secret_bytes (bytes i) h = write i (zeroed (h.storage i)) h
clear_secret_bytes _ h = h

-- for (const value of values) clearSecretBytes(value)
unfoldable pub clear_all : List Value → Heap → Heap
clear_all [] h = h
clear_all (v ∷ vs) h = clear_all vs (clear_secret_bytes v h)
