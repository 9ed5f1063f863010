-- ===== src/Js/Storage.antt =====
-- The storage behind typed arrays, and code that reads and writes it. What was written before a
-- throw stays written, so the heap comes back beside the exception too.
use symbol_nem_wallet_core.Prelude.{ℕ, ◌+◌, List, ◌==◌, if◌then◌else◌}
use symbol_nem_wallet_core.Js.Outcome.{Outcome, returned, thrown}

pub data Storage : Type 0 where
  detached : Storage
  live : List ℕ → Storage

-- `next` is the first storage that is not yet allocated.
pub record Heap : Type 0 where
  pub next : ℕ
  pub storage : ℕ → Storage

abbrev pub write : ℕ → Storage → Heap → Heap
write i s h = record h { storage = λ j. if i == j then s else h.storage j }

-- a new typed array with these bytes
abbrev pub allocate : List ℕ → Heap → Heap
allocate bs h = record { next = h.next + 1; storage = (write h.next (live bs) h).storage }

abbrev pub Js {ℓ} : Type ℓ → Type ℓ
Js A = Heap → Outcome A × Heap

abbrev pub pure {ℓ} : {A : Type ℓ} → Outcome A → Js A
pure m h = (m, h)

abbrev pub continue {ℓ κ} : {A : Type ℓ} {B : Type κ} → Outcome A → (A → Js B) → Js B
continue (returned a) f h = f a h
continue (thrown e) f h = (thrown e, h)

infixl 5 ◌>>=◌ ◌>>◌
abbrev pub ◌>>=◌ {ℓ κ} : {A : Type ℓ} {B : Type κ} → Js A → (A → Js B) → Js B
◌>>=◌ m f h = let (r, h') = m h in continue r f h'

abbrev pub ◌>>◌ {ℓ} : {B : Type ℓ} → Js (Unit {0}) → Js B → Js B
m >> k = m >>= λ _. k
