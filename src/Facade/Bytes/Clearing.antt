-- ===== src/Facade/Bytes/Clearing.antt =====
-- What clearing does to each storage.
use symbol_nem_wallet_core.Prelude.{
  ℕ, zero, suc, ◌≡◌, refl, ◌≢◌, List, [], ◌∷◌, arith, length, replicate, All, In, ◌==◌, inl, inr,
  ap, ◌∙◌, true, Bool-cases,
}
use symbol_nem_wallet_core.Js.Value.{Value, bytes}
use symbol_nem_wallet_core.Js.Storage.{Storage, detached, live, Heap, write}
use symbol_nem_wallet_core.Facade.Bytes.{zeroed, clear_secret_bytes, clear_all}

-- Nothing is left of what the storage held.
abbrev pub IsCleared : Storage → Type 0
IsCleared detached = Unit
IsCleared (live bs) = All (λ (b : ℕ). b ≡ 0) bs

replicate-zero : (n : ℕ) → All (λ (b : ℕ). b ≡ 0) (replicate n 0)
replicate-zero zero = tt
replicate-zero (suc n) = (refl, replicate-zero n)

zeroed-IsCleared : (s : Storage) → IsCleared (zeroed s)
zeroed-IsCleared detached = tt
zeroed-IsCleared (live bs) = replicate-zero (length bs)

write-zeroed-IsCleared :
    (j i : ℕ) (h : Heap)
    → IsCleared (h.storage i)
    → IsCleared ((write j (zeroed (h.storage j)) h).storage i)
write-zeroed-IsCleared j i h k = elim (Bool-cases (j == i)) [
  | inl same ↦ rw same (zeroed-IsCleared (h.storage j))
  | inr other ↦ rw other k
]

-- What is cleared stays so.
clear_secret_bytes-IsCleared :
    (v : Value) (i : ℕ) (h : Heap)
    → IsCleared (h.storage i)
    → IsCleared ((clear_secret_bytes v h).storage i)
unfolding clear_secret_bytes
clear_secret_bytes-IsCleared (bytes j) i h k = write-zeroed-IsCleared j i h k
clear_secret_bytes-IsCleared _ i h k = k

pub clear_secret_bytes-clears :
    (i : ℕ) (h : Heap) → IsCleared ((clear_secret_bytes (bytes i) h).storage i)
unfolding clear_secret_bytes
clear_secret_bytes-clears i h =
    let same : (i == i) ≡ true = ground arith in rw same (zeroed-IsCleared (h.storage i))

pub clear_secret_bytes-storage_ne :
    (v : Value) (i : ℕ) (h : Heap) → v ≢ bytes i → (clear_secret_bytes v h).storage i ≡ h.storage i
unfolding clear_secret_bytes
clear_secret_bytes-storage_ne (bytes j) i h ne = elim (Bool-cases (j == i)) [
  | inl same ↦ absurd (ne (ap bytes (ground arith)))
  | inr other ↦ rw other
]
clear_secret_bytes-storage_ne _ i h ne = refl

pub next-clear_secret_bytes : (v : Value) (h : Heap) → (clear_secret_bytes v h).next ≡ h.next
unfolding clear_secret_bytes
next-clear_secret_bytes (bytes j) h = refl
next-clear_secret_bytes _ h = refl

pub clear_all-IsCleared :
    (vs : List Value) (i : ℕ) (h : Heap)
    → IsCleared (h.storage i)
    → IsCleared ((clear_all vs h).storage i)
unfolding clear_all
clear_all-IsCleared [] i h k = k
clear_all-IsCleared (v ∷ vs) i h k =
    clear_all-IsCleared vs i (clear_secret_bytes v h) (clear_secret_bytes-IsCleared v i h k)

pub clear_all-clears :
    (vs : List Value) (i : ℕ) (h : Heap) → In (bytes i) vs → IsCleared ((clear_all vs h).storage i)
unfolding clear_all
clear_all-clears [] i h m = absurd m
clear_all-clears (v ∷ vs) i h (inl e) =
    rw e (clear_all-IsCleared vs i (clear_secret_bytes (bytes i) h) (clear_secret_bytes-clears i h))
clear_all-clears (v ∷ vs) i h (inr m) = clear_all-clears vs i (clear_secret_bytes v h) m

pub clear_all-storage_ne :
    (vs : List Value) (i : ℕ) (h : Heap)
    → ¬ In (bytes i) vs
    → (clear_all vs h).storage i ≡ h.storage i
unfolding clear_all
clear_all-storage_ne [] i h n = refl
clear_all-storage_ne (v ∷ vs) i h n =
    clear_all-storage_ne vs i (clear_secret_bytes v h) (λ m. n (inr m))
    ∙ clear_secret_bytes-storage_ne v i h (λ e. n (inl e))

pub next-clear_all : (vs : List Value) (h : Heap) → (clear_all vs h).next ≡ h.next
unfolding clear_all
next-clear_all [] h = refl
next-clear_all (v ∷ vs) h = next-clear_all vs (clear_secret_bytes v h) ∙ next-clear_secret_bytes v h
