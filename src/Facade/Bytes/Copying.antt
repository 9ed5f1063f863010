-- ===== src/Facade/Bytes/Copying.antt =====
-- What a copy of bytes leaves in the heap.
use symbol_nem_wallet_core.Prelude.{
  ℕ, suc, ◌≤◌, ◌<◌, ◌≡◌, refl, Option, List, arith, Bool, true, Bool-cases, inl, inr,
}
use symbol_nem_wallet_core.Js.Value.{Value, bytes}
use symbol_nem_wallet_core.Js.Outcome.{Exception, returned, thrown}
use symbol_nem_wallet_core.Js.Storage.{Storage, detached, live, Heap}
use symbol_nem_wallet_core.Facade.Bytes.{copy_of, has_length, output_bytes}

-- `copy` is a new storage with what the source holds.
pub record IsCopy (source : Value) (len : Option ℕ) (h : Heap) (copy : ℕ) (h' : Heap) : Type 0 where
  pub id : ℕ
  pub content : List ℕ
  pub is_bytes : source ≡ bytes id
  pub held : h.storage id ≡ live content
  pub fits : has_length len content ≡ true
  pub copied : h'.storage copy ≡ live content
  pub fresh : copy ≡ h.next
  pub counted : h'.next ≡ suc copy

copy_of-IsCopy :
    (i : ℕ) (s : Storage) (len : Option ℕ) (h : Heap) (copy : ℕ)
    → h.storage i ≡ s
    → (copy_of s (has_length len) h).0 ≡ returned copy
    → IsCopy (bytes i) len h copy (copy_of s (has_length len) h).1
copy_of-IsCopy i detached len h copy e t = cc
copy_of-IsCopy i (live bs) len h copy e t = elim (Bool-cases (has_length len bs)) [
  | inl fits ↦
      let q : copy ≡ h.next = ground arith in
      record {
        id = i;
        content = bs;
        is_bytes = refl;
        held = e;
        fits = fits;
        copied = rw fits (ground arith);
        fresh = q;
        counted = rw fits (ground arith);
      }
  | inr misfit ↦ ground arith
]

pub output_bytes-IsCopy :
    (source : Value) (len : Option ℕ) (h : Heap) (copy : ℕ)
    → (output_bytes source len h).0 ≡ returned copy
    → IsCopy source len h copy (output_bytes source len h).1
unfolding output_bytes
output_bytes-IsCopy (bytes i) len h copy t = copy_of-IsCopy i (h.storage i) len h copy refl t
output_bytes-IsCopy _ len h copy t = cc

-- What was there before the copy stays as it is; a copy that throws changes nothing.
pub record KeepsOld (h h' : Heap) : Type 0 where
  pub grows : h.next ≤ h'.next
  pub same : (i : ℕ) → i < h.next → h'.storage i ≡ h.storage i

pub KeepsOld-refl : (h : Heap) → KeepsOld h h
KeepsOld-refl h = record { grows = omega arith; same = λ i k. refl }

pub KeepsOld-trans : {h h' h'' : Heap} → KeepsOld h h' → KeepsOld h' h'' → KeepsOld h h''
KeepsOld-trans {h} {h'} {h''} a b = record {
  grows = omega (arith, a.grows, b.grows);
  same = λ i k. cc (b.same i (omega (arith, a.grows)), a.same i k);
}

copy_of-KeepsOld : (s : Storage) (fits : List ℕ → Bool) (h : Heap) → KeepsOld h (copy_of s fits h).1
copy_of-KeepsOld detached fits h = KeepsOld-refl h
copy_of-KeepsOld (live bs) fits h = elim (Bool-cases (fits bs)) [
  | inl t ↦ rw t (record { grows = omega arith; same = λ i k. ground arith })
  | inr f ↦ rw f (KeepsOld-refl h)
]

pub output_bytes-KeepsOld :
    (source : Value) (len : Option ℕ) (h : Heap) → KeepsOld h (output_bytes source len h).1
unfolding output_bytes
output_bytes-KeepsOld (bytes i) len h = copy_of-KeepsOld (h.storage i) (has_length len) h
output_bytes-KeepsOld _ len h = KeepsOld-refl h

copy_of-thrown_next :
    (s : Storage) (fits : List ℕ → Bool) (h : Heap) (e : Exception)
    → (copy_of s fits h).0 ≡ thrown e
    → (copy_of s fits h).1.next ≡ h.next
copy_of-thrown_next s fits h e t = ground arith

pub next-output_bytes_thrown :
    (source : Value) (len : Option ℕ) (h : Heap) (e : Exception)
    → (output_bytes source len h).0 ≡ thrown e
    → (output_bytes source len h).1.next ≡ h.next
unfolding output_bytes
next-output_bytes_thrown (bytes i) len h e t =
    copy_of-thrown_next (h.storage i) (has_length len) h e t
next-output_bytes_thrown _ len h e t = refl
