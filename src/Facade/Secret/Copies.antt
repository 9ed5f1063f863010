-- ===== src/Facade/Secret/Copies.antt =====
-- The loop that copies the secret fields: what it allocates and what it keeps.
use symbol_nem_wallet_core.Prelude.{
  ℕ, suc, String, ◌≤◌, ◌<◌, ◌≡◌, refl, List, [], ◌∷◌, arith, In, inl, inr, ap, ◌==◌, Bool-cases,
}
use symbol_nem_wallet_core.Js.Value.{Value, bytes}
use symbol_nem_wallet_core.Js.Outcome.{Exception, Outcome, returned, thrown}
use symbol_nem_wallet_core.Js.Storage.{Heap}
use symbol_nem_wallet_core.Facade.Bytes.{output_bytes}
use symbol_nem_wallet_core.Facade.Bytes.Copying.{
  output_bytes-IsCopy, KeepsOld, KeepsOld-refl, KeepsOld-trans, output_bytes-KeepsOld,
  next-output_bytes_thrown,
}
use symbol_nem_wallet_core.Facade.Secret.{
  SecretField, Copying, copy_values, after_copy, copy_sources,
}

after_copy-KeepsOld :
    (name : String) (m : Outcome ℕ) (rest : Heap → Copying) (h : Heap)
    → ((k : Heap) → KeepsOld k (rest k).heap)
    → KeepsOld h (after_copy name m rest h).heap
after_copy-KeepsOld name (returned c) rest h k = k h
after_copy-KeepsOld name (thrown e) rest h k = KeepsOld-refl h

pub copy_sources-KeepsOld :
    (sources : List Value) (fields : List SecretField) (h : Heap)
    → KeepsOld h (copy_sources sources fields h).heap
unfolding copy_sources
copy_sources-KeepsOld (s ∷ sources) ((name, len) ∷ fields) h =
    KeepsOld-trans (output_bytes-KeepsOld s len h) (
      after_copy-KeepsOld name (output_bytes s len h).0 (copy_sources sources fields)
        (output_bytes s len h).1 (copy_sources-KeepsOld sources fields))
copy_sources-KeepsOld [] fields h = KeepsOld-refl h
copy_sources-KeepsOld (s ∷ sources) [] h = KeepsOld-refl h

-- Every storage that is allocated between the two heaps is one of the copies.
abbrev pub Covers : Heap → Copying → Type 0
Covers h c = (i : ℕ) → h.next ≤ i → i < c.heap.next → In (bytes i) (copy_values c.copies)

after_copy-Covers :
    (name : String) (m : Outcome ℕ) (rest : Heap → Copying) (h h' : Heap)
    → ((c : ℕ) → m ≡ returned c → (c ≡ h.next) × (h'.next ≡ suc c))
    → ((e : Exception) → m ≡ thrown e → h'.next ≡ h.next)
    → Covers h' (rest h')
    → Covers h (after_copy name m rest h')
after_copy-Covers name (returned c) rest h h' r t k i lo hi =
    let (fresh, counted) = r c refl in
    elim (Bool-cases (c == i)) [
      | inl same ↦ inl (ap bytes (ground arith))
      | inr other ↦ inr (k i (ground arith) hi)
    ]
after_copy-Covers name (thrown e) rest h h' r t k i lo hi = let q = t e refl in absurd (omega arith)

pub copy_sources-Covers :
    (sources : List Value) (fields : List SecretField) (h : Heap)
    → Covers h (copy_sources sources fields h)
unfolding copy_sources
copy_sources-Covers (s ∷ sources) ((name, len) ∷ fields) h =
    after_copy-Covers name (output_bytes s len h).0 (copy_sources sources fields) h
      (output_bytes s len h).1
      (λ c e. let q = output_bytes-IsCopy s len h c e in (q.fresh, q.counted))
      (next-output_bytes_thrown s len h)
      (copy_sources-Covers sources fields (output_bytes s len h).1)
copy_sources-Covers [] fields h = λ i lo hi. absurd (omega arith)
copy_sources-Covers (s ∷ sources) [] h = λ i lo hi. absurd (omega arith)

-- Every copy is newer than the heap before the loop.
abbrev pub AreFresh : Heap → Copying → Type 0
AreFresh h c = (i : ℕ) → In (bytes i) (copy_values c.copies) → h.next ≤ i

after_copy-AreFresh :
    (name : String) (m : Outcome ℕ) (rest : Heap → Copying) (h h' : Heap)
    → ((c : ℕ) → m ≡ returned c → (c ≡ h.next) × (h'.next ≡ suc c))
    → AreFresh h' (rest h')
    → AreFresh h (after_copy name m rest h')
after_copy-AreFresh name (returned c) rest h h' r k i (inl e) =
    let (fresh, counted) = r c refl in let q : c ≡ i = ground arith in omega (arith, q, fresh)
after_copy-AreFresh name (returned c) rest h h' r k i (inr m) =
    let (fresh, counted) = r c refl in omega (arith, k i m, fresh, counted)
after_copy-AreFresh name (thrown e) rest h h' r k i m = absurd m

pub copy_sources-AreFresh :
    (sources : List Value) (fields : List SecretField) (h : Heap)
    → AreFresh h (copy_sources sources fields h)
unfolding copy_sources
copy_sources-AreFresh (s ∷ sources) ((name, len) ∷ fields) h =
    after_copy-AreFresh name (output_bytes s len h).0 (copy_sources sources fields) h
      (output_bytes s len h).1
      (λ c e. let q = output_bytes-IsCopy s len h c e in (q.fresh, q.counted))
      (copy_sources-AreFresh sources fields (output_bytes s len h).1)
copy_sources-AreFresh [] fields h = λ i m. absurd m
copy_sources-AreFresh (s ∷ sources) [] h = λ i m. absurd m
