-- ===== src/Facade/Request/Payload.antt =====
-- The copy of a signing request's payload: where it stands, and that a refused request clears it.
use symbol_nem_wallet_core.Prelude.{ℕ, suc, ◌≡◌, refl, ◌∙◌, arith, true, none, ap}
use symbol_nem_wallet_core.Js.Value.{Value, bytes}
use symbol_nem_wallet_core.Js.Outcome.{Outcome, returned, thrown, ◌>>=◌}
use symbol_nem_wallet_core.Js.Storage.{Heap}
use symbol_nem_wallet_core.Facade.Access.{dto_field}
use symbol_nem_wallet_core.Facade.Bytes.{snapshot_uint8_array, output_bytes, clear_secret_bytes}
use symbol_nem_wallet_core.Facade.Bytes.Clearing.{
  clear_secret_bytes-clears, clear_secret_bytes-storage_ne, next-clear_secret_bytes,
}
use symbol_nem_wallet_core.Facade.Bytes.Copying.{
  KeepsOld, KeepsOld-refl, output_bytes-KeepsOld, output_bytes-IsCopy, next-output_bytes_thrown,
}
use symbol_nem_wallet_core.Facade.Request.{
  SigningRequest, with_approval, with_payload, copy_payload, with_target, snapshot_signing_target,
  snapshot_signing_approval, snapshot_signing_request,
}
use symbol_nem_wallet_core.Facade.Secret.Leaks.{NewIsCleared}

snapshot-eq-output : (v : Value) (h : Heap) → snapshot_uint8_array v h ≡ output_bytes v none h
unfolding snapshot_uint8_array output_bytes
snapshot-eq-output (bytes i) h = refl
snapshot-eq-output _ h = refl

-- How a payload's copy ends: it is the one new storage, or there is none.
abbrev CopyEnds : Heap → Outcome ℕ × Heap → Type 0
CopyEnds h (returned c, h') = (c ≡ h.next) × (h'.next ≡ suc c) × KeepsOld h h'
CopyEnds h (thrown e, h') = (h'.next ≡ h.next) × KeepsOld h h'

output_bytes-ends :
    (v : Value) (h : Heap) (m : Outcome ℕ)
    → (output_bytes v none h).0 ≡ m
    → CopyEnds h (m, (output_bytes v none h).1)
output_bytes-ends v h (returned c) e =
    let q = output_bytes-IsCopy v none h c e in (q.fresh, q.counted, output_bytes-KeepsOld v none h)
output_bytes-ends v h (thrown x) e =
    (next-output_bytes_thrown v none h x e, output_bytes-KeepsOld v none h)

copy_payload-ends : (m : Outcome Value) (h : Heap) → CopyEnds h (copy_payload m h)
copy_payload-ends (returned v) h =
    rw (snapshot-eq-output v h) (output_bytes-ends v h (output_bytes v none h).0 refl)
copy_payload-ends (thrown e) h = (refl, KeepsOld-refl h)

-- How the copy of a request ends: its payload is the one new storage, or what is new is cleared.
abbrev pub RequestEnds : Heap → Outcome SigningRequest × Heap → Type 0
RequestEnds h (returned r, h') = (r.payload ≡ bytes h.next) × (h'.next ≡ suc h.next) × KeepsOld h h'
RequestEnds h (thrown e, h') = NewIsCleared h h' × KeepsOld h h'

pub clear_secret_bytes-KeepsOld :
    (h h' : Heap) → KeepsOld h h' → KeepsOld h (clear_secret_bytes (bytes h.next) h')
clear_secret_bytes-KeepsOld h h' k =
    let same = next-clear_secret_bytes (bytes h.next) h' in
    record {
      grows = omega (arith, k.grows, same);
      same = λ i lt.
          clear_secret_bytes-storage_ne (bytes h.next) i h'
            (λ e. let q : h.next ≡ i = ground arith in absurd (omega (arith, q)))
          ∙ k.same i lt;
    }

with_approval-ends :
    (t : Value) (p : ℕ) (m : Outcome Value) (h h' : Heap)
    → p ≡ h.next
    → h'.next ≡ suc p
    → KeepsOld h h'
    → RequestEnds h (with_approval t p m h')
with_approval-ends t p (returned a) h h' e n k = (ap bytes e, omega arith, k)
with_approval-ends t p (thrown x) h h' e n k = rw e (
  (λ i lo hi.
      let same = next-clear_secret_bytes (bytes h.next) h' in
      let q : i ≡ h.next = omega (arith, same) in rw q (clear_secret_bytes-clears h.next h')),
  clear_secret_bytes-KeepsOld h h' k,
)

with_payload-ends :
    (t : Value) (p : Outcome ℕ) (m : Outcome Value) (h h' : Heap)
    → CopyEnds h (p, h')
    → RequestEnds h (with_payload t p m h')
with_payload-ends t (returned p) m h h' (e, n, k) = with_approval-ends t p m h h' e n k
with_payload-ends t (thrown x) m h h' (n, k) = ((λ i lo hi. absurd (omega arith)), k)

with_target-ends : (v : Value) (m : Outcome Value) (h : Heap) → RequestEnds h (with_target v m h)
with_target-ends v (returned t) h =
    let c = copy_payload (dto_field v "payload" true) h in
    with_payload-ends t c.0 (dto_field v "approval" true >>= snapshot_signing_approval) h c.1
      (copy_payload-ends (dto_field v "payload" true) h)
with_target-ends v (thrown e) h = ((λ i lo hi. absurd (omega arith)), KeepsOld-refl h)

pub snapshot_signing_request-ends :
    (v : Value) (h : Heap) → RequestEnds h (snapshot_signing_request v h)
unfolding snapshot_signing_request
snapshot_signing_request-ends v h =
    with_target-ends v (dto_field v "target" true >>= snapshot_signing_target) h
