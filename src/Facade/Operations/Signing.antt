-- ===== src/Facade/Operations/Signing.antt =====
-- Signing: the copied payload is cleared on every way out, and the caller's arrays stay as they are.
use symbol_nem_wallet_core.Prelude.{
  ℕ, ◌≤◌, ◌<◌, ◌≡◌, refl, none, List, [], ◌∷◌, arith, some, String,
}
use symbol_nem_wallet_core.Js.Value.{Value, function}
use symbol_nem_wallet_core.Js.Outcome
use symbol_nem_wallet_core.Js.Outcome.{Exception, Outcome, returned, thrown}
use symbol_nem_wallet_core.Js.Storage.{Heap, Js, pure, continue, ◌>>=◌}
use symbol_nem_wallet_core.Facade.Errors.{read}
use symbol_nem_wallet_core.Facade.Access.{property}
use symbol_nem_wallet_core.Facade.Output.{output_warnings}
use symbol_nem_wallet_core.Facade.Bytes.{output_bytes}
use symbol_nem_wallet_core.Facade.Bytes.Clearing.{IsCleared, clear_secret_bytes-clears}
use symbol_nem_wallet_core.Facade.Bytes.Copying.{
  KeepsOld, KeepsOld-refl, KeepsOld-trans, output_bytes-KeepsOld,
}
use symbol_nem_wallet_core.Facade.Request.{SigningRequest, snapshot_signing_request}
use symbol_nem_wallet_core.Facade.Request.Payload.{
  RequestEnds, snapshot_signing_request-ends, clear_secret_bytes-KeepsOld,
}
use symbol_nem_wallet_core.Facade.Results.{output_signature, output_read_result}
use symbol_nem_wallet_core.Facade.Operations.{
  Backend, call_found, call, normalized, invoke, payload_after, sign_snapshot, sign,
}

-- The backend's functions leave the payload of the request that they are handed as it is.
abbrev pub LeavesPayload : Backend → Type 0
LeavesPayload b = (f : ℕ) (args : List Value) (h : Heap) → b.payload_left f args h ≡ none

payload_after-same :
    (b : Backend) (m : Outcome Value) (args : List Value) (h : Heap) (payload : Value)
    → LeavesPayload b
    → payload_after b m args h payload ≡ payload
payload_after-same b (returned (function f)) args h payload l = rw (l f args h) refl
payload_after-same b (returned v) args h payload l = refl
payload_after-same b (thrown e) args h payload l = refl

module _ (b : Backend) (store password : Value) (leaves : LeavesPayload b) where
  sign_from-clears :
      (m : Outcome SigningRequest) (h h' : Heap)
      → RequestEnds h (m, h')
      → (i : ℕ) → h.next ≤ i
      → i < h'.next
      → IsCleared ((continue m (sign_snapshot b store password) h').1.storage i)
  sign_from-clears (returned r) h h' (e, n, k) i lo hi =
      let q : i ≡ h.next = omega arith in
      let args = store ∷ r.snapshot ∷ password ∷ [] in
      let p = payload_after-same b (read b.value "sign") args h' r.payload leaves in
      rw (p, e, q) (clear_secret_bytes-clears h.next _)
  sign_from-clears (thrown x) h h' (c, k) i lo hi = c i lo hi

  -- Where the backend does not assign the payload of the request that it is handed, and whatever
  -- else it does, whether signing returns or throws, every storage that the copy of the request
  -- allocated is zeroed at the end.
  pub sign-clears :
      (request : Value) (h : Heap) (i : ℕ)
      → h.next ≤ i
      → i < (snapshot_signing_request request h).1.next
      → IsCleared ((sign b store request password h).1.storage i)
  unfolding sign
  sign-clears request h i lo hi =
      let (m, h') = snapshot_signing_request request h in
      sign_from-clears m h h' (snapshot_signing_request-ends request h) i lo hi

-- Code that leaves every array that exists already as it is.
pub record IsTidy {A : Type 0} (m : Js A) : Type 0 where
  pub at : (h : Heap) → KeepsOld h (m h).1

IsTidy-pure : {A : Type 0} (m : Outcome A) → IsTidy (pure m)
IsTidy-pure m = record { at = KeepsOld-refl }

continue-KeepsOld :
    {A B : Type 0} (m : Outcome A) (f : A → Js B) (h h' : Heap)
    → KeepsOld h h'
    → ((a : A) → IsTidy (f a))
    → KeepsOld h (continue m f h').1
continue-KeepsOld (returned a) f h h' k t = KeepsOld-trans k ((t a).at h')
continue-KeepsOld (thrown e) f h h' k t = k

IsTidy-bind :
    {A B : Type 0} (m : Js A) (f : A → Js B)
    → IsTidy m
    → ((a : A) → IsTidy (f a))
    → IsTidy (m >>= f)
IsTidy-bind m f tm tf = record { at = λ h. continue-KeepsOld (m h).0 f h (m h).1 (tm.at h) tf }

output_signature-IsTidy : (v : Value) → IsTidy (output_signature v)
unfolding output_signature
output_signature-IsTidy v =
    IsTidy-bind (pure (property v "signature")) (λ w. output_bytes w (some 64))
      (IsTidy-pure (property v "signature")) λ w. record { at = output_bytes-KeepsOld w (some 64) }

output_read_result-IsTidy : (v : Value) → IsTidy (output_read_result v output_signature)
unfolding output_read_result
output_read_result-IsTidy v =
    IsTidy-bind (pure (property v "value")) _ (IsTidy-pure (property v "value")) λ raw.
      IsTidy-bind (output_signature raw) _ (output_signature-IsTidy raw) λ s.
        IsTidy-bind (pure (Outcome.◌>>=◌ (property v "warnings") output_warnings)) _
          (IsTidy-pure (Outcome.◌>>=◌ (property v "warnings") output_warnings))
          λ ws. IsTidy-pure (returned (record { value = s; warnings = ws }))

-- The backend's functions write to no array that exists when they are called.
abbrev pub IsTidyBackend : Backend → Type 0
IsTidyBackend b = (f : ℕ) (args : List Value) → IsTidy (b.apply f args)

call_found-IsTidy :
    (b : Backend) (m : Outcome Value) (args : List Value)
    → IsTidyBackend b
    → IsTidy (call_found b m args)
call_found-IsTidy b (returned (function f)) args t = record { at = (t f args).at }
call_found-IsTidy b (returned v) args t = record { at = KeepsOld-refl }
call_found-IsTidy b (thrown e) args t = record { at = KeepsOld-refl }

normalized-KeepsOld :
    {A : Type 0} (m : Outcome A) (h h' : Heap) → KeepsOld h h' → KeepsOld h (normalized (m, h')).1
normalized-KeepsOld (returned a) h h' k = k
normalized-KeepsOld (thrown e) h h' k = k

invoke-IsTidy :
    {A : Type 0} (b : Backend) (name : String) (args : List Value) (f : Value → Js A)
    → IsTidyBackend b
    → ((v : Value) → IsTidy (f v))
    → IsTidy (invoke b name args f)
unfolding invoke call
invoke-IsTidy b name args f t tf = record {
  at = λ h.
      let m = call_found b (read b.value name) args >>= f in
      normalized-KeepsOld (m h).0 h (m h).1
        ((IsTidy-bind _ f (call_found-IsTidy b (read b.value name) args t) tf).at h);
}

sign_from-KeepsOld :
    (b : Backend) (store password : Value) (m : Outcome SigningRequest) (h h' : Heap)
    → IsTidyBackend b
    → LeavesPayload b
    → RequestEnds h (m, h')
    → KeepsOld h (continue m (sign_snapshot b store password) h').1
sign_from-KeepsOld b store password (returned r) h h' t l (e, n, k) =
    let args = store ∷ r.snapshot ∷ password ∷ [] in
    let p = payload_after-same b (read b.value "sign") args h' r.payload l in
    rw (p, e)
      (clear_secret_bytes-KeepsOld h _
        (KeepsOld-trans k ((invoke-IsTidy b "sign" args _ t output_read_result-IsTidy).at h')))
sign_from-KeepsOld b store password (thrown x) h h' t l (c, k) = k

-- Signing leaves every array of the caller as it is, the payload and the password included, where
-- the backend writes to none of them and does not assign the payload of the request that it is
-- handed.
pub sign-KeepsOld :
    (b : Backend) (store request password : Value) (h : Heap)
    → IsTidyBackend b
    → LeavesPayload b
    → KeepsOld h (sign b store request password h).1
unfolding sign
sign-KeepsOld b store request password h t l =
    let (m, h') = snapshot_signing_request request h in
    sign_from-KeepsOld b store password m h h' t l (snapshot_signing_request-ends request h)
