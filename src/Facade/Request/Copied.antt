-- ===== src/Facade/Request/Copied.antt =====
-- What a copied signing request is, and what is left of one that is refused.
use symbol_nem_wallet_core.Prelude.{ℕ, String, ◌≡◌, refl, true, ◌||◌, ◌===◌, ◌⊎◌, inl, inr}
use symbol_nem_wallet_core.Js.Value.{Value, string, bytes, end, field, plain}
use symbol_nem_wallet_core.Js.Outcome.{
  Exception, Outcome, returned, thrown, ◌>>=◌, Returns, Returns-bind, Returns-returned,
}
use symbol_nem_wallet_core.Js.Storage.{Heap}
use symbol_nem_wallet_core.Facade.Access.{dto_field, dto_field_string}
use symbol_nem_wallet_core.Facade.Errors.Known.{IsCoreError}
use symbol_nem_wallet_core.Facade.Bytes.Copying.{KeepsOld}
use symbol_nem_wallet_core.Facade.Secret.Leaks.{NewIsCleared}
use symbol_nem_wallet_core.Facade.Request.{
  dto_object, require, SigningRequest, with_approval, with_payload, copy_payload, with_target,
  snapshot_signing_target, snapshot_signing_approval, snapshot_signing_request,
}
use symbol_nem_wallet_core.Facade.Request.Export.{require-true}
use symbol_nem_wallet_core.Facade.Request.Signing.{IsSigningTarget, snapshot_signing_target-Returns}
use symbol_nem_wallet_core.Facade.Request.Payload.{RequestEnds, snapshot_signing_request-ends}
use symbol_nem_wallet_core.Facade.Request.Throws.{OnlyCore, snapshot_signing_request-Throws}

pub data IsApproval : Value → Type 0 where
  approval :
      (status : String)
      → (status === "not_approved" || status === "approved") ≡ true
      → IsApproval (dto_object (field "status" (plain (string status)) end))

-- A target and an approval that are well formed, around a payload, which stands beside the copy.
pub data IsSigningRequest : SigningRequest → Type 0 where
  request :
      (t a : Value) (payload : ℕ)
      → IsSigningTarget t
      → IsApproval a
      → IsSigningRequest (record {
        snapshot = dto_object (
            field "target"
              (plain t)
              (field "payload" (plain (bytes payload)) (field "approval" (plain a) end)));
        payload = bytes payload;
      })

snapshot_signing_approval-Returns : (v : Value) → Returns IsApproval (snapshot_signing_approval v)
unfolding snapshot_signing_approval
snapshot_signing_approval-Returns v = Returns-bind (dto_field_string v "status") _ λ status _.
    Returns-bind (require (status === "not_approved" || status === "approved")) _
      λ a k. Returns-returned _ (approval status (require-true _ a k))

abbrev IfCopied : Outcome SigningRequest × Heap → Type 0
IfCopied (returned q, h) = IsSigningRequest q
IfCopied (thrown e, h) = Unit

with_approval-IfCopied :
    (t : Value) (p : ℕ) (m : Outcome Value) (h : Heap)
    → IsSigningTarget t
    → Returns IsApproval m
    → IfCopied (with_approval t p m h)
with_approval-IfCopied t p (returned a) h k r = request t a p k (r.at a refl)
with_approval-IfCopied t p (thrown e) h k r = tt

with_payload-IfCopied :
    (t : Value) (p : Outcome ℕ) (m : Outcome Value) (h : Heap)
    → IsSigningTarget t
    → Returns IsApproval m
    → IfCopied (with_payload t p m h)
with_payload-IfCopied t (returned p) m h k r = with_approval-IfCopied t p m h k r
with_payload-IfCopied t (thrown e) m h k r = tt

with_target-IfCopied :
    (v : Value) (m : Outcome Value) (h : Heap)
    → Returns IsSigningTarget m
    → IfCopied (with_target v m h)
with_target-IfCopied v (returned t) h r =
    let c = copy_payload (dto_field v "payload" true) h in
    with_payload-IfCopied t c.0 (dto_field v "approval" true >>= snapshot_signing_approval) c.1
      (r.at t refl)
      (Returns-bind (dto_field v "approval" true) _ λ w _. snapshot_signing_approval-Returns w)
with_target-IfCopied v (thrown e) h r = tt

snapshot_signing_request-IfCopied : (v : Value) (h : Heap) → IfCopied (snapshot_signing_request v h)
unfolding snapshot_signing_request
snapshot_signing_request-IfCopied v h =
    with_target-IfCopied v (dto_field v "target" true >>= snapshot_signing_target) h
      (Returns-bind (dto_field v "target" true) _ λ w _. snapshot_signing_target-Returns w)

-- A well-formed copy whose payload is the next new storage.
pub record IsRequestCopy (v : Value) (h : Heap) : Type 0 where
  pub copy : SigningRequest
  pub after : Heap
  pub copied : snapshot_signing_request v h ≡ (returned copy, after)
  pub well_formed : IsSigningRequest copy
  pub fresh : copy.payload ≡ bytes h.next
  pub kept : KeepsOld h after

-- No copy: an error of the list, no array of before changed, and every new one cleared.
pub record IsRefused (v : Value) (h : Heap) : Type 0 where
  pub error : Exception
  pub after : Heap
  pub refused : snapshot_signing_request v h ≡ (thrown error, after)
  pub known : IsCoreError error
  pub cleared : NewIsCleared h after
  pub kept : KeepsOld h after

copy_ends :
    (v : Value) (h : Heap) (m : Outcome SigningRequest) (h' : Heap)
    → snapshot_signing_request v h ≡ (m, h')
    → IfCopied (m, h')
    → RequestEnds h (m, h')
    → OnlyCore m
    → IsRequestCopy v h ⊎ IsRefused v h
copy_ends v h (returned q) h' e w (f, n, k) o =
    inl (record { copy = q; after = h'; copied = e; well_formed = w; fresh = f; kept = k })
copy_ends v h (thrown x) h' e w (c, k) o =
    inr (record { error = x; after = h'; refused = e; known = o.at x refl; cleared = c; kept = k })

pub snapshot_signing_request-cases : (v : Value) (h : Heap) → IsRequestCopy v h ⊎ IsRefused v h
snapshot_signing_request-cases v h =
    copy_ends v h (snapshot_signing_request v h).0 (snapshot_signing_request v h).1 refl
      (snapshot_signing_request-IfCopied v h) (snapshot_signing_request-ends v h)
      (record { at = (snapshot_signing_request-Throws v).at h })
