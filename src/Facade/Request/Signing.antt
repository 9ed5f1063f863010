-- ===== src/Facade/Request/Signing.antt =====
-- What a copied account context and a copied signing target can be, and that copying them again
-- changes nothing.
use symbol_nem_wallet_core.Prelude.{String, ◌≡◌, refl, true, some, ◌||◌, ◌===◌}
use symbol_nem_wallet_core.Js.Value.{Value, string, end, field, plain, is_object, property_of, find}
use symbol_nem_wallet_core.Js.Outcome.{returned, Returns, Returns-bind, Returns-returned}
use symbol_nem_wallet_core.Facade.Access.{
  required_object, required_string, own_value, dto_field, dto_field_string,
}
use symbol_nem_wallet_core.Facade.Validate.{validate_uuid_value}
use symbol_nem_wallet_core.Facade.Request.{
  dto_object, require, snapshot_account_context, snapshot_signing_target,
}
use symbol_nem_wallet_core.Facade.Request.Export.{
  IsUuidText, require-true, validate_uuid_value-IsUuidText,
}

abbrev pub IsChain : String → Type 0
IsChain chain = (chain === "nem" || chain === "symbol") ≡ true

abbrev pub IsNetwork : String → Type 0
IsNetwork network = (network === "testnet" || network === "mainnet") ≡ true

pub data IsAccountContext : Value → Type 0 where
  context :
      (chain network : String)
      → IsChain chain
      → IsNetwork network
      → IsAccountContext (
          dto_object
            (field "chain" (plain (string chain)) (field "network" (plain (string network)) end)))

pub data IsSigningTarget : Value → Type 0 where
  target :
      (profile_id key_id : String) (c : Value)
      → IsUuidText profile_id
      → IsUuidText key_id
      → IsAccountContext c
      → IsSigningTarget (
          dto_object (
            field "profile_id"
              (plain (string profile_id))
              (field "key_id" (plain (string key_id)) (field "context" (plain c) end))))

-- An account context that is copied names a chain and a network that exist.
pub snapshot_account_context-Returns :
    (v : Value) → Returns IsAccountContext (snapshot_account_context v)
unfolding snapshot_account_context
snapshot_account_context-Returns v = Returns-bind (dto_field_string v "chain") _ λ chain _.
    Returns-bind (dto_field_string v "network") _ λ network _.
      Returns-bind (require (chain === "nem" || chain === "symbol")) _ λ a k.
        Returns-bind (require (network === "testnet" || network === "mainnet")) _ λ b l.
          Returns-returned _ (context chain network (require-true _ a k) (require-true _ b l))

pub snapshot_signing_target-Returns :
    (v : Value) → Returns IsSigningTarget (snapshot_signing_target v)
unfolding snapshot_signing_target
snapshot_signing_target-Returns v = Returns-bind (dto_field_string v "profile_id") _ λ profile_id _.
    Returns-bind (dto_field_string v "key_id") _ λ key_id _.
      Returns-bind (validate_uuid_value (string profile_id)) _ λ a p.
        Returns-bind (validate_uuid_value (string key_id)) _ λ b k.
          Returns-bind (dto_field v "context" true) _ λ w _.
            Returns-bind (snapshot_account_context w) _ λ c t. Returns-returned _ (
              target profile_id key_id c (validate_uuid_value-IsUuidText profile_id a p)
                (validate_uuid_value-IsUuidText key_id b k)
                ((snapshot_account_context-Returns w).at c t))

copy_of_context : {s : Value} → IsAccountContext s → snapshot_account_context s ≡ returned s
unfolding snapshot_account_context dto_field dto_field_string required_object required_string
    is_object property_of find
copy_of_context (context chain network c n) = rw (c, n)

read_context : {s : Value} → IsAccountContext s → own_value true (some (plain s)) ≡ returned s
read_context (context chain network c n) = refl

copy_of_target : {s : Value} → IsSigningTarget s → snapshot_signing_target s ≡ returned s
unfolding snapshot_signing_target dto_field dto_field_string required_object required_string
    is_object property_of find validate_uuid_value
copy_of_target (target profile_id key_id c p k t) =
    rw (p, k, read_context t, snapshot_signing_target, copy_of_context t)

-- A signing target is copied to one whose ids are UUIDs and whose chain and network exist, and
-- copying it again gives the same target.
pub snapshot_signing_target-stable :
    (v s : Value)
    → snapshot_signing_target v ≡ returned s
    → IsSigningTarget s × (snapshot_signing_target s ≡ returned s)
snapshot_signing_target-stable v s t =
    let k = (snapshot_signing_target-Returns v).at s t in (k, copy_of_target k)
