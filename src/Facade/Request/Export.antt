-- ===== src/Facade/Request/Export.antt =====
-- What a copied export request can be, and that copying it again changes nothing.
use symbol_nem_wallet_core.Prelude.{
  String, ◌≡◌, refl, Bool, true, some, false, ◌||◌, ◌===◌, codes, arith, eq_iff, Bool-cases, inl,
  inr, if◌then◌else◌,
}
use symbol_nem_wallet_core.Js.Value.{
  Value, undefined, string, end, field, plain, is_object, property_of, find,
}
use symbol_nem_wallet_core.Js.Outcome.{
  returned, Returns, Returns-bind, Returns-returned, Returns-thrown,
}
use symbol_nem_wallet_core.Facade.Access.{
  required_object, required_string, own_value, dto_field, dto_field_string,
}
use symbol_nem_wallet_core.Facade.Validate.{uuid_pattern, validate_uuid_value}
use symbol_nem_wallet_core.Facade.Request.{
  dto_object, require, mnemonic_target, key_target, snapshot_export_target,
  snapshot_export_confirmation, snapshot_export_request,
}

abbrev pub IsUuidText : String → Type 0
IsUuidText s = uuid_pattern (codes s) ≡ true

-- A target names a profile's mnemonic, and then no key, or a key of a profile.
pub data IsExportTarget : Value → Type 0 where
  mnemonic :
      (profile_id : String)
      → IsUuidText profile_id
      → IsExportTarget (
          dto_object (
            field "kind"
              (plain (string "mnemonic"))
              (field "profile_id" (plain (string profile_id)) end)))
  software_key :
      (profile_id key_id : String)
      → IsUuidText profile_id
      → IsUuidText key_id
      → IsExportTarget (
          dto_object (
            field "kind" (plain (string "software_key")) (
              field "profile_id"
                (plain (string profile_id))
                (field "key_id" (plain (string key_id)) end))))

pub data IsConfirmation (inactive active : String) : Value → Type 0 where
  confirmation :
      (target : Value) (status : String)
      → IsExportTarget target
      → (status === inactive || status === active) ≡ true
      → IsConfirmation inactive active
          (dto_object (field "target" (plain target) (field "status" (plain (string status)) end)))

pub data IsExportRequest : Value → Type 0 where
  request :
      (target user confirmed : Value)
      → IsExportTarget target
      → IsConfirmation "not_requested" "requested" user
      → IsConfirmation "not_confirmed" "confirmed" confirmed
      → IsExportRequest (
          dto_object (
            field "target" (plain target) (
              field "user_request"
                (plain user)
                (field "application_confirmation" (plain confirmed) end))))

pub require-true : (b : Bool) (u : Unit {0}) → require b ≡ returned u → b ≡ true
require-true true u t = refl
require-true false u t = cc

pub validate_uuid_value-IsUuidText :
    (s : String) (u : Unit {0}) → validate_uuid_value (string s) ≡ returned u → IsUuidText s
unfolding validate_uuid_value
validate_uuid_value-IsUuidText s u t = ground arith

mnemonic_target-Returns :
    (kind profile_id : String) (key_id : Value)
    → kind ≡ "mnemonic"
    → IsUuidText profile_id
    → Returns IsExportTarget (mnemonic_target kind profile_id key_id)
mnemonic_target-Returns kind profile_id undefined e u =
    Returns-returned _ (rw e (mnemonic profile_id u))
mnemonic_target-Returns kind profile_id (string k) e u = Returns-thrown _
mnemonic_target-Returns kind profile_id _ e u = Returns-thrown _

key_target-Returns :
    (kind profile_id : String) (key_id : Value)
    → kind ≡ "software_key"
    → IsUuidText profile_id
    → Returns IsExportTarget (key_target kind profile_id key_id)
unfolding validate_uuid_value
key_target-Returns kind profile_id undefined e u = Returns-thrown _
key_target-Returns kind profile_id (string k) e u =
    Returns-bind (validate_uuid_value (string k)) _ λ d t.
      Returns-returned _ (rw e (software_key profile_id k u (validate_uuid_value-IsUuidText k d t)))
key_target-Returns kind profile_id _ e u = Returns-thrown _

target_of-Returns :
    (kind profile_id : String) (key_id : Value)
    → (kind === "mnemonic" || kind === "software_key") ≡ true
    → IsUuidText profile_id
    → Returns IsExportTarget (
        if kind === "mnemonic"
        then mnemonic_target kind profile_id key_id
        else key_target kind profile_id key_id)
target_of-Returns kind profile_id key_id k u = elim (Bool-cases (kind === "mnemonic")) [
  | inl same ↦
      rw same (mnemonic_target-Returns kind profile_id key_id ((eq_iff kind "mnemonic").0 same) u)
  | inr other ↦
      rw other (
        key_target-Returns kind profile_id key_id ((eq_iff kind "software_key").0 (ground arith)) u)
]

-- A target that is copied is well formed.
pub snapshot_export_target-Returns : (v : Value) → Returns IsExportTarget (snapshot_export_target v)
unfolding snapshot_export_target
snapshot_export_target-Returns v = Returns-bind (dto_field_string v "kind") _ λ kind _.
    Returns-bind (require (kind === "mnemonic" || kind === "software_key")) _ λ a k.
      Returns-bind (dto_field_string v "profile_id") _ λ profile_id _.
        Returns-bind (validate_uuid_value (string profile_id)) _ λ b u.
          Returns-bind (dto_field v "key_id" false) _ λ key_id _.
            target_of-Returns kind profile_id key_id (require-true _ a k)
              (validate_uuid_value-IsUuidText profile_id b u)

pub snapshot_export_confirmation-Returns :
    (v : Value) (inactive active : String)
    → Returns (IsConfirmation inactive active) (snapshot_export_confirmation v inactive active)
unfolding snapshot_export_confirmation
snapshot_export_confirmation-Returns v inactive active =
    Returns-bind (dto_field v "target" true) _ λ w _.
      Returns-bind (snapshot_export_target w) _ λ target t.
        Returns-bind (dto_field_string v "status") _ λ status _.
          Returns-bind (require (status === inactive || status === active)) _ λ a k.
            Returns-returned _ (
              confirmation target status ((snapshot_export_target-Returns w).at target t)
                (require-true _ a k))

pub snapshot_export_request-Returns :
    (v : Value) → Returns IsExportRequest (snapshot_export_request v)
unfolding snapshot_export_request
snapshot_export_request-Returns v = Returns-bind (dto_field v "target" true) _ λ w _.
    Returns-bind (snapshot_export_target w) _ λ target t.
      Returns-bind (dto_field v "user_request" true) _ λ w₁ _.
        Returns-bind (snapshot_export_confirmation w₁ "not_requested" "requested") _ λ user t₁.
          Returns-bind (dto_field v "application_confirmation" true) _ λ w₂ _.
            Returns-bind (snapshot_export_confirmation w₂ "not_confirmed" "confirmed") _
              λ confirmed t₂. Returns-returned _ (
                request target user confirmed ((snapshot_export_target-Returns w).at target t)
                  ((snapshot_export_confirmation-Returns w₁ "not_requested" "requested").at user t₁)
                  ((snapshot_export_confirmation-Returns w₂ "not_confirmed" "confirmed").at
                    confirmed t₂))

-- A well-formed target is its own copy, and so is a well-formed request.
copy_of_target : {s : Value} → IsExportTarget s → snapshot_export_target s ≡ returned s
unfolding snapshot_export_target dto_field dto_field_string required_object required_string
    is_object property_of find validate_uuid_value
copy_of_target (mnemonic profile_id u) = rw u
copy_of_target (software_key profile_id key_id u k) = rw (u, k)

-- a well-formed part is not `undefined`, so its field can be read
read_target : {s : Value} → IsExportTarget s → own_value true (some (plain s)) ≡ returned s
read_target (mnemonic profile_id u) = refl
read_target (software_key profile_id key_id u k) = refl

read_confirmation :
    {s : Value} (inactive active : String)
    → IsConfirmation inactive active s
    → own_value true (some (plain s)) ≡ returned s
read_confirmation inactive active (confirmation target status t k) = refl

copy_of_confirmation :
    {s : Value} (inactive active : String)
    → IsConfirmation inactive active s
    → snapshot_export_confirmation s inactive active ≡ returned s
unfolding snapshot_export_confirmation dto_field dto_field_string required_object required_string
    is_object property_of find
copy_of_confirmation inactive active (confirmation target status t k) =
    rw (read_target t, snapshot_export_confirmation, copy_of_target t, k)

copy_of_request : {s : Value} → IsExportRequest s → snapshot_export_request s ≡ returned s
unfolding snapshot_export_request dto_field required_object is_object property_of find
copy_of_request (request target user confirmed t u c) = rw (
  read_target t,
  snapshot_export_request,
  copy_of_target t,
  read_confirmation _ _ u,
  copy_of_confirmation _ _ u,
  read_confirmation _ _ c,
  copy_of_confirmation _ _ c,
)

-- A request that is copied is well formed: its targets name a profile by a UUID, with a key's UUID
-- exactly where a key is exported, and its statuses are among the two that belong to each part.
-- Copying the copy again gives the same request.
pub snapshot_export_request-stable :
    (v s : Value)
    → snapshot_export_request v ≡ returned s
    → IsExportRequest s × (snapshot_export_request s ≡ returned s)
snapshot_export_request-stable v s t =
    let k = (snapshot_export_request-Returns v).at s t in (k, copy_of_request k)
