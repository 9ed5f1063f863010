-- ===== src/Facade/Request.antt =====
-- facade-runtime.mjs: the private copies of callers' request objects, made field by field.
pub mod Throws
pub mod Export
pub mod Signing
pub mod Payload
pub mod Copied
use symbol_nem_wallet_core.Prelude.{ℕ, String, Bool, true, false, ◌||◌, ◌===◌, if◌then◌else◌}
use symbol_nem_wallet_core.Js.Value.{
  Value, undefined, string, bytes, object, null_prototype, Fields, end, field, plain,
}
use symbol_nem_wallet_core.Js.Outcome.{Outcome, returned, thrown, ◌>>=◌, ◌>>◌}
use symbol_nem_wallet_core.Js.Storage.{Js}
use symbol_nem_wallet_core.Facade.Errors.{binding_failure, invalid_argument}
use symbol_nem_wallet_core.Facade.Access.{dto_field, dto_field_string}
use symbol_nem_wallet_core.Facade.Bytes.{snapshot_uint8_array, clear_secret_bytes}
use symbol_nem_wallet_core.Facade.Validate.{validate_uuid_value}

-- dtoObject() with its fields assigned
abbrev pub dto_object : Fields → Value
dto_object fs = object null_prototype fs

-- `if (!(…)) invalidArgument();`
abbrev pub require : Bool → Outcome (Unit {0})
require true = returned tt
require false = thrown invalid_argument

-- the two ends of snapshotExportTarget, by the target's kind
abbrev mnemonic_target : String → String → Value → Outcome Value
mnemonic_target kind profile_id undefined = returned (
    dto_object
      (field "kind" (plain (string kind)) (field "profile_id" (plain (string profile_id)) end)))
mnemonic_target kind profile_id (string s) = thrown invalid_argument
mnemonic_target kind profile_id _ = thrown binding_failure

abbrev key_target : String → String → Value → Outcome Value
key_target kind profile_id undefined = thrown invalid_argument
key_target kind profile_id key_id = do
  validate_uuid_value key_id
  returned (
      dto_object (
        field "kind" (plain (string kind))
          (field "profile_id" (plain (string profile_id)) (field "key_id" (plain key_id) end))))

unfoldable pub snapshot_export_target : Value → Outcome Value
snapshot_export_target value = do
  kind ← dto_field_string value "kind"
  require (kind === "mnemonic" || kind === "software_key")
  profile_id ← dto_field_string value "profile_id"
  validate_uuid_value (string profile_id)
  key_id ← dto_field value "key_id" false
  if kind === "mnemonic"
      then mnemonic_target kind profile_id key_id
      else key_target kind profile_id key_id

unfoldable pub snapshot_export_confirmation : Value → String → String → Outcome Value
snapshot_export_confirmation value inactive_status active_status = do
  target_field ← dto_field value "target" true
  target ← snapshot_export_target target_field
  status ← dto_field_string value "status"
  require (status === inactive_status || status === active_status)
  returned (dto_object (field "target" (plain target) (field "status" (plain (string status)) end)))

unfoldable pub snapshot_export_request : Value → Outcome Value
snapshot_export_request value = do
  target_field ← dto_field value "target" true
  target ← snapshot_export_target target_field
  user_field ← dto_field value "user_request" true
  user_request ← snapshot_export_confirmation user_field "not_requested" "requested"
  confirmation_field ← dto_field value "application_confirmation" true
  confirmation ← snapshot_export_confirmation confirmation_field "not_confirmed" "confirmed"
  returned (
      dto_object (
        field "target" (plain target) (
          field "user_request" (plain user_request)
            (field "application_confirmation" (plain confirmation) end))))

unfoldable pub snapshot_account_context : Value → Outcome Value
snapshot_account_context value = do
  chain ← dto_field_string value "chain"
  network ← dto_field_string value "network"
  require (chain === "nem" || chain === "symbol")
  require (network === "testnet" || network === "mainnet")
  returned (
      dto_object
        (field "chain" (plain (string chain)) (field "network" (plain (string network)) end)))

unfoldable pub snapshot_signing_target : Value → Outcome Value
snapshot_signing_target value = do
  profile_id ← dto_field_string value "profile_id"
  key_id ← dto_field_string value "key_id"
  validate_uuid_value (string profile_id)
  validate_uuid_value (string key_id)
  context_field ← dto_field value "context" true
  context ← snapshot_account_context context_field
  returned (
      dto_object (
        field "profile_id" (plain (string profile_id))
          (field "key_id" (plain (string key_id)) (field "context" (plain context) end))))

unfoldable pub snapshot_signing_approval : Value → Outcome Value
snapshot_signing_approval value = do
  status ← dto_field_string value "status"
  require (status === "not_approved" || status === "approved")
  returned (dto_object (field "status" (plain (string status)) end))

-- A signing request's copy, with its payload beside it (`requestSnapshot.payload`).
pub record SigningRequest : Type 0 where
  pub snapshot : Value
  pub payload : Value

abbrev signing_request : Value → ℕ → Value → SigningRequest
signing_request target payload approval = record {
  snapshot = dto_object (
      field "target" (plain target)
        (field "payload" (plain (bytes payload)) (field "approval" (plain approval) end)));
  payload = bytes payload;
}

-- after the payload is copied: `clearSecretBytes(payload)` if the approval is refused
abbrev with_approval : Value → ℕ → Outcome Value → Js SigningRequest
with_approval target payload (returned approval) h =
    (returned (signing_request target payload approval), h)
with_approval target payload (thrown e) h = (thrown e, clear_secret_bytes (bytes payload) h)

-- before it, `payload` is undefined and nothing is cleared
abbrev with_payload : Value → Outcome ℕ → Outcome Value → Js SigningRequest
with_payload target (returned payload) approval h = with_approval target payload approval h
with_payload target (thrown e) approval h = (thrown e, h)

abbrev copy_payload : Outcome Value → Js ℕ
copy_payload (returned payload) h = snapshot_uint8_array payload h
copy_payload (thrown e) h = (thrown e, h)

abbrev with_target : Value → Outcome Value → Js SigningRequest
with_target value (returned target) h =
    let (payload, h') = copy_payload (dto_field value "payload" true) h in
    with_payload target payload (dto_field value "approval" true >>= snapshot_signing_approval) h'
with_target value (thrown e) h = (thrown e, h)

unfoldable pub snapshot_signing_request : Value → Js SigningRequest
snapshot_signing_request value h =
    with_target value (dto_field value "target" true >>= snapshot_signing_target) h
