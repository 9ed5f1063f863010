-- ===== src/Tests/Facade.antt =====
-- Runs of packages/wallet-core/src/facade-runtime.mjs.
use symbol_nem_wallet_core.Prelude.{
  ℕ, ◌≡◌, refl, ◌↔◌, List, [], ◌∷◌, Option, none, some, arith, codes, String, inl, inr, Bool-cases,
  ◌==◌, true,
}
use symbol_nem_wallet_core.Js.Value.{
  Value, bytes, string, end, field, plain, number, integer, is_object, property_of, find, Fields,
}
use symbol_nem_wallet_core.Js.Outcome.{wallet_error, foreign, returned, thrown, traverse}
use symbol_nem_wallet_core.Js.Storage.{live}
use symbol_nem_wallet_core.Facade.Errors.{
  error_object, binding_failure, read, normalize_operation_error, candidates, first_core_code,
}
use symbol_nem_wallet_core.Facade.Access.{
  required_object, required_string, property, dto_field, dto_field_string,
}
use symbol_nem_wallet_core.Facade.Bytes.{output_bytes, snapshot_uint8_array, clear_secret_bytes}
use symbol_nem_wallet_core.Facade.Bytes.Clearing.{IsCleared}
use symbol_nem_wallet_core.Facade.Bytes.Copying.{KeepsOld}
use symbol_nem_wallet_core.Facade.Validate.{skip_hex, skip_dash, uuid_pattern, validate_uuid_value}
use symbol_nem_wallet_core.Facade.Validate.Uuid.{IsUuid, uuid_pattern_iff}
use symbol_nem_wallet_core.Facade.Request.{
  dto_object, snapshot_export_target, snapshot_export_confirmation, snapshot_export_request,
  snapshot_account_context, snapshot_signing_target, snapshot_signing_approval,
  snapshot_signing_request,
}
use symbol_nem_wallet_core.Facade.Request.Export.{IsExportRequest, snapshot_export_request-stable}
use symbol_nem_wallet_core.Facade.Output.{output_warnings, ProfileInfo}
use symbol_nem_wallet_core.Facade.Results.{output_signature, output_read_result}
use symbol_nem_wallet_core.Facade.Secret.{
  read_sources, read_secret, copy_sources, output_secret_read_result,
}
use symbol_nem_wallet_core.Facade.Secret.Clearing.{output_secret_read_result-clears}
use symbol_nem_wallet_core.Facade.Secret.Leaks.{
  NewIsCleared, output_secret_read_result-NewIsCleared,
}
use symbol_nem_wallet_core.Facade.Secret.Delivery.{
  AreDelivered, IsAllocated, output_secret_read_result-AreDelivered,
}
use symbol_nem_wallet_core.Facade.Secret.Frame.{output_secret_read_result-same}
use symbol_nem_wallet_core.Facade.Operations.{call, invoke, sign, list_profiles}
use symbol_nem_wallet_core.Facade.Operations.Known.{
  IsKnown, OperationsThrow, operations-IsCoreError,
}
use symbol_nem_wallet_core.Facade.Operations.Signing.{IsTidyBackend, sign-clears, sign-KeepsOld}
use symbol_nem_wallet_core.Facade.Errors.Known.{IsCoreError}
use symbol_nem_wallet_core.Facade.Create.{Facade, create_facade}
use symbol_nem_wallet_core.Facade.Create.Complete.{IsComplete, create_facade_iff}
use symbol_nem_wallet_core.Tests.Samples.{
  plain_object, secret, secret_result, heap, id, signing_request, export_request, backend,
}

-- The second copy fails for its length, after the first was made.
abbrev short_fields : List (String × Option ℕ)
short_fields = ("mnemonic_utf8", none) ∷ ("pending_profile", some 32) ∷ []

abbrev profile_fields : List (String × Option ℕ)
profile_fields = ("mnemonic_utf8", none) ∷ ("pending_profile", none) ∷ []

output_secret_read_result-clears_example :
    IsCleared ((output_secret_read_result secret_result profile_fields heap).1.storage 1)
unfolding property required_object is_object read property_of find
output_secret_read_result-clears_example =
    output_secret_read_result-clears secret_result secret (("mnemonic_utf8", none) ∷ []) []
      "pending_profile" none 1 heap refl ((bytes 0, refl), tt) refl

output_secret_read_result-NewIsCleared_example :
    NewIsCleared heap (output_secret_read_result secret_result short_fields heap).1
unfolding output_secret_read_result read_secret read_sources copy_sources output_bytes
    output_warnings traverse property required_object is_object read property_of find
output_secret_read_result-NewIsCleared_example =
    output_secret_read_result-NewIsCleared secret_result short_fields heap binding_failure refl

secret-IsAllocated : IsAllocated secret heap
unfolding property required_object is_object read property_of find
secret-IsAllocated name i t = ground arith

output_secret_read_result-AreDelivered_example :
    AreDelivered secret heap
      (output_secret_read_result secret_result profile_fields heap).1
      profile_fields
      (("mnemonic_utf8", 3) ∷ ("pending_profile", 4) ∷ [])
unfolding output_secret_read_result read_secret read_sources copy_sources output_bytes
    output_warnings traverse property required_object is_object read property_of find
output_secret_read_result-AreDelivered_example =
    output_secret_read_result-AreDelivered secret_result secret profile_fields heap
      (record { value = ("mnemonic_utf8", 3) ∷ ("pending_profile", 4) ∷ []; warnings = [] }) refl
      secret-IsAllocated refl

output_secret_read_result-same_example :
    (output_secret_read_result secret_result profile_fields heap).1.storage 2 ≡ heap.storage 2
unfolding read_secret read_sources property required_object is_object read property_of find
output_secret_read_result-same_example =
    output_secret_read_result-same secret_result profile_fields heap 2 (omega arith) (ground arith)

sign-clears_example : IsCleared ((sign backend id signing_request id heap).1.storage 3)
unfolding snapshot_signing_request snapshot_signing_target snapshot_account_context
    snapshot_signing_approval snapshot_uint8_array validate_uuid_value uuid_pattern skip_hex
    skip_dash dto_field dto_field_string required_string required_object is_object property_of find
sign-clears_example =
    sign-clears backend id id (λ f args h. refl) signing_request heap 3 (omega arith) (omega arith)

-- The signature comes back in a new storage, and the payload's copy (storage 3) is cleared.
sign_run :
    ((sign backend id signing_request id heap).0 ≡ returned (record { value = 5; warnings = [] }))
    × ((sign backend id signing_request id heap).1.storage 3 ≡ live (0 ∷ 0 ∷ 0 ∷ []))
unfolding sign invoke call snapshot_signing_request snapshot_signing_target snapshot_account_context
    snapshot_signing_approval snapshot_uint8_array validate_uuid_value uuid_pattern skip_hex
    skip_dash dto_field dto_field_string required_string required_object is_object property_of find
    read property output_signature output_read_result output_warnings output_bytes traverse
    clear_secret_bytes
sign_run = (refl, refl)

-- A code in the message of the backend's error is the error that the caller sees.
list_profiles_run : (list_profiles backend id heap).0 ≡ thrown (wallet_error "ProfileNotFound")
unfolding list_profiles invoke call read property_of find normalize_operation_error candidates
    is_object first_core_code
list_profiles_run = refl

backend-IsTidy : IsTidyBackend backend
backend-IsTidy f args = elim (Bool-cases (f == 12)) [
  | inl signs ↦
      rw signs (record { at = λ h. record { grows = omega arith; same = λ i k. ground arith } })
  | inr fails ↦ rw fails (record { at = λ h. record { grows = omega arith; same = λ i k. refl } })
]

sign-KeepsOld_example : KeepsOld heap (sign backend id signing_request id heap).1
sign-KeepsOld_example =
    sign-KeepsOld backend id signing_request id heap backend-IsTidy (λ f args h. refl)

backend-IsKnown : IsKnown backend
backend-IsKnown = record {
  apply = λ f args. elim (Bool-cases (f == 12)) [
    | inl signs ↦ rw signs (record { at = λ h e t. cc })
    | inr fails ↦ rw fails (record {
      at = λ h e t. let q : e ≡ foreign (error_object "ProfileNotFound") = ground arith in rw q tt;
    })
  ];
}

operations-IsCoreError_example : OperationsThrow IsCoreError backend
operations-IsCoreError_example = operations-IsCoreError backend backend-IsKnown

-- the copy of the sample request
abbrev copied_target : Value
copied_target =
    dto_object (field "kind" (plain (string "mnemonic")) (field "profile_id" (plain id) end))

abbrev copied_confirmation : String → Value
copied_confirmation status =
    dto_object (field "target" (plain copied_target) (field "status" (plain (string status)) end))

abbrev copied_request : Value
copied_request = dto_object (
    field "target" (plain copied_target) (
      field "user_request" (plain (copied_confirmation "requested"))
        (field "application_confirmation" (plain (copied_confirmation "not_confirmed")) end)))

snapshot_export_request-stable_example :
    IsExportRequest copied_request
    × (snapshot_export_request copied_request ≡ returned copied_request)
unfolding snapshot_export_request snapshot_export_confirmation snapshot_export_target
    validate_uuid_value uuid_pattern skip_hex skip_dash dto_field dto_field_string required_string
    required_object is_object property_of find
snapshot_export_request-stable_example =
    snapshot_export_request-stable export_request copied_request refl

abbrev target_with : (Fields → Value) → Value
target_with make = make (
    field "profile_id" (plain id) (
      field "key_id" (plain id) (
        field "context"
          (plain (
            make (
              field "chain" (plain (string "nem"))
                (field "network" (plain (string "mainnet")) end))))
          end)))

abbrev key_info : Value
key_info = plain_object (
    field "key_id" (plain id) (
      field "chain" (plain (string "nem")) (
        field "origin"
          (plain (
            plain_object (
              field "kind" (plain (string "derived"))
                (field "account_index" (plain (number (integer 3))) end))))
          end)))

abbrev profile_info : Value
profile_info = plain_object (
    field "profile_id" (plain id) (
      field "network" (plain (string "testnet"))
        (field "software_key_count" (plain (number (integer 2))) end)))

abbrev profile_infos : List ProfileInfo
profile_infos =
    record {
      profile_id = "0123abcd-0000-1111-2222-0123456789AB";
      network = "testnet";
      software_key_count = integer 2;
    }
    ∷ []

uuid_pattern_iff_example :
    (uuid_pattern (codes "0123abcd-0000-1111-2222-0123456789AB") ≡ true)
    ↔ IsUuid (codes "0123abcd-0000-1111-2222-0123456789AB")
uuid_pattern_iff_example = uuid_pattern_iff (codes "0123abcd-0000-1111-2222-0123456789AB")

create_facade_iff_example :
    ((f : Facade) × (create_facade backend ≡ returned f)) ↔ IsComplete backend
create_facade_iff_example = create_facade_iff backend
