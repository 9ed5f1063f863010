-- ===== src/Facade/Operations.antt =====
-- facade-runtime.mjs: invoke, createFacade and the sixteen operations.
pub mod Throws
pub mod Known
pub mod Signing
pub mod Rejects
use symbol_nem_wallet_core.Prelude.{ℕ, String, Option, none, some, List, [], ◌∷◌}
use symbol_nem_wallet_core.Js.Value.{Value, function, integer, Number}
use symbol_nem_wallet_core.Js.Outcome.{Exception, foreign, Outcome, returned, thrown}
use symbol_nem_wallet_core.Js.Storage.{Heap, Js, pure, ◌>>=◌, ◌>>◌}
use symbol_nem_wallet_core.Facade.Errors.{error_object, read, normalize_operation_error}
use symbol_nem_wallet_core.Facade.Bytes.{output_bytes, clear_secret_bytes}
use symbol_nem_wallet_core.Facade.Validate.{
  validate_uuid_value, validate_network_or_chain, validate_account_index,
}
use symbol_nem_wallet_core.Facade.Request.{
  SigningRequest, snapshot_export_request, snapshot_account_context, snapshot_signing_request,
}
use symbol_nem_wallet_core.Facade.Output.{
  ProfileInfo, SoftwareKeyInfo, SoftwareKeyListItem, output_profile_info, output_profiles,
  output_software_key_info, output_software_keys, output_null,
}
use symbol_nem_wallet_core.Facade.Results.{
  PublicAccount, ReadResult, MutationResult, output_public_account, output_signature,
  output_read_result, output_mutation_result,
}
use symbol_nem_wallet_core.Facade.Secret.{SecretCopy, output_secret_read_result}

-- OPERATION_NAMES
abbrev pub operation_names : List String
operation_names =
    "create_empty_store" ∷ "prepare_generated_profile" ∷ "finalize_generated_profile"
    ∷ "restore_profile" ∷ "list_profiles" ∷ "export_mnemonic" ∷ "export_private_key"
    ∷ "list_software_keys" ∷ "derive_software_key" ∷ "import_software_key" ∷ "generate_software_key"
    ∷ "get_public_account" ∷ "sign" ∷ "change_profile_password" ∷ "delete_software_key"
    ∷ "delete_profile" ∷ []

-- Network and Chain
abbrev pub testnet : Number
testnet = integer 0

abbrev pub mainnet : Number
mainnet = integer 1

abbrev pub nem : Number
nem = integer 0

abbrev pub symbol_chain : Number
symbol_chain = integer 1

-- The backend object, and what its functions do when they are called. The request that `sign` hands
-- to a function is a mutable object: the function may assign its `payload`.
pub record Backend : Type 0 where
  pub value : Value
  pub apply : ℕ → List Value → Js Value
  -- what a function leaves at the payload of that request, none where it does not assign it
  pub payload_left : ℕ → List Value → Heap → Option Value

abbrev not_a_function : Exception
not_a_function = foreign (error_object "backend operation is not a function")

abbrev call_found : Backend → Outcome Value → List Value → Js Value
call_found b (returned (function f)) args h = b.apply f args h
call_found b (returned v) args h = (thrown not_a_function, h)
call_found b (thrown e) args h = (thrown e, h)

-- backend[name](...args)
unfoldable pub call : Backend → String → List Value → Js Value
call b name args h = call_found b (read b.value name) args h

-- `catch (error) { throw normalizeOperationError(error); }`
abbrev normalized : {A : Type 0} → Outcome A × Heap → Outcome A × Heap
normalized (returned a, h) = (returned a, h)
normalized (thrown e, h) = (thrown (normalize_operation_error e), h)

unfoldable pub invoke : {A : Type 0} → Backend → String → List Value → (Value → Js A) → Js A
invoke b name args normalizer h = normalized ((call b name args >>= normalizer) h)

abbrev or_left : Option Value → Value → Value
or_left none payload = payload
or_left (some v) payload = v

module _ (b : Backend) where
  unfoldable pub create_empty_store : Js ℕ
  create_empty_store = invoke b "create_empty_store" [] (λ value. output_bytes value none)

  unfoldable pub prepare_generated_profile :
      Value → Value → Value → Js (ReadResult (List SecretCopy))
  prepare_generated_profile store password network = do
    pure (validate_network_or_chain network)
    invoke b "prepare_generated_profile" (store ∷ password ∷ network ∷ []) (λ value.
        output_secret_read_result value (("mnemonic_utf8", none) ∷ ("pending_profile", none) ∷ []))

  unfoldable pub finalize_generated_profile :
      Value → Value → Value → Js (MutationResult ProfileInfo)
  finalize_generated_profile store pending_profile password =
      invoke b "finalize_generated_profile" (store ∷ pending_profile ∷ password ∷ [])
        (λ value. output_mutation_result value (λ v. pure (output_profile_info v)))

  unfoldable pub restore_profile : Value → Value → Value → Value → Js (MutationResult ProfileInfo)
  restore_profile store mnemonic password network = do
    pure (validate_network_or_chain network)
    invoke b "restore_profile" (store ∷ mnemonic ∷ password ∷ network ∷ [])
        (λ value. output_mutation_result value (λ v. pure (output_profile_info v)))

  unfoldable pub list_profiles : Value → Js (ReadResult (List ProfileInfo))
  list_profiles store =
      invoke b "list_profiles" (store ∷ [])
        (λ value. output_read_result value (λ v. pure (output_profiles v)))

  unfoldable pub export_mnemonic : Value → Value → Value → Js (ReadResult (List SecretCopy))
  export_mnemonic store request password = do
    snapshot ← pure (snapshot_export_request request)
    invoke b "export_mnemonic" (store ∷ snapshot ∷ password ∷ [])
        (λ value. output_secret_read_result value (("mnemonic_utf8", none) ∷ []))

  unfoldable pub export_private_key : Value → Value → Value → Js (ReadResult (List SecretCopy))
  export_private_key store request password = do
    snapshot ← pure (snapshot_export_request request)
    invoke b "export_private_key" (store ∷ snapshot ∷ password ∷ [])
        (λ value. output_secret_read_result value (("private_key", some 32) ∷ []))

  unfoldable pub list_software_keys : Value → Value → Js (ReadResult (List SoftwareKeyListItem))
  list_software_keys store profile_id = do
    pure (validate_uuid_value profile_id)
    invoke b "list_software_keys" (store ∷ profile_id ∷ [])
        (λ value. output_read_result value (λ v. pure (output_software_keys v)))

  unfoldable pub derive_software_key :
      Value → Value → Value → Value → Value → Js (MutationResult SoftwareKeyInfo)
  derive_software_key store profile_id password chain account_index = do
    pure (validate_uuid_value profile_id)
    pure (validate_network_or_chain chain)
    pure (validate_account_index account_index)
    invoke b "derive_software_key" (store ∷ profile_id ∷ password ∷ chain ∷ account_index ∷ [])
        (λ value. output_mutation_result value (λ v. pure (output_software_key_info v)))

  unfoldable pub import_software_key :
      Value → Value → Value → Value → Value → Js (MutationResult SoftwareKeyInfo)
  import_software_key store profile_id password chain private_key = do
    pure (validate_uuid_value profile_id)
    pure (validate_network_or_chain chain)
    invoke b "import_software_key" (store ∷ profile_id ∷ password ∷ chain ∷ private_key ∷ [])
        (λ value. output_mutation_result value (λ v. pure (output_software_key_info v)))

  unfoldable pub generate_software_key :
      Value → Value → Value → Value → Js (MutationResult SoftwareKeyInfo)
  generate_software_key store profile_id password chain = do
    pure (validate_uuid_value profile_id)
    pure (validate_network_or_chain chain)
    invoke b "generate_software_key" (store ∷ profile_id ∷ password ∷ chain ∷ [])
        (λ value. output_mutation_result value (λ v. pure (output_software_key_info v)))

  unfoldable pub get_public_account :
      Value → Value → Value → Value → Value → Js (ReadResult PublicAccount)
  get_public_account store profile_id key_id requested_context password = do
    pure (validate_uuid_value profile_id)
    pure (validate_uuid_value key_id)
    context ← pure (snapshot_account_context requested_context)
    invoke b "get_public_account" (store ∷ profile_id ∷ key_id ∷ context ∷ password ∷ [])
        (λ value. output_read_result value output_public_account)

  -- `requestSnapshot.payload` after the call of what `backend.sign` is found to be
  abbrev payload_after : Outcome Value → List Value → Heap → Value → Value
  payload_after (returned (function f)) args h payload = or_left (b.payload_left f args h) payload
  payload_after (returned v) args h payload = payload
  payload_after (thrown e) args h payload = payload

  -- `finally { clearSecretBytes(requestSnapshot.payload); }`, which reads the field again
  abbrev sign_snapshot : Value → Value → SigningRequest → Js (ReadResult ℕ)
  sign_snapshot store password request h =
      let args = store ∷ request.snapshot ∷ password ∷ [] in
      let (result, h') =
        invoke b "sign" args (λ value. output_read_result value output_signature) h in
      let payload = payload_after (read b.value "sign") args h request.payload in
      (result, clear_secret_bytes payload h')

  unfoldable pub sign : Value → Value → Value → Js (ReadResult ℕ)
  sign store request password = do
    snapshot ← snapshot_signing_request request
    sign_snapshot store password snapshot

  unfoldable pub change_profile_password :
      Value → Value → Value → Value → Js (MutationResult (Unit {0}))
  change_profile_password store profile_id current_password new_password = do
    pure (validate_uuid_value profile_id)
    invoke b "change_profile_password" (store ∷ profile_id ∷ current_password ∷ new_password ∷ [])
        (λ value. output_mutation_result value (λ v. pure (output_null v)))

  unfoldable pub delete_software_key :
      Value → Value → Value → Value → Js (MutationResult (Unit {0}))
  delete_software_key store profile_id key_id password = do
    pure (validate_uuid_value profile_id)
    pure (validate_uuid_value key_id)
    invoke b "delete_software_key" (store ∷ profile_id ∷ key_id ∷ password ∷ [])
        (λ value. output_mutation_result value (λ v. pure (output_null v)))

  unfoldable pub delete_profile : Value → Value → Value → Js (MutationResult (Unit {0}))
  delete_profile store profile_id password = do
    pure (validate_uuid_value profile_id)
    invoke b "delete_profile" (store ∷ profile_id ∷ password ∷ [])
        (λ value. output_mutation_result value (λ v. pure (output_null v)))
