-- ===== src/Facade/Operations/Known.antt =====
-- A caller of the facade sees errors of the code list only, whatever its backend throws.
use symbol_nem_wallet_core.Prelude.{ℕ, String, ◌≡◌, refl, Option, none, some, List, [], ◌∷◌, arith}
use symbol_nem_wallet_core.Js.Value.{Value, function, Property, broken, trapped, property_of}
use symbol_nem_wallet_core.Js.Outcome.{Exception, foreign, Outcome, returned, thrown}
use symbol_nem_wallet_core.Js.Storage.{Heap, Js, pure, ◌>>=◌}
use symbol_nem_wallet_core.Facade.Errors.{read, found_value, normalize_operation_error}
use symbol_nem_wallet_core.Facade.Errors.Known.{IsCoreError}
use symbol_nem_wallet_core.Facade.Output.Throws.{
  OnlyBinding, output_profile_info-OnlyBinding, output_profiles-OnlyBinding,
  output_software_key_info-OnlyBinding, output_software_keys-OnlyBinding, output_null-OnlyBinding,
}
use symbol_nem_wallet_core.Facade.Request.Throws.{
  OnlyCore, validate_uuid_value-OnlyCore, validate_network_or_chain-OnlyCore,
  validate_account_index-OnlyCore, snapshot_export_request-OnlyCore,
  snapshot_account_context-OnlyCore, snapshot_signing_request-Throws,
}
use symbol_nem_wallet_core.Facade.Secret.Throws.{output_secret_read_result-Throws}
use symbol_nem_wallet_core.Facade.Output.{
  output_profile_info, output_profiles, output_software_key_info, output_software_keys, output_null,
}
use symbol_nem_wallet_core.Facade.Validate.{validate_uuid_value, validate_network_or_chain}
use symbol_nem_wallet_core.Facade.Request.{snapshot_export_request, SigningRequest}
use symbol_nem_wallet_core.Facade.Results.{
  output_read_result, output_mutation_result, output_signature,
}
use symbol_nem_wallet_core.Facade.Secret.{SecretField, output_secret_read_result}
use symbol_nem_wallet_core.Facade.Operations
use symbol_nem_wallet_core.Facade.Operations.{
  Backend, not_a_function, call_found, call, normalized, invoke, create_empty_store,
  prepare_generated_profile, finalize_generated_profile, restore_profile, list_profiles,
  export_mnemonic, export_private_key, list_software_keys, derive_software_key, import_software_key,
  generate_software_key, get_public_account, sign_snapshot, sign, change_profile_password,
  delete_software_key, delete_profile,
}
use symbol_nem_wallet_core.Facade.Operations.Throws.{
  Throws, IsNormalizable, normalize-IsCoreError, Throws-pure, Throws-bind, Throws-OnlyBinding,
  output_bytes-Throws, output_public_account-Throws, output_signature-Throws,
  output_read_result-Throws, output_mutation_result-Throws,
}

-- The backend's functions throw no WalletCoreError whose code is not in the list.
pub record IsKnown (b : Backend) : Type 0 where
  pub apply : (f : ℕ) (args : List Value) → Throws IsNormalizable (b.apply f args)

found_value-throws :
    (p : Option Property) (e : Exception) → found_value p ≡ thrown e → IsNormalizable e
found_value-throws (some (broken v)) e t = let q : e ≡ foreign v = ground arith in rw q tt
found_value-throws (some (trapped v)) e t = let q : e ≡ foreign v = ground arith in rw q tt
found_value-throws _ e t = cc

call_found-throws :
    (b : Backend) (m : Outcome Value) (args : List Value)
    → IsKnown b
    → ((e : Exception) → m ≡ thrown e → IsNormalizable e)
    → Throws IsNormalizable (call_found b m args)
call_found-throws b (returned (function f)) args k hm = record { at = (k.apply f args).at }
call_found-throws b (returned v) args k hm = record {
  at = λ h e t. let q : e ≡ not_a_function = ground arith in rw q tt;
}
call_found-throws b (thrown e) args k hm = record { at = λ h e' t. hm e' (ground arith) }

call-throws :
    (b : Backend) (name : String) (args : List Value)
    → IsKnown b
    → Throws IsNormalizable (call b name args)
unfolding call read
call-throws b name args k = record {
  at =
      (call_found-throws b (read b.value name) args k
        (found_value-throws (property_of b.value name))).at;
}

normalized-throws :
    {A : Type 0} (r : Outcome A) (h : Heap)
    → ((e : Exception) → r ≡ thrown e → IsNormalizable e)
    → (e : Exception) → (normalized (r, h)).0 ≡ thrown e
    → IsCoreError e
normalized-throws (returned a) h k e t = cc
normalized-throws (thrown e') h k e t =
    let q : e ≡ normalize_operation_error e' = ground arith in
    rw q (normalize-IsCoreError e' (k e' refl))

invoke-Throws :
    {A : Type 0} (b : Backend) (name : String) (args : List Value) (normalizer : Value → Js A)
    → IsKnown b
    → ((v : Value) → Throws IsNormalizable (normalizer v))
    → Throws IsCoreError (invoke b name args normalizer)
unfolding invoke
invoke-Throws b name args normalizer k kn = record {
  at = λ h.
      let m = call b name args >>= normalizer in
      normalized-throws (m h).0 (m h).1
        ((Throws-bind (call b name args) normalizer (call-throws b name args k) kn).at h);
}

-- One more check in front of an operation.
checked :
    {A B : Type 0} (m : Outcome A) (f : A → Js B)
    → OnlyCore m
    → ((a : A) → Throws IsCoreError (f a))
    → Throws IsCoreError (pure m >>= f)
checked m f k kf = Throws-bind (pure m) f (Throws-pure m k.at) kf

-- What each operation of the facade may throw.
pub record OperationsThrow (P : Exception → Type 0) (b : Backend) : Type 0 where
  pub create_empty_store : Throws P (Operations.create_empty_store b)
  pub prepare_generated_profile :
      (s p n : Value) → Throws P (Operations.prepare_generated_profile b s p n)
  pub finalize_generated_profile :
      (s q p : Value) → Throws P (Operations.finalize_generated_profile b s q p)
  pub restore_profile : (s m p n : Value) → Throws P (Operations.restore_profile b s m p n)
  pub list_profiles : (s : Value) → Throws P (Operations.list_profiles b s)
  pub export_mnemonic : (s r p : Value) → Throws P (Operations.export_mnemonic b s r p)
  pub export_private_key : (s r p : Value) → Throws P (Operations.export_private_key b s r p)
  pub list_software_keys : (s i : Value) → Throws P (Operations.list_software_keys b s i)
  pub derive_software_key :
      (s i p c a : Value) → Throws P (Operations.derive_software_key b s i p c a)
  pub import_software_key :
      (s i p c k : Value) → Throws P (Operations.import_software_key b s i p c k)
  pub generate_software_key :
      (s i p c : Value) → Throws P (Operations.generate_software_key b s i p c)
  pub get_public_account :
      (s i k c p : Value) → Throws P (Operations.get_public_account b s i k c p)
  pub sign : (s r p : Value) → Throws P (Operations.sign b s r p)
  pub change_profile_password :
      (s i p q : Value) → Throws P (Operations.change_profile_password b s i p q)
  pub delete_software_key : (s i k p : Value) → Throws P (Operations.delete_software_key b s i k p)
  pub delete_profile : (s i p : Value) → Throws P (Operations.delete_profile b s i p)

module _ (b : Backend) (k : IsKnown b) where
  mutation-Throws :
      {A : Type 0} (name : String) (args : List Value) (f : Value → Outcome A)
      → ((v : Value) → OnlyBinding (f v))
      → Throws IsCoreError (invoke b name args (λ v. output_mutation_result v (λ w. pure (f w))))
  mutation-Throws name args f kf =
      invoke-Throws b name args _ k
        (output_mutation_result-Throws refl _ (λ w. Throws-OnlyBinding refl (f w) (kf w)))

  read-Throws :
      {A : Type 0} (name : String) (args : List Value) (f : Value → Outcome A)
      → ((v : Value) → OnlyBinding (f v))
      → Throws IsCoreError (invoke b name args (λ v. output_read_result v (λ w. pure (f w))))
  read-Throws name args f kf =
      invoke-Throws b name args _ k
        (output_read_result-Throws refl _ (λ w. Throws-OnlyBinding refl (f w) (kf w)))

  secret-Throws :
      (name : String) (args : List Value) (fields : List SecretField)
      → Throws IsCoreError (invoke b name args (λ v. output_secret_read_result v fields))
  secret-Throws name args fields =
      invoke-Throws b name args _ k (λ v. output_secret_read_result-Throws refl v fields)

  sign_snapshot-Throws :
      (s p : Value) (r : SigningRequest) → Throws IsCoreError (sign_snapshot b s p r)
  sign_snapshot-Throws s p r = record {
    at =
        (invoke-Throws b "sign" (s ∷ r.snapshot ∷ p ∷ []) _ k
          (output_read_result-Throws refl output_signature (output_signature-Throws refl))).at;
  }

-- Whatever the arguments are, every operation of the facade throws only WalletCoreErrors whose
-- code is in the list, where the backend throws no WalletCoreError with another code.
pub operations-IsCoreError : (b : Backend) → IsKnown b → OperationsThrow IsCoreError b
unfolding create_empty_store prepare_generated_profile finalize_generated_profile restore_profile
    list_profiles export_mnemonic export_private_key list_software_keys derive_software_key
    import_software_key generate_software_key get_public_account sign change_profile_password
    delete_software_key delete_profile
operations-IsCoreError b k = record {
  create_empty_store = invoke-Throws b _ _ _ k (λ v. output_bytes-Throws refl v none);
  prepare_generated_profile = λ s p n. network n λ _. secret-Throws b k _ _ _;
  finalize_generated_profile = λ s q p. profile _ _;
  restore_profile = λ s m p n. network n λ _. profile _ _;
  list_profiles = λ s. read-Throws b k _ _ output_profiles output_profiles-OnlyBinding;
  export_mnemonic = λ s r p. export r λ _. secret-Throws b k _ _ _;
  export_private_key = λ s r p. export r λ _. secret-Throws b k _ _ _;
  list_software_keys =
      λ s i. uuid i λ _. read-Throws b k _ _ output_software_keys output_software_keys-OnlyBinding;
  derive_software_key = λ s i p c a.
      uuid i λ _. network c λ _. checked _ _ (validate_account_index-OnlyCore a) λ _. key _ _;
  import_software_key = λ s i p c q. uuid i λ _. network c λ _. key _ _;
  generate_software_key = λ s i p c. uuid i λ _. network c λ _. key _ _;
  get_public_account = λ s i j c p. uuid i λ _. uuid j λ _.
      checked _ _ (snapshot_account_context-OnlyCore c) λ _.
        invoke-Throws b _ _ _ k
          (output_read_result-Throws refl _ (output_public_account-Throws refl));
  sign = λ s r p. search (Throws-bind, snapshot_signing_request-Throws, sign_snapshot-Throws);
  change_profile_password = λ s i p q. uuid i λ _. nothing _ _;
  delete_software_key = λ s i j p. uuid i λ _. uuid j λ _. nothing _ _;
  delete_profile = λ s i p. uuid i λ _. nothing _ _;
}
  where
    network :
        {B : Type 0} {f : Unit {0} → Js B} (v : Value)
        → ((u : Unit {0}) → Throws IsCoreError (f u))
        → Throws IsCoreError (pure (validate_network_or_chain v) >>= f)
    network {f} v kf = checked _ f (validate_network_or_chain-OnlyCore v) kf

    uuid :
        {B : Type 0} {f : Unit {0} → Js B} (v : Value)
        → ((u : Unit {0}) → Throws IsCoreError (f u))
        → Throws IsCoreError (pure (validate_uuid_value v) >>= f)
    uuid {f} v kf = checked _ f (validate_uuid_value-OnlyCore v) kf

    export :
        {B : Type 0} {f : Value → Js B} (v : Value)
        → ((u : Value) → Throws IsCoreError (f u))
        → Throws IsCoreError (pure (snapshot_export_request v) >>= f)
    export {f} v kf = checked _ f (snapshot_export_request-OnlyCore v) kf

    profile :
        (name : String) (args : List Value)
        → Throws IsCoreError
            (invoke b name args (λ v. output_mutation_result v (λ w. pure (output_profile_info w))))
    profile name args =
        mutation-Throws b k name args output_profile_info output_profile_info-OnlyBinding

    key :
        (name : String) (args : List Value)
        → Throws IsCoreError (
            invoke b name args
              (λ v. output_mutation_result v (λ w. pure (output_software_key_info w))))
    key name args =
        mutation-Throws b k name args output_software_key_info output_software_key_info-OnlyBinding

    nothing :
        (name : String) (args : List Value)
        → Throws IsCoreError
            (invoke b name args (λ v. output_mutation_result v (λ w. pure (output_null w))))
    nothing name args = mutation-Throws b k name args output_null output_null-OnlyBinding
