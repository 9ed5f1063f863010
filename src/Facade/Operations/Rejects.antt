-- ===== src/Facade/Operations/Rejects.antt =====
-- The facade checks its arguments first: a backend sees valid ones only.
use symbol_nem_wallet_core.Prelude.{◌≡◌, refl, ◌⊎◌, inl, inr}
use symbol_nem_wallet_core.Js.Value.{Value}
use symbol_nem_wallet_core.Js.Outcome.{Exception, Outcome, returned, thrown}
use symbol_nem_wallet_core.Js.Storage.{Heap, Js, pure, ◌>>=◌}
use symbol_nem_wallet_core.Facade.Errors.Known.{IsCoreError}
use symbol_nem_wallet_core.Facade.Validate.{
  validate_uuid_value, validate_network_or_chain, validate_account_index,
}
use symbol_nem_wallet_core.Facade.Validate.Values.{
  IsUuidValue, IsNetworkOrChain, IsAccountIndex, validate_uuid_value-IsUuidValue,
  validate_network_or_chain-IsNetworkOrChain, validate_account_index-IsAccountIndex,
}
use symbol_nem_wallet_core.Facade.Request.{snapshot_export_request, snapshot_account_context}
use symbol_nem_wallet_core.Facade.Request.Export.{IsExportRequest, snapshot_export_request-Returns}
use symbol_nem_wallet_core.Facade.Request.Signing.{
  IsAccountContext, snapshot_account_context-Returns,
}
use symbol_nem_wallet_core.Facade.Request.Throws.{
  OnlyCore, validate_uuid_value-OnlyCore, validate_network_or_chain-OnlyCore,
  validate_account_index-OnlyCore, snapshot_export_request-OnlyCore,
  snapshot_account_context-OnlyCore,
}
use symbol_nem_wallet_core.Facade.Operations
use symbol_nem_wallet_core.Facade.Operations.{
  Backend, prepare_generated_profile, restore_profile, export_mnemonic, export_private_key,
  list_software_keys, derive_software_key, import_software_key, generate_software_key,
  get_public_account, sign, change_profile_password, delete_software_key, delete_profile,
}
use symbol_nem_wallet_core.Facade.Bytes.Copying.{KeepsOld}
use symbol_nem_wallet_core.Facade.Secret.Leaks.{NewIsCleared}
use symbol_nem_wallet_core.Facade.Request.Copied.{
  IsRequestCopy, IsRefused, snapshot_signing_request-cases,
}

-- The call throws an error of the list, the same for every backend, and the heap stays as it is.
pub record IsRejected {A : Type 0} (m : Backend → Js A) : Type 0 where
  pub error : Exception
  pub known : IsCoreError error
  pub at : (b : Backend) (h : Heap) → m b h ≡ (thrown error, h)

module _ {A B : Type 0} {P Q : Type 0} where
  check :
      (m : Outcome A) (f : Backend → A → Js B)
      → OnlyCore m
      → ((a : A) → m ≡ returned a → P)
      → ((a : A) → Q ⊎ IsRejected (λ b. f b a))
      → (P × Q) ⊎ IsRejected (λ b. pure m >>= f b)
  check (returned a) f k p q = elim (q a) [
    | inl v ↦ inl (p a refl, v)
    | inr r ↦ inr (record { error = r.error; known = r.known; at = r.at })
  ]
  check (thrown e) f k p q = inr (record { error = e; known = k.at e refl; at = λ b h. refl })

check_last :
    {A B P : Type 0} (m : Outcome A) (f : Backend → A → Js B)
    → OnlyCore m
    → ((a : A) → m ≡ returned a → P)
    → P ⊎ IsRejected (λ b. pure m >>= f b)
check_last (returned a) f k p = inl (p a refl)
check_last (thrown e) f k p = inr (record { error = e; known = k.at e refl; at = λ b h. refl })

-- What a request object is copied to, if its copy is well formed.
abbrev pub CopiesTo : (Value → Outcome Value) → (Value → Type 0) → Value → Type 0
CopiesTo snapshot P v = (s : Value) × (snapshot v ≡ returned s) × P s

-- From a heap, the call throws an error of the list, the same for every backend; no array of before
-- is changed, and what is new is cleared.
pub record IsRejectedFrom {A : Type 0} (h : Heap) (m : Backend → Js A) : Type 0 where
  pub error : Exception
  pub known : IsCoreError error
  pub after : Heap
  pub at : (b : Backend) → m b h ≡ (thrown error, after)
  pub cleared : NewIsCleared h after
  pub kept : KeepsOld h after

-- For each operation that checks arguments: they are valid, or the call is rejected.
pub record ChecksFirst : Type 0 where
  pub prepare_generated_profile :
      (s p n : Value)
      → IsNetworkOrChain n ⊎ IsRejected (λ b. Operations.prepare_generated_profile b s p n)
  pub restore_profile :
      (s m p n : Value)
      → IsNetworkOrChain n ⊎ IsRejected (λ b. Operations.restore_profile b s m p n)
  pub export_mnemonic :
      (s r p : Value)
      → CopiesTo snapshot_export_request IsExportRequest r
        ⊎ IsRejected (λ b. Operations.export_mnemonic b s r p)
  pub export_private_key :
      (s r p : Value)
      → CopiesTo snapshot_export_request IsExportRequest r
        ⊎ IsRejected (λ b. Operations.export_private_key b s r p)
  pub list_software_keys :
      (s i : Value) → IsUuidValue i ⊎ IsRejected (λ b. Operations.list_software_keys b s i)
  pub derive_software_key :
      (s i p c a : Value)
      → (IsUuidValue i × (IsNetworkOrChain c × IsAccountIndex a))
        ⊎ IsRejected (λ b. Operations.derive_software_key b s i p c a)
  pub import_software_key :
      (s i p c k : Value)
      → (IsUuidValue i × IsNetworkOrChain c)
        ⊎ IsRejected (λ b. Operations.import_software_key b s i p c k)
  pub generate_software_key :
      (s i p c : Value)
      → (IsUuidValue i × IsNetworkOrChain c)
        ⊎ IsRejected (λ b. Operations.generate_software_key b s i p c)
  pub get_public_account :
      (s i k c p : Value)
      → (IsUuidValue i × (IsUuidValue k × CopiesTo snapshot_account_context IsAccountContext c))
        ⊎ IsRejected (λ b. Operations.get_public_account b s i k c p)
  pub sign :
      (s r p : Value) (h : Heap)
      → IsRequestCopy r h ⊎ IsRejectedFrom h (λ b. Operations.sign b s r p)
  pub change_profile_password :
      (s i p q : Value)
      → IsUuidValue i ⊎ IsRejected (λ b. Operations.change_profile_password b s i p q)
  pub delete_software_key :
      (s i k p : Value)
      → (IsUuidValue i × IsUuidValue k) ⊎ IsRejected (λ b. Operations.delete_software_key b s i k p)
  pub delete_profile :
      (s i p : Value) → IsUuidValue i ⊎ IsRejected (λ b. Operations.delete_profile b s i p)

export_copies :
    (r s : Value)
    → snapshot_export_request r ≡ returned s
    → CopiesTo snapshot_export_request IsExportRequest r
export_copies r s t = (s, t, (snapshot_export_request-Returns r).at s t)

context_copies :
    (c s : Value)
    → snapshot_account_context c ≡ returned s
    → CopiesTo snapshot_account_context IsAccountContext c
context_copies c s t = (s, t, (snapshot_account_context-Returns c).at s t)

module _ {B : Type 0} (v : Value) where
  uuid_last :
      (f : Backend → Unit {0} → Js B)
      → IsUuidValue v ⊎ IsRejected (λ b. pure (validate_uuid_value v) >>= f b)
  uuid_last f =
      check_last (validate_uuid_value v) f (validate_uuid_value-OnlyCore v)
        (validate_uuid_value-IsUuidValue v)

  network_last :
      (f : Backend → Unit {0} → Js B)
      → IsNetworkOrChain v ⊎ IsRejected (λ b. pure (validate_network_or_chain v) >>= f b)
  network_last f =
      check_last (validate_network_or_chain v) f (validate_network_or_chain-OnlyCore v)
        (validate_network_or_chain-IsNetworkOrChain v)

  index_last :
      (f : Backend → Unit {0} → Js B)
      → IsAccountIndex v ⊎ IsRejected (λ b. pure (validate_account_index v) >>= f b)
  index_last f =
      check_last (validate_account_index v) f (validate_account_index-OnlyCore v)
        (validate_account_index-IsAccountIndex v)

module _ {B Q : Type 0} (v : Value) where
  uuid :
      (f : Backend → Unit {0} → Js B)
      → ((u : Unit {0}) → Q ⊎ IsRejected (λ b. f b u))
      → (IsUuidValue v × Q) ⊎ IsRejected (λ b. pure (validate_uuid_value v) >>= f b)
  uuid f q =
      check (validate_uuid_value v) f (validate_uuid_value-OnlyCore v)
        (validate_uuid_value-IsUuidValue v) q

  network :
      (f : Backend → Unit {0} → Js B)
      → ((u : Unit {0}) → Q ⊎ IsRejected (λ b. f b u))
      → (IsNetworkOrChain v × Q) ⊎ IsRejected (λ b. pure (validate_network_or_chain v) >>= f b)
  network f q =
      check (validate_network_or_chain v) f (validate_network_or_chain-OnlyCore v)
        (validate_network_or_chain-IsNetworkOrChain v) q

sign_refused :
    (s r p : Value) (h : Heap) → IsRefused r h → IsRejectedFrom h (λ b. Operations.sign b s r p)
unfolding sign
sign_refused s r p h k = record {
  error = k.error;
  known = k.known;
  after = k.after;
  at = λ b. rw k.refused refl;
  cleared = k.cleared;
  kept = k.kept;
}

sign_checks :
    (s r p : Value) (h : Heap)
    → IsRequestCopy r h ⊎ IsRefused r h
    → IsRequestCopy r h ⊎ IsRejectedFrom h (λ b. Operations.sign b s r p)
sign_checks s r p h (inl copied) = inl copied
sign_checks s r p h (inr refused) = inr (sign_refused s r p h refused)

-- For every operation with checked arguments, either the arguments are valid (ids are UUIDs, a
-- network or chain is 0 or 1, an account index is at most 2147483647, a request has a well-formed
-- copy), or the call throws an error of the list, without calling the backend; the heap stays as it
-- is, but for sign, which leaves the arrays of before as they are and clears the copy it made.
pub operations-ChecksFirst : ChecksFirst
unfolding prepare_generated_profile restore_profile export_mnemonic export_private_key
    list_software_keys derive_software_key import_software_key generate_software_key
    get_public_account change_profile_password delete_software_key delete_profile
operations-ChecksFirst = record {
  prepare_generated_profile = λ s p n. network_last n _;
  restore_profile = λ s m p n. network_last n _;
  export_mnemonic = λ s r p.
      check_last (snapshot_export_request r) _ (snapshot_export_request-OnlyCore r)
        (export_copies r);
  export_private_key = λ s r p.
      check_last (snapshot_export_request r) _ (snapshot_export_request-OnlyCore r)
        (export_copies r);
  list_software_keys = λ s i. uuid_last i _;
  derive_software_key = λ s i p c a. uuid i _ λ _. network c _ λ _. index_last a _;
  import_software_key = λ s i p c k. uuid i _ λ _. network_last c _;
  generate_software_key = λ s i p c. uuid i _ λ _. network_last c _;
  get_public_account = λ s i k c p. uuid i _ λ _. uuid k _ λ _.
      check_last (snapshot_account_context c) _ (snapshot_account_context-OnlyCore c)
        (context_copies c);
  sign = λ s r p h. sign_checks s r p h (snapshot_signing_request-cases r h);
  change_profile_password = λ s i p q. uuid_last i _;
  delete_software_key = λ s i k p. uuid i _ λ _. uuid_last k _;
  delete_profile = λ s i p. uuid_last i _;
}
