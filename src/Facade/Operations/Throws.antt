-- ===== src/Facade/Operations/Throws.antt =====
-- What code over the heap may throw, with one rule for each way to build such code.
use symbol_nem_wallet_core.Prelude.{ℕ, String, ◌≡◌, Bool, true, Option, List, arith}
use symbol_nem_wallet_core.Js.Value.{Value, bytes}
use symbol_nem_wallet_core.Js.Outcome
use symbol_nem_wallet_core.Js.Outcome.{Exception, wallet_error, foreign, Outcome, returned, thrown}
use symbol_nem_wallet_core.Js.Storage.{Storage, Heap, Js, pure, continue, ◌>>=◌}
use symbol_nem_wallet_core.Facade.Errors.{binding_failure, normalize_operation_error}
use symbol_nem_wallet_core.Facade.Errors.Known.{IsCoreError, normalize_operation_error-IsCoreError}
use symbol_nem_wallet_core.Facade.Access.{property}
use symbol_nem_wallet_core.Facade.Bytes.{copy_of, has_length, output_bytes, snapshot_uint8_array}
use symbol_nem_wallet_core.Facade.Output.Throws.{
  OnlyBinding, OnlyBinding-bind, property-OnlyBinding, required_string-OnlyBinding,
  output_chain-OnlyBinding, output_network-OnlyBinding, output_warnings-OnlyBinding,
}
use symbol_nem_wallet_core.Facade.Results.{
  output_public_account, output_signature, output_read_result, output_mutation_result,
}

pub record Throws {A : Type 0} (P : Exception → Type 0) (m : Js A) : Type 0 where
  pub at : (h : Heap) (e : Exception) → (m h).0 ≡ thrown e → P e

-- What the facade turns into an error of the list: anything but a WalletCoreError of another code.
abbrev pub IsNormalizable : Exception → Type 0
IsNormalizable (wallet_error code) = IsCoreError (wallet_error code)
IsNormalizable (foreign error) = Unit

pub normalize-IsCoreError :
    (e : Exception) → IsNormalizable e → IsCoreError (normalize_operation_error e)
unfolding normalize_operation_error
normalize-IsCoreError (wallet_error code) h = h
normalize-IsCoreError (foreign error) h = normalize_operation_error-IsCoreError error

module _ {P : Exception → Type 0} where
  pub Throws-pure :
      {A : Type 0} (m : Outcome A) → ((e : Exception) → m ≡ thrown e → P e) → Throws P (pure m)
  Throws-pure m k = record { at = λ h e t. k e t }

  pub Throws-bind :
      {A B : Type 0} (m : Js A) (f : A → Js B)
      → Throws P m
      → ((a : A) → Throws P (f a))
      → Throws P (m >>= f)
  Throws-bind {A} {B} m f tm tf = record { at = λ h e t. go (m h).0 (m h).1 (tm.at h) e t }
    where
      go :
          (r : Outcome A) (h' : Heap)
          → ((e : Exception) → r ≡ thrown e → P e)
          → (e : Exception) → (continue r f h').0 ≡ thrown e
          → P e
      go (returned a) h' k e t = (tf a).at h' e t
      go (thrown e') h' k e t = k e (ground arith)

copy_of-throws :
    (s : Storage) (fits : List ℕ → Bool) (h : Heap) (e : Exception)
    → (copy_of s fits h).0 ≡ thrown e
    → e ≡ binding_failure
copy_of-throws s fits h e t = ground arith

-- In what follows only `BindingFailure` is thrown.
module _ {P : Exception → Type 0} (p : P binding_failure) where
  pub Throws-OnlyBinding : {A : Type 0} (m : Outcome A) → OnlyBinding m → Throws P (pure m)
  Throws-OnlyBinding m k = record { at = λ h e t. rw (k.at e t) p }

  pub output_bytes-Throws : (v : Value) (len : Option ℕ) → Throws P (output_bytes v len)
  unfolding output_bytes
  output_bytes-Throws (bytes i) len = record {
    at = λ h e t. rw (copy_of-throws (h.storage i) (has_length len) h e t) p;
  }
  output_bytes-Throws _ len = record { at = λ h e t. let q : e ≡ binding_failure = cc in rw q p }

  pub snapshot_uint8_array-Throws : (v : Value) → Throws P (snapshot_uint8_array v)
  unfolding snapshot_uint8_array
  snapshot_uint8_array-Throws (bytes i) = record {
    at = λ h e t. rw (copy_of-throws (h.storage i) (λ _. true) h e t) p;
  }
  snapshot_uint8_array-Throws _ = record {
    at = λ h e t. let q : e ≡ binding_failure = cc in rw q p;
  }

  Throws-returned : {A : Type 0} (a : A) → Throws P (pure (returned a))
  Throws-returned a = record { at = λ h e t. cc }

  property-Throws : (v : Value) (name : String) → Throws P (pure (property v name))
  property-Throws v name = Throws-OnlyBinding _ (property-OnlyBinding v name)

  property_then-Throws :
      {A : Type 0} (v : Value) (name : String) (f : Value → Outcome A)
      → ((w : Value) → OnlyBinding (f w))
      → Throws P (pure (Outcome.◌>>=◌ (property v name) f))
  property_then-Throws v name f k =
      Throws-OnlyBinding _ (OnlyBinding-bind (property v name) f (property-OnlyBinding v name) k)

  pub output_public_account-Throws : (v : Value) → Throws P (output_public_account v)
  unfolding output_public_account
  output_public_account-Throws v =
      search
        (
          Throws-bind, Throws-returned, property-Throws, property_then-Throws, output_bytes-Throws,
          required_string-OnlyBinding, output_chain-OnlyBinding, output_network-OnlyBinding,
        )
        depth 14

  pub output_signature-Throws : (v : Value) → Throws P (output_signature v)
  unfolding output_signature
  output_signature-Throws v = search (Throws-bind, property-Throws, output_bytes-Throws)

  module _ {A : Type 0} (normalizer : Value → Js A)
      (k : (v : Value) → Throws P (normalizer v)) where
    pub output_read_result-Throws : (v : Value) → Throws P (output_read_result v normalizer)
    unfolding output_read_result
    output_read_result-Throws v =
        search
          (
            Throws-bind, Throws-returned, property-Throws, property_then-Throws,
            output_warnings-OnlyBinding, k,
          )
          depth 10

    pub output_mutation_result-Throws : (v : Value) → Throws P (output_mutation_result v normalizer)
    unfolding output_mutation_result
    output_mutation_result-Throws v =
        search
          (
            Throws-bind, Throws-returned, property-Throws, property_then-Throws,
            output_warnings-OnlyBinding, output_bytes-Throws, k,
          )
          depth 14
