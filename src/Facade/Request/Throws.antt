-- ===== src/Facade/Request/Throws.antt =====
-- What the checks and the copies of callers' arguments throw: errors of the code list.
use symbol_nem_wallet_core.Prelude.{
  ℕ, String, ◌≡◌, refl, Bool, true, false, Option, none, some, arith, if◌then◌else◌,
}
use symbol_nem_wallet_core.Js.Value.{
  Value, undefined, string, number, integer, negative_zero, Property, plain, accessor, broken,
  inherited, trapped, property_of,
}
use symbol_nem_wallet_core.Js.Outcome.{Exception, Outcome, returned, thrown, ◌>>=◌}
use symbol_nem_wallet_core.Js.Storage.{Heap}
use symbol_nem_wallet_core.Facade.Errors.{binding_failure, invalid_argument}
use symbol_nem_wallet_core.Facade.Errors.Known.{IsCoreError}
use symbol_nem_wallet_core.Facade.Access.{required_object, own_value, dto_field, dto_field_string}
use symbol_nem_wallet_core.Facade.Output.Throws.{
  OnlyBinding, required_object-OnlyBinding, required_string-OnlyBinding,
}
use symbol_nem_wallet_core.Facade.Validate.{
  validate_uuid_value, validate_network_or_chain, validate_account_index,
}
use symbol_nem_wallet_core.Facade.Request.{
  require, mnemonic_target, key_target, snapshot_export_target, snapshot_export_confirmation,
  snapshot_export_request, snapshot_account_context, snapshot_signing_target,
  snapshot_signing_approval, snapshot_signing_request, with_approval, with_payload, copy_payload,
  with_target,
}
use symbol_nem_wallet_core.Facade.Operations.Throws.{Throws, snapshot_uint8_array-Throws}

pub record OnlyCore {A : Type 0} (m : Outcome A) : Type 0 where
  pub at : (e : Exception) → m ≡ thrown e → IsCoreError e

module _ {A : Type 0} where
  OnlyCore-returned : (a : A) → OnlyCore (returned a)
  OnlyCore-returned a = record { at = λ e h. cc }

  OnlyCore-thrown : (e : Exception) → IsCoreError e → OnlyCore {A = A} (thrown e)
  OnlyCore-thrown e k = record { at = λ e' h. let q : e' ≡ e = ground arith in rw q k }

  OnlyCore-binding : OnlyCore {A = A} (thrown binding_failure)
  OnlyCore-binding = OnlyCore-thrown binding_failure refl

  OnlyCore-argument : OnlyCore {A = A} (thrown invalid_argument)
  OnlyCore-argument = OnlyCore-thrown invalid_argument refl

  OnlyCore-if :
      (b : Bool) (m n : Outcome A) → OnlyCore m → OnlyCore n → OnlyCore (if b then m else n)
  OnlyCore-if true m n hm hn = hm
  OnlyCore-if false m n hm hn = hn

  OnlyCore-OnlyBinding : (m : Outcome A) → OnlyBinding m → OnlyCore m
  OnlyCore-OnlyBinding m k = record { at = λ e h. rw (k.at e h) refl }

OnlyCore-bind :
    {A B : Type 0} (m : Outcome A) (f : A → Outcome B)
    → OnlyCore m
    → ((a : A) → OnlyCore (f a))
    → OnlyCore (m >>= f)
OnlyCore-bind (returned a) f hm hf = hf a
OnlyCore-bind (thrown e) f hm hf = record { at = λ e' h. hm.at e' (ground arith) }

own_value-OnlyCore : (required : Bool) (p : Option Property) → OnlyCore (own_value required p)
own_value-OnlyCore required none = OnlyCore-if required _ _ OnlyCore-argument (OnlyCore-returned _)
own_value-OnlyCore required (some (inherited v)) =
    OnlyCore-if required _ _ OnlyCore-argument (OnlyCore-returned _)
own_value-OnlyCore required (some (plain undefined)) =
    OnlyCore-if required _ _ OnlyCore-argument (OnlyCore-returned _)
own_value-OnlyCore required (some (plain v)) = OnlyCore-returned _
own_value-OnlyCore required (some (accessor v)) = OnlyCore-argument
own_value-OnlyCore required (some (broken e)) = OnlyCore-argument
own_value-OnlyCore required (some (trapped e)) = OnlyCore-binding

dto_field-OnlyCore :
    (v : Value) (name : String) (required : Bool) → OnlyCore (dto_field v name required)
unfolding dto_field
dto_field-OnlyCore v name required =
    OnlyCore-bind (required_object v) _ (OnlyCore-OnlyBinding _ (required_object-OnlyBinding v))
      λ _. own_value-OnlyCore required (property_of v name)

dto_field_string-OnlyCore : (v : Value) (name : String) → OnlyCore (dto_field_string v name)
unfolding dto_field_string
dto_field_string-OnlyCore v name =
    OnlyCore-bind (dto_field v name true) _ (dto_field-OnlyCore v name true)
      λ w. OnlyCore-OnlyBinding _ (required_string-OnlyBinding w)

require-OnlyCore : (b : Bool) → OnlyCore (require b)
require-OnlyCore true = OnlyCore-returned tt
require-OnlyCore false = OnlyCore-argument

pub validate_uuid_value-OnlyCore : (v : Value) → OnlyCore (validate_uuid_value v)
unfolding validate_uuid_value
validate_uuid_value-OnlyCore (string s) = OnlyCore-if _ _ _ (OnlyCore-returned tt) OnlyCore-argument
validate_uuid_value-OnlyCore _ = OnlyCore-binding

pub validate_network_or_chain-OnlyCore : (v : Value) → OnlyCore (validate_network_or_chain v)
unfolding validate_network_or_chain
validate_network_or_chain-OnlyCore (number (integer n)) =
    OnlyCore-if _ _ _ (OnlyCore-returned tt) OnlyCore-argument
validate_network_or_chain-OnlyCore (number negative_zero) = OnlyCore-returned tt
validate_network_or_chain-OnlyCore (number n) = OnlyCore-argument
validate_network_or_chain-OnlyCore _ = OnlyCore-binding

pub validate_account_index-OnlyCore : (v : Value) → OnlyCore (validate_account_index v)
unfolding validate_account_index
validate_account_index-OnlyCore (number (integer n)) =
    OnlyCore-if _ _ _ (OnlyCore-returned tt) (OnlyCore-thrown _ refl)
validate_account_index-OnlyCore (number negative_zero) = OnlyCore-returned tt
validate_account_index-OnlyCore (number n) = OnlyCore-thrown _ refl
validate_account_index-OnlyCore _ = OnlyCore-binding

mnemonic_target-OnlyCore : (k p : String) (v : Value) → OnlyCore (mnemonic_target k p v)
mnemonic_target-OnlyCore k p undefined = OnlyCore-returned _
mnemonic_target-OnlyCore k p (string s) = OnlyCore-argument
mnemonic_target-OnlyCore k p _ = OnlyCore-binding

key_target-OnlyCore : (k p : String) (v : Value) → OnlyCore (key_target k p v)
key_target-OnlyCore k p undefined = OnlyCore-argument
key_target-OnlyCore k p v =
    OnlyCore-bind (validate_uuid_value _) _ (validate_uuid_value-OnlyCore _)
      λ _. OnlyCore-returned _

ruleset core_rules = (
  OnlyCore-returned, OnlyCore-if, OnlyCore-bind, dto_field-OnlyCore, dto_field_string-OnlyCore,
  require-OnlyCore, validate_uuid_value-OnlyCore, mnemonic_target-OnlyCore, key_target-OnlyCore,
)

snapshot_export_target-OnlyCore : (v : Value) → OnlyCore (snapshot_export_target v)
unfolding snapshot_export_target
snapshot_export_target-OnlyCore v = search core_rules depth 14

snapshot_export_confirmation-OnlyCore :
    (v : Value) (s t : String) → OnlyCore (snapshot_export_confirmation v s t)
unfolding snapshot_export_confirmation
snapshot_export_confirmation-OnlyCore v s t =
    search (core_rules, snapshot_export_target-OnlyCore) depth 14

pub snapshot_export_request-OnlyCore : (v : Value) → OnlyCore (snapshot_export_request v)
unfolding snapshot_export_request
snapshot_export_request-OnlyCore v =
    search (core_rules, snapshot_export_target-OnlyCore, snapshot_export_confirmation-OnlyCore)
      depth 14

pub snapshot_account_context-OnlyCore : (v : Value) → OnlyCore (snapshot_account_context v)
unfolding snapshot_account_context
snapshot_account_context-OnlyCore v = search core_rules depth 14

snapshot_signing_target-OnlyCore : (v : Value) → OnlyCore (snapshot_signing_target v)
unfolding snapshot_signing_target
snapshot_signing_target-OnlyCore v = search (core_rules, snapshot_account_context-OnlyCore) depth 16

snapshot_signing_approval-OnlyCore : (v : Value) → OnlyCore (snapshot_signing_approval v)
unfolding snapshot_signing_approval
snapshot_signing_approval-OnlyCore v = search core_rules depth 14

with_approval-throws :
    (t : Value) (p : ℕ) (m : Outcome Value) (h : Heap)
    → OnlyCore m
    → OnlyCore (with_approval t p m h).0
with_approval-throws t p (returned a) h k = OnlyCore-returned _
with_approval-throws t p (thrown e) h k = OnlyCore-thrown e (k.at e refl)

with_payload-throws :
    (t : Value) (p : Outcome ℕ) (m : Outcome Value) (h : Heap)
    → OnlyCore p
    → OnlyCore m
    → OnlyCore (with_payload t p m h).0
with_payload-throws t (returned p) m h kp k = with_approval-throws t p m h k
with_payload-throws t (thrown e) m h kp k = OnlyCore-thrown e (kp.at e refl)

copy_payload-throws : (m : Outcome Value) (h : Heap) → OnlyCore m → OnlyCore (copy_payload m h).0
copy_payload-throws (returned v) h k = record {
  at = (snapshot_uint8_array-Throws {P = IsCoreError} refl v).at h;
}
copy_payload-throws (thrown e) h k = OnlyCore-thrown e (k.at e refl)

with_target-throws :
    (v : Value) (m : Outcome Value) (h : Heap) → OnlyCore m → OnlyCore (with_target v m h).0
with_target-throws v (returned t) h k =
    with_payload-throws t _ _ _
      (copy_payload-throws (dto_field v "payload" true) h (dto_field-OnlyCore v "payload" true))
      (OnlyCore-bind (dto_field v "approval" true) _ (dto_field-OnlyCore v "approval" true)
        snapshot_signing_approval-OnlyCore)
with_target-throws v (thrown e) h k = OnlyCore-thrown e (k.at e refl)

pub snapshot_signing_request-Throws : (v : Value) → Throws IsCoreError (snapshot_signing_request v)
unfolding snapshot_signing_request
snapshot_signing_request-Throws v = record {
  at = λ h.
      let k = with_target-throws v (dto_field v "target" true >>= snapshot_signing_target) h (
        OnlyCore-bind (dto_field v "target" true) _ (dto_field-OnlyCore v "target" true)
          snapshot_signing_target-OnlyCore) in
      k.at;
}
