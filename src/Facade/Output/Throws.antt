-- ===== src/Facade/Output/Throws.antt =====
-- Whatever a backend hands over, the conversions throw `BindingFailure` and nothing else.
use symbol_nem_wallet_core.Prelude.{
  String, ◌≡◌, Bool, true, false, List, [], ◌∷◌, arith, if◌then◌else◌,
}
use symbol_nem_wallet_core.Js.Value.{
  Value, undefined, null, string, number, array, Number, integer, negative_zero, not_finite,
  is_object, items,
}
use symbol_nem_wallet_core.Js.Outcome.{Exception, Outcome, returned, thrown, ◌>>=◌, traverse}
use symbol_nem_wallet_core.Facade.Errors.{binding_failure, read}
use symbol_nem_wallet_core.Facade.Access.{
  required_object, required_string, required_number, or_binding_failure, property,
}
use symbol_nem_wallet_core.Facade.Output.{
  optional_string, whole_number, derivation_index, no_index, output_network, output_chain,
  output_warning, output_warnings, output_profile_info, derived_origin, keyless_origin,
  output_software_key_origin, output_software_key_info, output_software_key_list_item,
  output_profiles, output_software_keys, output_null,
}

pub record OnlyBinding {ℓ} {A : Type ℓ} (m : Outcome A) : Type ℓ where
  pub at : (e : Exception) → m ≡ thrown e → e ≡ binding_failure

module _ {ℓ} {A : Type ℓ} where
  pub OnlyBinding-returned : (a : A) → OnlyBinding (returned a)
  OnlyBinding-returned a = record { at = λ e h. cc }

  pub OnlyBinding-thrown : OnlyBinding {A = A} (thrown binding_failure)
  OnlyBinding-thrown = record { at = λ e h. cc }

  pub OnlyBinding-or : (m : Outcome A) → OnlyBinding (or_binding_failure m)
  OnlyBinding-or (returned a) = OnlyBinding-returned a
  OnlyBinding-or (thrown e) = OnlyBinding-thrown

  pub OnlyBinding-if :
      (b : Bool) (m n : Outcome A)
      → OnlyBinding m
      → OnlyBinding n
      → OnlyBinding (if b then m else n)
  OnlyBinding-if true m n hm hn = hm
  OnlyBinding-if false m n hm hn = hn

pub OnlyBinding-bind {ℓ κ} :
    {A : Type ℓ} {B : Type κ} (m : Outcome A) (f : A → Outcome B)
    → OnlyBinding m
    → ((a : A) → OnlyBinding (f a))
    → OnlyBinding (m >>= f)
OnlyBinding-bind (returned a) f hm hf = hf a
OnlyBinding-bind (thrown e) f hm hf = record { at = λ e' h. hm.at e' (ground arith) }

pub OnlyBinding-traverse {ℓ κ} :
    {A : Type ℓ} {B : Type κ} (f : A → Outcome B)
    → ((a : A) → OnlyBinding (f a))
    → (xs : List A) → OnlyBinding (traverse f xs)
unfolding traverse
OnlyBinding-traverse f hf [] = OnlyBinding-returned []
OnlyBinding-traverse f hf (x ∷ xs) = OnlyBinding-bind (f x) _ (hf x) λ y.
    OnlyBinding-bind (traverse f xs) _ (OnlyBinding-traverse f hf xs) λ ys. OnlyBinding-returned _

pub required_object-OnlyBinding : (v : Value) → OnlyBinding (required_object v)
unfolding required_object
required_object-OnlyBinding v =
    OnlyBinding-if (is_object v) _ _ (OnlyBinding-returned v) OnlyBinding-thrown

pub property-OnlyBinding : (v : Value) (name : String) → OnlyBinding (property v name)
unfolding property
property-OnlyBinding v name =
    OnlyBinding-bind (required_object v) _ (required_object-OnlyBinding v)
      λ _. OnlyBinding-or (read v name)

pub required_string-OnlyBinding : (v : Value) → OnlyBinding (required_string v)
unfolding required_string
required_string-OnlyBinding (string s) = OnlyBinding-returned s
required_string-OnlyBinding _ = OnlyBinding-thrown

required_number-OnlyBinding : (v : Value) → OnlyBinding (required_number v)
unfolding required_number
required_number-OnlyBinding (number (not_finite n)) = OnlyBinding-thrown
required_number-OnlyBinding (number n) = OnlyBinding-returned _
required_number-OnlyBinding _ = OnlyBinding-thrown

pub output_network-OnlyBinding : (v : Value) → OnlyBinding (output_network v)
unfolding output_network
output_network-OnlyBinding (string s) =
    OnlyBinding-if _ _ _ (OnlyBinding-returned s) OnlyBinding-thrown
output_network-OnlyBinding _ = OnlyBinding-thrown

pub output_chain-OnlyBinding : (v : Value) → OnlyBinding (output_chain v)
unfolding output_chain
output_chain-OnlyBinding (string s) =
    OnlyBinding-if _ _ _ (OnlyBinding-returned s) OnlyBinding-thrown
output_chain-OnlyBinding _ = OnlyBinding-thrown

optional_string-OnlyBinding : (v : Value) → OnlyBinding (optional_string v)
optional_string-OnlyBinding undefined = OnlyBinding-returned _
optional_string-OnlyBinding (string s) = OnlyBinding-returned _
optional_string-OnlyBinding _ = OnlyBinding-thrown

whole_number-OnlyBinding : (n : Number) → OnlyBinding (whole_number n)
whole_number-OnlyBinding (integer n) = OnlyBinding-returned _
whole_number-OnlyBinding negative_zero = OnlyBinding-returned _
whole_number-OnlyBinding _ = OnlyBinding-thrown

derivation_index-OnlyBinding : (n : Number) → OnlyBinding (derivation_index n)
derivation_index-OnlyBinding (integer n) =
    OnlyBinding-if _ _ _ (OnlyBinding-returned _) OnlyBinding-thrown
derivation_index-OnlyBinding negative_zero = OnlyBinding-returned _
derivation_index-OnlyBinding _ = OnlyBinding-thrown

no_index-OnlyBinding : (v : Value) → OnlyBinding (no_index v)
no_index-OnlyBinding undefined = OnlyBinding-returned _
no_index-OnlyBinding null = OnlyBinding-returned _
no_index-OnlyBinding _ = OnlyBinding-thrown

ruleset binding_rules = (
  OnlyBinding-returned, OnlyBinding-thrown, OnlyBinding-if, OnlyBinding-bind, property-OnlyBinding,
  required_string-OnlyBinding, required_number-OnlyBinding, output_network-OnlyBinding,
  output_chain-OnlyBinding, optional_string-OnlyBinding, whole_number-OnlyBinding,
  derivation_index-OnlyBinding, no_index-OnlyBinding, required_object-OnlyBinding,
)

output_warning-OnlyBinding : (v : Value) → OnlyBinding (output_warning v)
unfolding output_warning
output_warning-OnlyBinding v = search binding_rules depth 16

pub output_warnings-OnlyBinding : (v : Value) → OnlyBinding (output_warnings v)
unfolding output_warnings
output_warnings-OnlyBinding (array ws) =
    OnlyBinding-traverse output_warning output_warning-OnlyBinding (items ws)
output_warnings-OnlyBinding _ = OnlyBinding-thrown

pub output_profile_info-OnlyBinding : (v : Value) → OnlyBinding (output_profile_info v)
unfolding output_profile_info
output_profile_info-OnlyBinding v = search binding_rules depth 16

derived_origin-OnlyBinding : (k : String) (v : Value) → OnlyBinding (derived_origin k v)
derived_origin-OnlyBinding k v = search binding_rules depth 16

keyless_origin-OnlyBinding : (k : String) (v : Value) → OnlyBinding (keyless_origin k v)
keyless_origin-OnlyBinding k v = search binding_rules depth 16

output_software_key_origin-OnlyBinding : (v : Value) → OnlyBinding (output_software_key_origin v)
unfolding output_software_key_origin
output_software_key_origin-OnlyBinding v =
    search (binding_rules, derived_origin-OnlyBinding, keyless_origin-OnlyBinding) depth 16

pub output_software_key_info-OnlyBinding : (v : Value) → OnlyBinding (output_software_key_info v)
unfolding output_software_key_info
output_software_key_info-OnlyBinding v =
    search (binding_rules, output_software_key_origin-OnlyBinding) depth 16

output_software_key_list_item-OnlyBinding :
    (v : Value) → OnlyBinding (output_software_key_list_item v)
unfolding output_software_key_list_item
output_software_key_list_item-OnlyBinding v = search binding_rules depth 16

pub output_profiles-OnlyBinding : (v : Value) → OnlyBinding (output_profiles v)
unfolding output_profiles
output_profiles-OnlyBinding (array vs) =
    OnlyBinding-traverse output_profile_info output_profile_info-OnlyBinding (items vs)
output_profiles-OnlyBinding _ = OnlyBinding-thrown

pub output_software_keys-OnlyBinding : (v : Value) → OnlyBinding (output_software_keys v)
unfolding output_software_keys
output_software_keys-OnlyBinding (array vs) =
    OnlyBinding-traverse output_software_key_list_item output_software_key_list_item-OnlyBinding
      (items vs)
output_software_keys-OnlyBinding _ = OnlyBinding-thrown

pub output_null-OnlyBinding : (v : Value) → OnlyBinding (output_null v)
unfolding output_null
output_null-OnlyBinding null = OnlyBinding-returned _
output_null-OnlyBinding _ = OnlyBinding-thrown
