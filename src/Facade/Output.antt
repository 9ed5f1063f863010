-- ===== src/Facade/Output.antt =====
-- facade-runtime.mjs: what the facade hands out, rebuilt field by field from a backend's values.
pub mod Throws
pub mod Values
use symbol_nem_wallet_core.Prelude.{
  String, ◌||◌, Option, none, some, List, ◌===◌, leb, if◌then◌else◌,
}
use symbol_nem_wallet_core.Js.Value.{
  Value, undefined, null, string, array, Number, integer, negative_zero, items,
}
use symbol_nem_wallet_core.Js.Outcome.{Outcome, returned, thrown, ◌>>=◌, ◌>>◌, traverse}
use symbol_nem_wallet_core.Facade.Errors.{binding_failure}
use symbol_nem_wallet_core.Facade.Access.{property, required_string, required_number}
use symbol_nem_wallet_core.Facade.Validate.{max_account_index}

pub record Warning : Type 0 where
  pub code : String
  pub object_type : String
  pub object_id : Option String
  pub field : Option String

pub record ProfileInfo : Type 0 where
  pub profile_id : String
  pub network : String
  pub software_key_count : Number

pub record Origin : Type 0 where
  pub kind : String
  -- `null` is `none`
  pub account_index : Option Number

pub record SoftwareKeyInfo : Type 0 where
  pub key_id : String
  pub chain : String
  pub origin : Origin

pub record SoftwareKeyListItem : Type 0 where
  pub key_id : String
  pub chain : String

abbrev string_property : Value → String → Outcome String
string_property value name = property value name >>= required_string

unfoldable pub output_network : Value → Outcome String
output_network (string s) =
    if s === "testnet" || s === "mainnet" then returned s else thrown binding_failure
output_network _ = thrown binding_failure

unfoldable pub output_chain : Value → Outcome String
output_chain (string s) =
    if s === "nem" || s === "symbol" then returned s else thrown binding_failure
output_chain _ = thrown binding_failure

-- `if (value !== undefined && typeof value !== "string") throw bindingFailure();`
abbrev optional_string : Value → Outcome (Option String)
optional_string undefined = returned none
optional_string (string s) = returned (some s)
optional_string _ = thrown binding_failure

unfoldable pub output_warning : Value → Outcome Warning
output_warning warning = do
  code ← string_property warning "code"
  object_type ← string_property warning "object_type"
  object_id_value ← property warning "object_id"
  field_value ← property warning "field"
  object_id ← optional_string object_id_value
  warned_field ← optional_string field_value
  returned (record {
    code = code;
    object_type = object_type;
    object_id = object_id;
    field = warned_field;
  })

unfoldable pub output_warnings : Value → Outcome (List Warning)
output_warnings (array ws) = traverse output_warning (items ws)
output_warnings _ = thrown binding_failure

-- Number.isInteger(count) && count >= 0
abbrev whole_number : Number → Outcome Number
whole_number (integer n) = returned (integer n)
whole_number negative_zero = returned negative_zero
whole_number _ = thrown binding_failure

unfoldable pub output_profile_info : Value → Outcome ProfileInfo
output_profile_info value = do
  profile_id ← string_property value "profile_id"
  network ← property value "network" >>= output_network
  count ← property value "software_key_count" >>= required_number >>= whole_number
  returned (record { profile_id = profile_id; network = network; software_key_count = count })

-- Number.isInteger(index) && index >= 0 && index <= 2_147_483_647
abbrev derivation_index : Number → Outcome Number
derivation_index (integer n) =
    if leb n max_account_index then returned (integer n) else thrown binding_failure
derivation_index negative_zero = returned negative_zero
derivation_index _ = thrown binding_failure

abbrev no_index : Value → Outcome (Unit {0})
no_index undefined = returned tt
no_index null = returned tt
no_index _ = thrown binding_failure

abbrev derived_origin : String → Value → Outcome Origin
derived_origin kind account_index = do
  index ← required_number account_index >>= derivation_index
  returned (record { kind = kind; account_index = some index })

abbrev keyless_origin : String → Value → Outcome Origin
keyless_origin kind account_index = do
  no_index account_index
  returned (record { kind = kind; account_index = none })

unfoldable pub output_software_key_origin : Value → Outcome Origin
output_software_key_origin value = do
  kind ← string_property value "kind"
  account_index ← property value "account_index"
  if kind === "derived"
      then derived_origin kind account_index
      else if kind === "imported" || kind === "generated"
      then keyless_origin kind account_index
      else thrown binding_failure

unfoldable pub output_software_key_info : Value → Outcome SoftwareKeyInfo
output_software_key_info value = do
  key_id ← string_property value "key_id"
  chain ← property value "chain" >>= output_chain
  origin ← property value "origin" >>= output_software_key_origin
  returned (record { key_id = key_id; chain = chain; origin = origin })

unfoldable pub output_software_key_list_item : Value → Outcome SoftwareKeyListItem
output_software_key_list_item value = do
  key_id ← string_property value "key_id"
  chain ← property value "chain" >>= output_chain
  returned (record { key_id = key_id; chain = chain })

unfoldable pub output_profiles : Value → Outcome (List ProfileInfo)
output_profiles (array vs) = traverse output_profile_info (items vs)
output_profiles _ = thrown binding_failure

unfoldable pub output_software_keys : Value → Outcome (List SoftwareKeyListItem)
output_software_keys (array vs) = traverse output_software_key_list_item (items vs)
output_software_keys _ = thrown binding_failure

unfoldable pub output_null : Value → Outcome (Unit {0})
output_null null = returned tt
output_null _ = thrown binding_failure
