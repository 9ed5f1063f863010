-- ===== src/Facade/Access.antt =====
-- facade-runtime.mjs: reading fields of backend values and of callers' request objects.
use symbol_nem_wallet_core.Prelude.{String, Bool, true, false, Option, none, some, if◌then◌else◌}
use symbol_nem_wallet_core.Js.Value.{
  Value, undefined, number, string, Number, not_finite, Property, plain, accessor, broken,
  inherited, trapped, property_of, is_object,
}
use symbol_nem_wallet_core.Js.Outcome.{Outcome, returned, thrown, ◌>>=◌}
use symbol_nem_wallet_core.Facade.Errors.{binding_failure, invalid_argument, read}

unfoldable pub required_object : Value → Outcome Value
required_object value = if is_object value then returned value else thrown binding_failure

unfoldable pub required_string : Value → Outcome String
required_string (string s) = returned s
required_string _ = thrown binding_failure

unfoldable pub required_number : Value → Outcome Number
required_number (number (not_finite n)) = thrown binding_failure
required_number (number n) = returned n
required_number _ = thrown binding_failure

-- `catch { throw bindingFailure(); }`
abbrev pub or_binding_failure {ℓ} : {A : Type ℓ} → Outcome A → Outcome A
or_binding_failure (returned a) = returned a
or_binding_failure (thrown e) = thrown binding_failure

unfoldable pub property : Value → String → Outcome Value
property value name = required_object value >>= λ _. or_binding_failure (read value name)

abbrev is_undefined : Value → Bool
is_undefined undefined = true
is_undefined _ = false

-- what dtoField does with an own property's descriptor, or with none
abbrev pub own_value : Bool → Option Property → Outcome Value
own_value required none = if required then thrown invalid_argument else returned undefined
own_value required (some (inherited v)) =
    if required then thrown invalid_argument else returned undefined
own_value required (some (plain undefined)) =
    if required then thrown invalid_argument else returned undefined
own_value required (some (plain v)) = returned v
own_value required (some (accessor v)) = thrown invalid_argument
own_value required (some (broken e)) = thrown invalid_argument
own_value required (some (trapped e)) = thrown binding_failure

unfoldable pub dto_field : Value → String → Bool → Outcome Value
dto_field value name required =
    required_object value >>= λ _. own_value required (property_of value name)

unfoldable pub dto_field_string : Value → String → Outcome String
dto_field_string value name = dto_field value name true >>= required_string
