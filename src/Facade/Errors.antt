-- ===== src/Facade/Errors.antt =====
-- facade-runtime.mjs: the stable error codes, and what becomes of an error that the backend throws.
pub mod Known
use symbol_nem_wallet_core.Prelude.{
  String, Option, none, some, List, [], ◌∷◌, ◌++◌, contains, if◌then◌else◌,
}
use symbol_nem_wallet_core.Js.Value.{
  Value, undefined, string, object, plain, accessor, broken, inherited, trapped, Property,
  other_prototype, end, field, property_of, is_object,
}
use symbol_nem_wallet_core.Js.Outcome.{Exception, wallet_error, foreign, Outcome, returned, thrown}

-- CORE_ERROR_CODES
abbrev pub core_error_codes : List String
core_error_codes =
    "InvalidArgument" ∷ "InvalidStore" ∷ "UnsupportedStoreVersion"
    ∷ "UnsupportedProfileSchemaVersion" ∷ "ProfileNotFound" ∷ "SoftwareKeyNotFound"
    ∷ "AuthenticationFailed" ∷ "InvalidMnemonic" ∷ "InvalidPrivateKey" ∷ "DuplicateProfile"
    ∷ "DuplicateSoftwareKey" ∷ "InvalidAccountIndex" ∷ "NetworkMismatch" ∷ "CryptoFailure"
    ∷ "RandomSourceFailure" ∷ "SerializationFailure" ∷ "PendingProfileInvalid" ∷ "BindingFailure"
    ∷ []

abbrev pub binding_failure : Exception
binding_failure = wallet_error "BindingFailure"

abbrev pub invalid_argument : Exception
invalid_argument = wallet_error "InvalidArgument"

abbrev pub invalid_account_index : Exception
invalid_account_index = wallet_error "InvalidAccountIndex"

-- `new Error(message)` as a value
abbrev pub error_object : String → Value
error_object message = object other_prototype (field "message" (plain (string message)) end)

abbrev pub found_value : Option Property → Outcome Value
found_value none = returned undefined
found_value (some (plain v)) = returned v
found_value (some (accessor v)) = returned v
found_value (some (broken e)) = thrown (foreign e)
found_value (some (inherited v)) = returned v
found_value (some (trapped e)) = thrown (foreign e)

-- value[name], of an object
unfoldable pub read : Value → String → Outcome Value
read value name = found_value (property_of value name)

-- [value].filter((value) => typeof value === "string")
abbrev string_only : Value → List String
string_only (string s) = s ∷ []
string_only _ = []

abbrev string_fields : Outcome Value → Outcome Value → List String
string_fields (returned code) (returned message) = string_only code ++ string_only message
string_fields (returned code) (thrown e) = []
string_fields (thrown e) message = []

unfoldable pub candidates : Value → List String
candidates (string s) = s ∷ []
candidates error =
    if is_object error then string_fields (read error "code") (read error "message") else []

-- candidates.find((value) => CORE_ERROR_CODES.has(value))
unfoldable pub first_core_code : List String → Option String
first_core_code [] = none
first_core_code (c ∷ cs) = if contains core_error_codes c then some c else first_core_code cs

abbrev from_candidate : Option String → Exception
from_candidate none = binding_failure
from_candidate (some code) = wallet_error code

unfoldable pub normalize_operation_error : Exception → Exception
normalize_operation_error (wallet_error code) = wallet_error code
normalize_operation_error (foreign error) = from_candidate (first_core_code (candidates error))
