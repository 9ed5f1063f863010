-- ===== src/Js/Value.antt =====
-- JavaScript values as the code tells them apart. An object lists its properties; of several
-- entries with one name the first counts. What a getter yields is fixed beforehand.
use symbol_nem_wallet_core.Prelude.{
  ℕ, String, Bool, true, false, Option, none, some, List, [], ◌∷◌, ◌===◌, if◌then◌else◌,
}

-- A number: an integer (`negative n` is -(n + 1)), -0, another finite number, NaN or an infinity.
pub data Number : Type 0 where
  integer : ℕ → Number
  negative : ℕ → Number
  negative_zero : Number
  fractional : ℕ → Number
  not_finite : ℕ → Number

pub data Prototype : Type 0 where
  object_prototype null_prototype other_prototype : Prototype

mutual
  pub data Value : Type 0 where
    undefined : Value
    null : Value
    boolean : Bool → Value
    number : Number → Value
    string : String → Value
    -- a function, known by its identity
    function : ℕ → Value
    -- a symbol or a bigint
    symbol : ℕ → Value
    -- a Uint8Array, known by its storage
    bytes : ℕ → Value
    array : Items → Value
    object : Prototype → Fields → Value

  pub data Items : Type 0 where
    nil : Items
    cons : Value → Items → Items

  pub data Fields : Type 0 where
    end : Fields
    field : String → Property → Fields → Fields

  pub data Property : Type 0 where
    -- an own data property
    plain : Value → Property
    -- an own accessor, whose getter returns the value or throws it
    accessor : Value → Property
    broken : Value → Property
    -- found on the prototype chain only
    inherited : Value → Property
    -- a proxy whose traps throw the value
    trapped : Value → Property

-- typeof value === "object" && value !== null
unfoldable pub is_object : Value → Bool
is_object (bytes i) = true
is_object (array xs) = true
is_object (object p fs) = true
is_object _ = false

unfoldable pub find : String → Fields → Option Property
find name end = none
find name (field key p fs) = if key === name then some p else find name fs

-- what is found at a name, for a value that has properties of the code's names
unfoldable pub property_of : Value → String → Option Property
property_of (object p fs) name = find name fs
property_of _ name = none

abbrev pub items : Items → List Value
items nil = []
items (cons v vs) = v ∷ items vs
