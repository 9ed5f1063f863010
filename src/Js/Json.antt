-- ===== src/Js/Json.antt =====
-- Values without getters, as JSON.parse and object literals make them: what the validation of
-- manifests and release records reads. A number stands by the text that String gives of it. Two
-- objects are never the same object.
use symbol_nem_wallet_core.Prelude.{
  eq_iff, ap, ℕ, String, Bool, true, false, ◌&&◌, not, List, [], ◌∷◌, ◌++◌, codes, ◌===◌,
  if◌then◌else◌, sort, contains, ◌≡◌, refl,
}
use symbol_nem_wallet_core.Js.Value.{other_prototype}
use symbol_nem_wallet_core.Js.Value
use symbol_nem_wallet_core.Js.Outcome.{Exception, foreign, Outcome, returned, thrown}

mutual
  pub data Json : Type 0 where
    undefined null : Json
    boolean : Bool → Json
    number : String → Json
    string : String → Json
    array : Items → Json
    -- an object whose prototype is Object.prototype
    object : Fields → Json
    -- any other object or function, with the text that String gives of it
    opaque : String → Json

  pub data Items : Type 0 where
    nil : Items
    cons : Json → Items → Items

  pub data Fields : Type 0 where
    end : Fields
    field : String → Json → Fields → Fields

abbrev pub items : Items → List Json
items nil = []
items (cons v vs) = v ∷ items vs

-- isPlainObject
abbrev pub is_plain_object : Json → Bool
is_plain_object (object fs) = true
is_plain_object _ = false

abbrev pub find : String → Fields → Json
find name end = undefined
find name (field key v fs) = if key === name then v else find name fs

-- value[name], of a plain object
unfoldable pub get : Json → String → Json
get (object fs) name = find name fs
get _ name = undefined

abbrev pub names : Fields → List String
names end = []
names (field key v fs) = key ∷ names fs

-- Object.keys
unfoldable pub keys : Json → List String
keys (object fs) = names fs
keys _ = []

-- Object.prototype.hasOwnProperty.call
abbrev pub has_own : Json → String → Bool
has_own v name = contains (keys v) name

-- value === s
abbrev pub is_string : Json → String → Bool
is_string (string t) s = t === s
is_string _ s = false

-- value === n
abbrev pub is_number : Json → String → Bool
is_number (number t) n = t === n
is_number _ n = false

abbrev pub is_true : Json → Bool
is_true (boolean b) = b
is_true _ = false

abbrev pub is_false : Json → Bool
is_false (boolean b) = not b
is_false _ = false

-- a === b
abbrev pub is_same : Json → Json → Bool
is_same undefined undefined = true
is_same null null = true
is_same (boolean true) (boolean b) = b
is_same (boolean false) (boolean b) = not b
is_same (number s) (number t) = s === t
is_same (string s) (string t) = s === t
is_same _ _ = false

-- Array.prototype.join writes nothing for null and undefined
abbrev unless_null : Json → List ℕ → List ℕ
unless_null undefined cs = []
unless_null null cs = []
unless_null _ cs = cs

-- String(value), which a template and RegExp.prototype.test apply
unfoldable mutual
  pub text : Json → List ℕ
  text undefined = codes "undefined"
  text null = codes "null"
  text (boolean true) = codes "true"
  text (boolean false) = codes "false"
  text (number t) = codes t
  text (string t) = codes t
  text (array nil) = []
  text (array (cons v vs)) = unless_null v (text v) ++ more_text vs
  text (object fs) = codes "[object Object]"
  text (opaque t) = codes t

  pub more_text : Items → List ℕ
  more_text nil = []
  more_text (cons v vs) = b',' ∷ (unless_null v (text v) ++ more_text vs)

abbrev pub same_names : List String → List String → Bool
same_names [] [] = true
same_names [] (t ∷ ts) = false
same_names (s ∷ ss) [] = false
same_names (s ∷ ss) (t ∷ ts) = s === t && same_names ss ts

-- exactKeys
unfoldable pub exact_keys : Json → List String → Bool
exact_keys v expected = same_names (sort (keys v)) (sort expected)

-- new Error(message)
abbrev pub error : String → Exception
error message = foreign (
    Value.object other_prototype
      (Value.field "message" (Value.plain (Value.string message)) Value.end))

-- `if (condition) throw new Error(message);` before the rest

abbrev pub throw_if {ℓ} : {A : Type ℓ} → Bool → String → Outcome A → Outcome A
throw_if true message rest = thrown (error message)
throw_if false message rest = rest

pub throw_if-returned {ℓ} :
    {A : Type ℓ} (c : Bool) (message : String) (rest : Outcome A) (a : A)
    → throw_if c message rest ≡ returned a
    → (c ≡ false) × (rest ≡ returned a)
throw_if-returned true message rest a t = cc
throw_if-returned false message rest a t = (refl, t)

pub is_string-eq : (v : Json) (s : String) → is_string v s ≡ true → v ≡ string s
is_string-eq (string t) s k = ap string ((eq_iff t s).0 k)
is_string-eq undefined s k = cc
is_string-eq null s k = cc
is_string-eq (boolean b) s k = cc
is_string-eq (number t) s k = cc
is_string-eq (array vs) s k = cc
is_string-eq (object fs) s k = cc
is_string-eq (opaque t) s k = cc

pub is_number-eq : (v : Json) (t : String) → is_number v t ≡ true → v ≡ number t
is_number-eq (number u) t k = ap number ((eq_iff u t).0 k)
is_number-eq undefined t k = cc
is_number-eq null t k = cc
is_number-eq (boolean b) t k = cc
is_number-eq (string s) t k = cc
is_number-eq (array vs) t k = cc
is_number-eq (object fs) t k = cc
is_number-eq (opaque s) t k = cc

pub is_true-eq : (v : Json) → is_true v ≡ true → v ≡ boolean true
is_true-eq (boolean b) k = ap boolean k
is_true-eq undefined k = cc
is_true-eq null k = cc
is_true-eq (number t) k = cc
is_true-eq (string t) k = cc
is_true-eq (array vs) k = cc
is_true-eq (object fs) k = cc
is_true-eq (opaque t) k = cc

pub is_same-string : (v : Json) (s : String) → is_same v (string s) ≡ true → v ≡ string s
is_same-string (string t) s k = ap string ((eq_iff t s).0 k)
is_same-string undefined s k = cc
is_same-string null s k = cc
is_same-string (boolean true) s k = cc
is_same-string (boolean false) s k = cc
is_same-string (number t) s k = cc
is_same-string (array vs) s k = cc
is_same-string (object fs) s k = cc
is_same-string (opaque t) s k = cc

pub is_false-eq : (v : Json) → is_false v ≡ true → v ≡ boolean false
is_false-eq (boolean true) k = cc
is_false-eq (boolean false) k = refl
is_false-eq undefined k = cc
is_false-eq null k = cc
is_false-eq (number t) k = cc
is_false-eq (string t) k = cc
is_false-eq (array vs) k = cc
is_false-eq (object fs) k = cc
is_false-eq (opaque t) k = cc

-- A check that passes.
pub throw_if-false {ℓ} :
    {A : Type ℓ} (c : Bool) (message : String) (rest : Outcome A)
    → c ≡ false
    → throw_if c message rest ≡ rest
throw_if-false true message rest e = cc
throw_if-false false message rest e = refl
