-- ===== src/Facade/Secret.antt =====
-- facade-runtime.mjs: outputSecretReadResult, which hands out copies of secrets and clears the rest.
pub mod Throws
pub mod Clearing
pub mod Copies
pub mod Leaks
pub mod Frame
pub mod Delivery
use symbol_nem_wallet_core.Prelude.{ℕ, String, Option, List, [], ◌∷◌, map}
use symbol_nem_wallet_core.Js.Value.{Value, bytes}
use symbol_nem_wallet_core.Js.Outcome.{Outcome, returned, thrown, ◌>>=◌}
use symbol_nem_wallet_core.Js.Storage.{Heap, Js}
use symbol_nem_wallet_core.Facade.Access.{property, required_object}
use symbol_nem_wallet_core.Facade.Bytes.{output_bytes, clear_all}
use symbol_nem_wallet_core.Facade.Output.{Warning, output_warnings}
use symbol_nem_wallet_core.Facade.Results.{ReadResult}

-- A field of the secret: its name, and its length where that is fixed.
abbrev pub SecretField : Type 0
SecretField = String × Option ℕ

-- A copied field, with the storage of the copy.
abbrev pub SecretCopy : Type 0
SecretCopy = String × ℕ

-- `sources` when the reading of the fields ends, and how it ends
abbrev push_source :
    Outcome Value → List Value × Outcome (Unit {0}) → List Value × Outcome (Unit {0})
push_source (returned source) (sources, result) = (source ∷ sources, result)
push_source (thrown e) _ = ([], thrown e)

unfoldable pub read_sources : Value → List SecretField → List Value × Outcome (Unit {0})
read_sources secret [] = ([], returned tt)
read_sources secret ((name, len) ∷ fields) =
    push_source (property secret name) (read_sources secret fields)

-- What the loop that copies leaves: `copies`, how it ends, and the heap.
pub record Copying : Type 0 where
  pub copies : List SecretCopy
  pub result : Outcome (Unit {0})
  pub heap : Heap

abbrev after_copy : String → Outcome ℕ → (Heap → Copying) → Heap → Copying
after_copy name (returned copy) rest h =
    let c = rest h in record c { copies = (name, copy) ∷ c.copies }
after_copy name (thrown e) rest h = record { copies = []; result = thrown e; heap = h }

unfoldable pub copy_sources : List Value → List SecretField → Heap → Copying
copy_sources (source ∷ sources) ((name, len) ∷ fields) h =
    let (copy, h') = output_bytes source len h in
    after_copy name copy (copy_sources sources fields) h'
copy_sources [] fields h = record { copies = []; result = returned tt; heap = h }
copy_sources sources [] h = record { copies = []; result = returned tt; heap = h }

-- the part of the `try` before the first copy: `sources`, and the warnings or what is thrown
abbrev read_warnings : Value → List Value × Outcome (Unit {0}) → List Value × Outcome (List Warning)
read_warnings value (sources, result) =
    (sources, result >>= λ _. property value "warnings" >>= output_warnings)

abbrev read_secret_of :
    Value → List SecretField → Outcome Value → List Value × Outcome (List Warning)
read_secret_of value fields (returned secret) = read_warnings value (read_sources secret fields)
read_secret_of value fields (thrown e) = ([], thrown e)

unfoldable pub read_secret : Value → List SecretField → List Value × Outcome (List Warning)
read_secret value fields = read_secret_of value fields (property value "value" >>= required_object)

abbrev pub copy_values : List SecretCopy → List Value
copy_values copies = map (λ c. bytes c.1) copies

-- `catch` clears the copies made so far, and `finally` the sources in every case
abbrev settle :
    List Value
    → List SecretCopy
    → List Warning
    → Outcome (Unit {0})
    → Js (ReadResult (List SecretCopy))
settle sources copies warnings (returned done) h =
    (returned (record { value = copies; warnings = warnings }), clear_all sources h)
settle sources copies warnings (thrown e) h =
    (thrown e, clear_all sources (clear_all (copy_values copies) h))

abbrev copy_secret :
    List SecretField → List Value → Outcome (List Warning) → Js (ReadResult (List SecretCopy))
copy_secret fields sources (returned warnings) h =
    let c = copy_sources sources fields h in settle sources c.copies warnings c.result c.heap
copy_secret fields sources (thrown e) h = (thrown e, clear_all sources h)

unfoldable pub output_secret_read_result :
    Value → List SecretField → Js (ReadResult (List SecretCopy))
output_secret_read_result value fields h =
    let (sources, warnings) = read_secret value fields in copy_secret fields sources warnings h
