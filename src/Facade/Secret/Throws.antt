-- ===== src/Facade/Secret/Throws.antt =====
-- outputSecretReadResult throws `BindingFailure` and nothing else.
use symbol_nem_wallet_core.Prelude.{ℕ, String, ◌≡◌, refl, List, [], ◌∷◌, arith}
use symbol_nem_wallet_core.Js.Value.{Value}
use symbol_nem_wallet_core.Js.Outcome.{Exception, Outcome, returned, thrown, ◌>>=◌}
use symbol_nem_wallet_core.Js.Storage.{Heap}
use symbol_nem_wallet_core.Facade.Errors.{binding_failure}
use symbol_nem_wallet_core.Facade.Access.{property, required_object}
use symbol_nem_wallet_core.Facade.Bytes.{output_bytes}
use symbol_nem_wallet_core.Facade.Output.{Warning, output_warnings}
use symbol_nem_wallet_core.Facade.Output.Throws.{
  OnlyBinding, OnlyBinding-returned, OnlyBinding-bind, property-OnlyBinding,
  required_object-OnlyBinding, output_warnings-OnlyBinding,
}
use symbol_nem_wallet_core.Facade.Secret.{
  SecretField, SecretCopy, push_source, read_sources, read_secret_of, read_secret, copy_sources,
  after_copy, Copying, copy_secret, settle, output_secret_read_result,
}
use symbol_nem_wallet_core.Facade.Operations.Throws.{Throws, output_bytes-Throws}

push_source-OnlyBinding :
    (m : Outcome Value) (rest : List Value × Outcome (Unit {0}))
    → OnlyBinding m
    → OnlyBinding rest.1
    → OnlyBinding (push_source m rest).1
push_source-OnlyBinding (returned v) rest hm hr = hr
push_source-OnlyBinding (thrown e) rest hm hr = record { at = λ e' h. hm.at e' (ground arith) }

read_sources-OnlyBinding :
    (secret : Value) (fields : List SecretField) → OnlyBinding (read_sources secret fields).1
unfolding read_sources
read_sources-OnlyBinding secret [] = OnlyBinding-returned tt
read_sources-OnlyBinding secret ((name, len) ∷ fields) =
    push_source-OnlyBinding (property secret name) _ (property-OnlyBinding secret name)
      (read_sources-OnlyBinding secret fields)

read_secret_of-OnlyBinding :
    (v : Value) (fields : List SecretField) (m : Outcome Value)
    → OnlyBinding m
    → OnlyBinding (read_secret_of v fields m).1
read_secret_of-OnlyBinding v fields (returned secret) hm =
    OnlyBinding-bind (read_sources secret fields).1 _ (read_sources-OnlyBinding secret fields) λ _.
      OnlyBinding-bind (property v "warnings") output_warnings (property-OnlyBinding v "warnings")
        output_warnings-OnlyBinding
read_secret_of-OnlyBinding v fields (thrown e) hm = record { at = λ e' h. hm.at e' (ground arith) }

read_secret-OnlyBinding :
    (v : Value) (fields : List SecretField) → OnlyBinding (read_secret v fields).1
unfolding read_secret
read_secret-OnlyBinding v fields =
    read_secret_of-OnlyBinding v fields (property v "value" >>= required_object) (
      OnlyBinding-bind (property v "value") required_object (property-OnlyBinding v "value")
        required_object-OnlyBinding)

after_copy-OnlyBinding :
    (name : String) (m : Outcome ℕ) (rest : Heap → Copying) (h : Heap)
    → ((e : Exception) → m ≡ thrown e → e ≡ binding_failure)
    → ((h : Heap) → OnlyBinding (rest h).result)
    → OnlyBinding (after_copy name m rest h).result
after_copy-OnlyBinding name (returned c) rest h hm hr = hr h
after_copy-OnlyBinding name (thrown e) rest h hm hr = record { at = λ e' t. hm e' (ground arith) }

pub copy_sources-OnlyBinding :
    (sources : List Value) (fields : List SecretField) (h : Heap)
    → OnlyBinding (copy_sources sources fields h).result
unfolding copy_sources
copy_sources-OnlyBinding (s ∷ sources) ((name, len) ∷ fields) h =
    after_copy-OnlyBinding name (output_bytes s len h).0 (copy_sources sources fields)
      (output_bytes s len h).1
      ((output_bytes-Throws {P = λ e. e ≡ binding_failure} refl s len).at h)
      (copy_sources-OnlyBinding sources fields)
copy_sources-OnlyBinding [] fields h = OnlyBinding-returned tt
copy_sources-OnlyBinding (s ∷ sources) [] h = OnlyBinding-returned tt

settle-throws :
    (sources : List Value) (copies : List SecretCopy) (ws : List Warning) (m : Outcome (Unit {0}))
    (h : Heap)
    → OnlyBinding m
    → OnlyBinding (settle sources copies ws m h).0
settle-throws sources copies ws (returned done) h hm = OnlyBinding-returned _
settle-throws sources copies ws (thrown e) h hm = record { at = λ e' t. hm.at e' (ground arith) }

copy_secret-throws :
    (fields : List SecretField) (sources : List Value) (m : Outcome (List Warning)) (h : Heap)
    → OnlyBinding m
    → OnlyBinding (copy_secret fields sources m h).0
copy_secret-throws fields sources (returned ws) h hm =
    let c = copy_sources sources fields h in
    settle-throws sources c.copies ws c.result c.heap (copy_sources-OnlyBinding sources fields h)
copy_secret-throws fields sources (thrown e) h hm = record { at = λ e' t. hm.at e' (ground arith) }

pub output_secret_read_result-Throws :
    {P : Exception → Type 0} (p : P binding_failure) (v : Value) (fields : List SecretField)
    → Throws P (output_secret_read_result v fields)
unfolding output_secret_read_result
output_secret_read_result-Throws p v fields = record {
  at = λ h e t.
      let q =
        copy_secret-throws fields (read_secret v fields).0 (read_secret v fields).1 h
          (read_secret-OnlyBinding v fields) in
      rw (q.at e t) p;
}
