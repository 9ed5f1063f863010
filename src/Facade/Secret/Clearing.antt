-- ===== src/Facade/Secret/Clearing.antt =====
-- No secret is left behind: the backend's arrays, and on a failure also the copies.
use symbol_nem_wallet_core.Prelude.{
  ℕ, String, ◌≡◌, refl, Option, List, [], ◌∷◌, ◌++◌, All, In, inl, inr,
}
use symbol_nem_wallet_core.Js.Value.{Value, bytes}
use symbol_nem_wallet_core.Js.Outcome.{Outcome, returned, thrown, ◌>>=◌}
use symbol_nem_wallet_core.Js.Storage.{Heap}
use symbol_nem_wallet_core.Facade.Access.{property, required_object}
use symbol_nem_wallet_core.Facade.Bytes.{clear_all}
use symbol_nem_wallet_core.Facade.Bytes.Clearing.{IsCleared, clear_all-clears}
use symbol_nem_wallet_core.Facade.Output.{Warning}
use symbol_nem_wallet_core.Facade.Secret.{
  SecretField, SecretCopy, copy_values, read_sources, read_secret_of, read_secret, copy_sources,
  settle, copy_secret, output_secret_read_result,
}

settle-clears :
    (sources : List Value) (copies : List SecretCopy) (ws : List Warning) (m : Outcome (Unit {0}))
    (h : Heap) (i : ℕ)
    → In (bytes i) sources
    → IsCleared ((settle sources copies ws m h).1.storage i)
settle-clears sources copies ws (returned done) h i s = clear_all-clears sources i h s
settle-clears sources copies ws (thrown e) h i s =
    clear_all-clears sources i (clear_all (copy_values copies) h) s

copy_secret-clears :
    (fields : List SecretField) (sources : List Value) (m : Outcome (List Warning)) (h : Heap)
    (i : ℕ)
    → In (bytes i) sources
    → IsCleared ((copy_secret fields sources m h).1.storage i)
copy_secret-clears fields sources (returned ws) h i s =
    let c = copy_sources sources fields h in settle-clears sources c.copies ws c.result c.heap i s
copy_secret-clears fields sources (thrown e) h i s = clear_all-clears sources i h s

-- The fields in front of one can be read.
abbrev pub CanRead : Value → List SecretField → Type 0
CanRead secret fields = All (λ f. (w : Value) × (property secret f.0 ≡ returned w)) fields

read_sources-In :
    (secret : Value) (before after : List SecretField) (name : String) (len : Option ℕ) (i : ℕ)
    → CanRead secret before
    → property secret name ≡ returned (bytes i)
    → In (bytes i) (read_sources secret (before ++ (name, len) ∷ after)).0
unfolding read_sources
read_sources-In secret [] after name len i c e = rw e (inl refl)
read_sources-In secret ((n, l) ∷ before) after name len i ((w, read), c) e =
    rw read (inr (read_sources-In secret before after name len i c e))

read_secret_of-In :
    (v secret : Value) (fields : List SecretField) (m : Outcome Value) (i : ℕ)
    → m ≡ returned secret
    → In (bytes i) (read_sources secret fields).0
    → In (bytes i) (read_secret_of v fields m).0
read_secret_of-In v secret fields m i e k = rw e k

-- After the conversion, whether it returns or throws, the storage of every byte array that the
-- backend put into a secret field is zeroed or detached, if the fields in front of it can be read.
pub output_secret_read_result-clears :
    (v secret : Value) (before after : List SecretField) (name : String) (len : Option ℕ) (i : ℕ)
    (h : Heap)
    → (property v "value" >>= required_object) ≡ returned secret
    → CanRead secret before
    → property secret name ≡ returned (bytes i)
    → IsCleared ((output_secret_read_result v (before ++ (name, len) ∷ after) h).1.storage i)
unfolding output_secret_read_result read_secret
output_secret_read_result-clears v secret before after name len i h o c e =
    copy_secret-clears _ _ _ h i
      (read_secret_of-In v secret _ _ i o (read_sources-In secret before after name len i c e))
