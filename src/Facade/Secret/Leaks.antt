-- ===== src/Facade/Secret/Leaks.antt =====
-- A conversion that fails leaves no readable copy of a secret.
use symbol_nem_wallet_core.Prelude.{ℕ, ◌≤◌, ◌<◌, ◌≡◌, List, arith, ◌∙◌, In}
use symbol_nem_wallet_core.Js.Value.{Value, bytes}
use symbol_nem_wallet_core.Js.Outcome.{Exception, Outcome, returned, thrown}
use symbol_nem_wallet_core.Js.Storage.{Heap}
use symbol_nem_wallet_core.Facade.Bytes.{clear_all}
use symbol_nem_wallet_core.Facade.Bytes.Clearing.{
  IsCleared, clear_all-IsCleared, clear_all-clears, next-clear_all,
}
use symbol_nem_wallet_core.Facade.Output.{Warning}
use symbol_nem_wallet_core.Facade.Secret.{
  SecretField, SecretCopy, copy_values, read_secret, copy_sources, settle, copy_secret,
  output_secret_read_result,
}
use symbol_nem_wallet_core.Facade.Secret.Copies.{copy_sources-Covers}

-- What was allocated between the two heaps is cleared.
abbrev pub NewIsCleared : Heap → Heap → Type 0
NewIsCleared h h' = (i : ℕ) → h.next ≤ i → i < h'.next → IsCleared (h'.storage i)

settle-NewIsCleared :
    (sources : List Value) (copies : List SecretCopy) (ws : List Warning) (m : Outcome (Unit {0}))
    (h h' : Heap) (e : Exception)
    → ((i : ℕ) → h.next ≤ i → i < h'.next → In (bytes i) (copy_values copies))
    → (settle sources copies ws m h').0 ≡ thrown e
    → NewIsCleared h (settle sources copies ws m h').1
settle-NewIsCleared sources copies ws (returned done) h h' e k t = λ i lo hi. cc
settle-NewIsCleared sources copies ws (thrown e') h h' e k t = λ i lo hi.
    let cleared = clear_all (copy_values copies) h' in
    let same = next-clear_all sources cleared ∙ next-clear_all (copy_values copies) h' in
    clear_all-IsCleared sources i cleared
      (clear_all-clears (copy_values copies) i h' (k i lo (omega (arith, same))))

copy_secret-NewIsCleared :
    (fields : List SecretField) (sources : List Value) (m : Outcome (List Warning)) (h : Heap)
    (e : Exception)
    → (copy_secret fields sources m h).0 ≡ thrown e
    → NewIsCleared h (copy_secret fields sources m h).1
copy_secret-NewIsCleared fields sources (returned ws) h e t =
    let c = copy_sources sources fields h in
    settle-NewIsCleared sources c.copies ws c.result h c.heap e
      (copy_sources-Covers sources fields h) t
copy_secret-NewIsCleared fields sources (thrown e') h e t =
    λ i lo hi. let same = next-clear_all sources h in absurd (omega (arith, same))

-- Where the conversion throws, every storage that it allocated is zeroed.
pub output_secret_read_result-NewIsCleared :
    (v : Value) (fields : List SecretField) (h : Heap) (e : Exception)
    → (output_secret_read_result v fields h).0 ≡ thrown e
    → NewIsCleared h (output_secret_read_result v fields h).1
unfolding output_secret_read_result
output_secret_read_result-NewIsCleared v fields h e t =
    copy_secret-NewIsCleared fields (read_secret v fields).0 (read_secret v fields).1 h e t
