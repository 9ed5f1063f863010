-- ===== src/Facade/Secret/Frame.antt =====
-- What a conversion of secrets leaves alone: every array that is not one of its sources.
use symbol_nem_wallet_core.Prelude.{ℕ, ◌<◌, ◌≡◌, ◌∙◌, List, arith, In}
use symbol_nem_wallet_core.Js.Value.{Value, bytes}
use symbol_nem_wallet_core.Js.Outcome.{Outcome, returned, thrown}
use symbol_nem_wallet_core.Js.Storage.{Heap}
use symbol_nem_wallet_core.Facade.Bytes.{clear_all}
use symbol_nem_wallet_core.Facade.Bytes.Clearing.{clear_all-storage_ne}
use symbol_nem_wallet_core.Facade.Output.{Warning}
use symbol_nem_wallet_core.Facade.Secret.{
  SecretField, SecretCopy, copy_values, read_secret, copy_sources, settle, copy_secret,
  output_secret_read_result,
}
use symbol_nem_wallet_core.Facade.Secret.Copies.{copy_sources-KeepsOld, copy_sources-AreFresh}

settle-same :
    (sources : List Value) (copies : List SecretCopy) (ws : List Warning) (m : Outcome (Unit {0}))
    (h : Heap) (i : ℕ)
    → ¬ In (bytes i) sources
    → ¬ In (bytes i) (copy_values copies)
    → (settle sources copies ws m h).1.storage i ≡ h.storage i
settle-same sources copies ws (returned d) h i ns nc = clear_all-storage_ne sources i h ns
settle-same sources copies ws (thrown e) h i ns nc =
    clear_all-storage_ne sources i (clear_all (copy_values copies) h) ns
    ∙ clear_all-storage_ne (copy_values copies) i h nc

copy_secret-same :
    (fields : List SecretField) (sources : List Value) (m : Outcome (List Warning)) (h : Heap)
    (i : ℕ)
    → i < h.next
    → ¬ In (bytes i) sources
    → (copy_secret fields sources m h).1.storage i ≡ h.storage i
copy_secret-same fields sources (returned ws) h i old ns =
    let c = copy_sources sources fields h in
    let fresh = copy_sources-AreFresh sources fields h i in
    settle-same sources c.copies ws c.result c.heap i ns (λ m. absurd (omega (arith, old, fresh m)))
    ∙ (copy_sources-KeepsOld sources fields h).same i old
copy_secret-same fields sources (thrown e) h i old ns = clear_all-storage_ne sources i h ns

-- Whether the conversion returns or throws, an array that existed before it, and that no secret
-- field refers to, keeps its bytes.
pub output_secret_read_result-same :
    (v : Value) (fields : List SecretField) (h : Heap) (i : ℕ)
    → i < h.next
    → ¬ In (bytes i) (read_secret v fields).0
    → (output_secret_read_result v fields h).1.storage i ≡ h.storage i
unfolding output_secret_read_result
output_secret_read_result-same v fields h i old ns =
    copy_secret-same fields (read_secret v fields).0 (read_secret v fields).1 h i old ns
