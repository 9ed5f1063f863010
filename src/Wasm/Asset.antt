-- ===== src/Wasm/Asset.antt =====
-- wasm/asset.mjs: loadWasmAsset and verifyWasmAsset. The import of the asset's URL, fetch and
-- SHA-256 are parameters.
use symbol_nem_wallet_core.Prelude.{
  ℕ, ◌+◌, ◌/◌, ◌%◌, Bool, not, Option, none, some, List, [], ◌∷◌, codes, same_codes, ltb,
  if◌then◌else◌,
}
use symbol_nem_wallet_core.Js.Json.{Json, undefined, null, string, get, throw_if, error}
use symbol_nem_wallet_core.Js.Outcome.{Outcome, returned, thrown, ◌>>=◌}
use symbol_nem_wallet_core.Manifest.Versions.{is_digest}

-- A response: whether its status is a success, and what reading its bytes gives.
pub record Response : Type 0 where
  pub ok : Bool
  pub body : Outcome (List ℕ)

-- imported.default ?? imported
abbrev pub default_of : Json → Json → Json
default_of imported undefined = imported
default_of imported null = imported
default_of imported v = v

abbrev pub asset_url : Json → Outcome Json → Json
asset_url wasm_asset_url (returned imported) = default_of imported (get imported "default")
asset_url wasm_asset_url (thrown e) = wasm_asset_url

abbrev pub response_body : Response → Outcome (List ℕ)
response_body response = throw_if (not response.ok) "WASM asset unavailable" response.body

unfoldable pub load_wasm_asset : Json → Outcome Json → (Json → Outcome Response) → Outcome (List ℕ)
load_wasm_asset wasm_asset_url imported fetch =
    fetch (asset_url wasm_asset_url imported) >>= response_body

-- byte.toString(16), of less than 16
abbrev pub hex_digit : ℕ → ℕ
hex_digit n = if ltb n 10 then 48 + n else 87 + n

-- byte.toString(16).padStart(2, "0"), for each byte
unfoldable pub hex : List ℕ → List ℕ
hex [] = []
hex (b ∷ bs) = hex_digit (b / 16) ∷ hex_digit (b % 16) ∷ hex bs

abbrev pub verify_digest : List ℕ → List ℕ → List ℕ → Outcome (List ℕ)
verify_digest bytes expected digest =
    throw_if (not (same_codes (hex digest) expected)) "WASM integrity mismatch" (returned bytes)

abbrev pub verify_with : Option (List ℕ → Outcome (List ℕ)) → List ℕ → List ℕ → Outcome (List ℕ)
verify_with none bytes expected = thrown (error "WASM integrity verification unavailable")
verify_with (some sha256) bytes expected = sha256 bytes >>= verify_digest bytes expected

-- `sha256` is crypto.subtle.digest, or none where there is no crypto.subtle.
unfoldable pub verify_wasm_asset :
    Option (List ℕ → Outcome (List ℕ)) → List ℕ → Json → Outcome (List ℕ)
verify_wasm_asset sha256 bytes (string expected) =
    throw_if (not (is_digest 64 (codes expected))) "WASM integrity metadata invalid"
      (verify_with sha256 bytes (codes expected))
verify_wasm_asset sha256 bytes _ = thrown (error "WASM integrity metadata invalid")
