-- ===== src/Wasm/Start.antt =====
-- wasm/index.mjs: the start of the module, from the manifest to the facade.
pub mod Verified
use symbol_nem_wallet_core.Prelude.{
  ℕ, String, Bool, true, false, not, ◌||◌, Option, List, [], ◌∷◌, ◌++◌, codes, same_codes, sort,
  if◌then◌else◌,
}
use symbol_nem_wallet_core.Js.Json.{Json, get, keys, is_plain_object, is_string, throw_if}
use symbol_nem_wallet_core.Js.Outcome.{Outcome, returned, thrown, ◌>>=◌, ◌>>◌}
use symbol_nem_wallet_core.Facade.Operations.{Backend}
use symbol_nem_wallet_core.Facade.Create.{Facade, create_facade}
use symbol_nem_wallet_core.ReactNative.Module.{or_initialization_error}
use symbol_nem_wallet_core.Wasm.Asset.{Response, default_of, load_wasm_asset, verify_wasm_asset}

-- What the module finds around it: the manifest and the bytes as files of Node.js or as imports, and
-- the generated code with its initialization.
pub record Environment : Type 0 where
  pub is_node : Bool
  pub manifest_file : Outcome Json
  pub manifest_module : Outcome Json
  pub wasm_file : Outcome (List ℕ)
  pub wasm_asset_url : Json
  pub asset_module : Outcome Json
  pub fetch : Json → Outcome Response
  pub sha256 : Option (List ℕ → Outcome (List ℕ))
  pub init : List ℕ → Outcome (Unit {0})
  pub generated : Backend

abbrev pub wasm_artifact_manifest : Environment → Outcome Json
wasm_artifact_manifest env =
    if env.is_node
    then env.manifest_file
    else env.manifest_module >>= λ m. returned (default_of m (get m "default"))

-- Object.keys(value).sort().join(",")
abbrev join_names : List String → List ℕ
join_names [] = []
join_names (s ∷ []) = codes s
join_names (s ∷ t ∷ ts) = codes s ++ (b',' ∷ join_names (t ∷ ts))

unfoldable pub metadata_differs : Json → Bool
metadata_differs manifest =
    not (is_plain_object manifest)
    || not (same_codes (join_names (sort (keys manifest))) (codes "artifact_filename,sha256"))
    || not (is_string (get manifest "artifact_filename") "symbol_nem_wallet_core_wasm_bg.wasm")

abbrev pub wasm_bytes : Environment → Outcome (List ℕ)
wasm_bytes env =
    if env.is_node
    then env.wasm_file
    else load_wasm_asset env.wasm_asset_url env.asset_module env.fetch

-- the body of the `try`
unfoldable pub load_facade : Environment → Outcome Facade
load_facade env = wasm_artifact_manifest env >>= λ manifest.
    throw_if (metadata_differs manifest) "WASM integrity metadata invalid" (
      wasm_bytes env >>= λ bytes.
      verify_wasm_asset env.sha256 bytes (get manifest "sha256") >>= λ verified.
      env.init bytes >> create_facade env.generated)

unfoldable pub start : Environment → Outcome Facade
start env = or_initialization_error (load_facade env)
