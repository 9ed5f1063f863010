-- ===== src/Tests/Wasm.antt =====
-- A run of packages/wallet-core/src/wasm/index.mjs.
use symbol_nem_wallet_core.Prelude.{◌≡◌, refl, some, String, [], ◌∷◌, replicate, true}
use symbol_nem_wallet_core.Js.Value.{is_object, property_of, find}
use symbol_nem_wallet_core.Js.Json.{Json, string, object, field, end, get, keys}
use symbol_nem_wallet_core.Js.Outcome.{returned, thrown}
use symbol_nem_wallet_core.Facade.Errors.{read}
use symbol_nem_wallet_core.Facade.Create.{create_facade, lacks_operation, facade_of}
use symbol_nem_wallet_core.ReactNative.Module.{initialization_error}
use symbol_nem_wallet_core.Wasm.Asset.{hex, verify_wasm_asset}
use symbol_nem_wallet_core.Wasm.Start.{Environment, metadata_differs, load_facade, start}
use symbol_nem_wallet_core.Wasm.Start.Verified.{IsVerified, start-IsVerified}
use symbol_nem_wallet_core.Tests.Samples.{backend}

abbrev manifest : String → Json
manifest digest = object (
    field "artifact_filename" (string "symbol_nem_wallet_core_wasm_bg.wasm")
      (field "sha256" (string digest) end))

-- the digest of every array is 32 times the byte 171
abbrev env : String → Environment
env digest = record {
  is_node = true;
  manifest_file = returned (manifest digest);
  manifest_module = thrown initialization_error;
  wasm_file = returned (1 ∷ 2 ∷ []);
  wasm_asset_url = string "wasm";
  asset_module = thrown initialization_error;
  fetch = λ url. thrown initialization_error;
  sha256 = some (λ bytes. returned (replicate 32 171));
  init = λ bytes. returned tt;
  generated = backend;
}

abbrev digest : String
digest = "abababababababababababababababababababababababababababababababab"

start-IsVerified_example : IsVerified (env digest)
unfolding start load_facade metadata_differs verify_wasm_asset hex create_facade lacks_operation
    keys get read property_of find is_object
start-IsVerified_example = start-IsVerified (env digest) (facade_of backend) refl

-- Another digest in the manifest is an error.
other_digest_run :
    start (env "cdababababababababababababababababababababababababababababababab")
    ≡ thrown initialization_error
unfolding start load_facade metadata_differs verify_wasm_asset hex keys get
other_digest_run = refl
