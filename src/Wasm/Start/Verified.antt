-- ===== src/Wasm/Start/Verified.antt =====
-- wasm/index.mjs: the facade is over code whose bytes have the digest of the manifest.
use symbol_nem_wallet_core.Prelude.{
  ℕ, String, not, Option, none, some, List, ◌≡◌, refl, codes, same_codes, same_codes-eq, not-false,
  sym,
}
use symbol_nem_wallet_core.Js.Json.{
  Json, undefined, null, boolean, number, string, array, object, opaque, get, throw_if-returned,
}
use symbol_nem_wallet_core.Js.Outcome.{Outcome, returned, thrown, bind-returned}
use symbol_nem_wallet_core.Manifest.Versions.{is_digest}
use symbol_nem_wallet_core.Facade.Create.{Facade}
use symbol_nem_wallet_core.Facade.Create.Complete.{IsComplete, create_facade_iff}
use symbol_nem_wallet_core.ReactNative.Module.{or_initialization_error}
use symbol_nem_wallet_core.Wasm.Asset.{hex, verify_digest, verify_with, verify_wasm_asset}
use symbol_nem_wallet_core.Wasm.Start.{
  Environment, wasm_artifact_manifest, metadata_differs, wasm_bytes, load_facade, start,
}

-- The bytes have the digest that a text spells in hexadecimal digits.
pub record HasDigest (sha256 : Option (List ℕ → Outcome (List ℕ))) (bytes : List ℕ)
    (expected : Json) : Type 0 where
  pub hash : List ℕ → Outcome (List ℕ)
  pub available : sha256 ≡ some hash
  pub digest : List ℕ
  pub hashed : hash bytes ≡ returned digest
  pub name : String
  pub expected_text : expected ≡ string name
  pub spelled : codes name ≡ hex digest

verify_with-HasDigest :
    (o : Option (List ℕ → Outcome (List ℕ))) (bytes : List ℕ) (name : String) (out : List ℕ)
    → verify_with o bytes (codes name) ≡ returned out
    → HasDigest o bytes (string name)
verify_with-HasDigest none bytes name out k = cc
verify_with-HasDigest (some hash) bytes name out k =
    let (digest, h, v) = bind-returned (hash bytes) (verify_digest bytes (codes name)) out k in
    let (same, r) = throw_if-returned (not (same_codes (hex digest) (codes name))) _ _ out v in
    record {
      hash = hash;
      available = refl;
      digest = digest;
      hashed = h;
      name = name;
      expected_text = refl;
      spelled = sym (same_codes-eq _ _ (not-false _ same));
    }

verify_wasm_asset-HasDigest :
    (o : Option (List ℕ → Outcome (List ℕ))) (bytes : List ℕ) (expected : Json) (out : List ℕ)
    → verify_wasm_asset o bytes expected ≡ returned out
    → HasDigest o bytes expected
unfolding verify_wasm_asset
verify_wasm_asset-HasDigest o bytes (string name) out k =
    let (valid, rest) = throw_if-returned (not (is_digest 64 (codes name))) _ _ out k in
    verify_with-HasDigest o bytes name out rest
verify_wasm_asset-HasDigest o bytes undefined out k = cc
verify_wasm_asset-HasDigest o bytes null out k = cc
verify_wasm_asset-HasDigest o bytes (boolean b) out k = cc
verify_wasm_asset-HasDigest o bytes (number t) out k = cc
verify_wasm_asset-HasDigest o bytes (array vs) out k = cc
verify_wasm_asset-HasDigest o bytes (object fs) out k = cc
verify_wasm_asset-HasDigest o bytes (opaque t) out k = cc

-- The facade is over initialized code of known bytes, which has every operation.
pub record IsVerified (env : Environment) : Type 0 where
  pub manifest : Json
  pub manifest_found : wasm_artifact_manifest env ≡ returned manifest
  pub bytes : List ℕ
  pub bytes_found : wasm_bytes env ≡ returned bytes
  pub digest : HasDigest env.sha256 bytes (get manifest "sha256")
  pub initialized : env.init bytes ≡ returned tt
  pub complete : IsComplete env.generated

load_facade-IsVerified :
    (env : Environment) (f : Facade) → load_facade env ≡ returned f → IsVerified env
unfolding load_facade
load_facade-IsVerified env f k =
    let (manifest, m, k₁) = bind-returned (wasm_artifact_manifest env) _ f k in
    let (same, k₂) = throw_if-returned (metadata_differs manifest) _ _ f k₁ in
    let (bytes, b, k₃) = bind-returned (wasm_bytes env) _ f k₂ in
    let (verified, v, k₄) =
      bind-returned (verify_wasm_asset env.sha256 bytes (get manifest "sha256")) _ f k₃ in
    let (u, i, k₅) = bind-returned (env.init bytes) _ f k₄ in
    record {
      manifest = manifest;
      manifest_found = m;
      bytes = bytes;
      bytes_found = b;
      digest = verify_wasm_asset-HasDigest env.sha256 bytes (get manifest "sha256") verified v;
      initialized = i;
      complete = (create_facade_iff env.generated).0 (f, k₅);
    }

-- A start that ends well has initialized the generated code with bytes whose SHA-256 digest is the
-- one in the manifest, and the code has a function for every operation.
pub start-IsVerified : (env : Environment) (f : Facade) → start env ≡ returned f → IsVerified env
unfolding start
start-IsVerified env f k = load_facade-IsVerified env f (caught (load_facade env) k)
  where
    caught : (m : Outcome Facade) → or_initialization_error m ≡ returned f → m ≡ returned f
    caught (returned g) e = e
    caught (thrown x) e = cc
