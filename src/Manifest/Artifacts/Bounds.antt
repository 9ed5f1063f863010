-- ===== src/Manifest/Artifacts/Bounds.antt =====
-- manifest.mjs: how many artifacts a manifest can have.
use symbol_nem_wallet_core.Prelude.{ℕ, ◌+◌, ◌≤◌, String, List, [], ◌∷◌, ◌≡◌, length, arith}
use symbol_nem_wallet_core.Js.Json.{Json, Items, array, get, items}
use symbol_nem_wallet_core.Js.Outcome.{returned}
use symbol_nem_wallet_core.Manifest.Targets.{canonical_index}
use symbol_nem_wallet_core.Manifest.Artifacts.{validate_native_manifest}
use symbol_nem_wallet_core.Manifest.Artifacts.Accepted.{
  AreArtifacts, validate_native_manifest-IsManifest,
}

canonical_index-bound : (id : String) → canonical_index id ≤ 4
unfolding canonical_index
canonical_index-bound id = ground arith

AreArtifacts-bound :
    (previous : ℕ) (xs : List Json)
    → AreArtifacts previous xs
    → previous ≤ 4
    → length xs + previous ≤ 4
AreArtifacts-bound previous [] k b = omega arith
AreArtifacts-bound previous (a ∷ xs) (id, (target, i, (o, k))) b =
    let r = AreArtifacts-bound (canonical_index id) xs k (canonical_index-bound id) in
    omega (arith, r)

-- An accepted manifest has at most one artifact for each of the four targets.
pub validate_native_manifest-length :
    (manifest package_meta result : Json) (artifacts : Items)
    → get manifest "artifacts" ≡ array artifacts
    → validate_native_manifest manifest package_meta ≡ returned result
    → length (items artifacts) ≤ 4
validate_native_manifest-length m p r xs e t =
    let k = (validate_native_manifest-IsManifest m p r t).1 in
    let b = AreArtifacts-bound 0 (items k.artifacts) k.ordered (omega arith) in
    let l : get m "artifacts" ≡ array k.artifacts = k.list in
    let q : xs ≡ k.artifacts = ground arith in rw q (omega (arith, b))
