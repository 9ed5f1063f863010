-- ===== src/NodeEntry.antt =====
-- packages/wallet-core/src/node/index.mjs: the entry point of Node.js, which takes the native addon of
-- the platform, or WebAssembly where there is none. Files, SHA-256, `require` and the platform are
-- parameters.
pub mod Trusted
use symbol_nem_wallet_core.Prelude.{
  ℕ, String, Bool, true, false, not, Option, none, some, List, [], ◌∷◌, codes, same_codes,
  if◌then◌else◌,
}
use symbol_nem_wallet_core.Js.Json.{Json, undefined, string, array, items, get, is_string, text}
use symbol_nem_wallet_core.Js.Outcome.{Outcome, returned, thrown, ◌>>=◌, ◌>>◌}
use symbol_nem_wallet_core.Facade.Operations.{Backend}
use symbol_nem_wallet_core.Facade.Create.{Facade, create_facade}
use symbol_nem_wallet_core.Manifest.Versions.{is_empty}
use symbol_nem_wallet_core.Manifest.Targets.{target_for_runtime}
use symbol_nem_wallet_core.Manifest.Artifacts.{validate_native_manifest}
use symbol_nem_wallet_core.ReactNative.Module.{initialization_error, or_initialization_error}

-- `package_json` and `manifest_json` are the files as JSON.parse reads them; `report` is what
-- process.report.getReport gives, undefined where there is no such function. Paths are relative to
-- the package.
pub record Runtime : Type 0 where
  pub package_json : Outcome Json
  pub manifest_json : Outcome Json
  pub platform : String
  pub arch : String
  pub report : Outcome Json
  pub read_file : List ℕ → Outcome (List ℕ)
  pub sha256 : List ℕ → List ℕ
  pub require : List ℕ → Outcome Backend
  pub wasm : Outcome Backend

abbrev non_empty : Json → Json
non_empty (string s) = if is_empty (codes s) then undefined else string s
non_empty _ = undefined

abbrev version_in : Outcome Json → Json
version_in (returned report) = non_empty (get (get report "header") "glibcVersionRuntime")
version_in (thrown e) = undefined

unfoldable pub runtime_glibc_version : Runtime → Json
runtime_glibc_version r = version_in r.report

-- artifacts.find((artifact) => artifact.target_id === targetId)
unfoldable pub find_artifact : String → List Json → Option Json
find_artifact id [] = none
find_artifact id (artifact ∷ artifacts) =
    let rest = find_artifact id artifacts in
    if is_string (get artifact "target_id") id then some artifact else rest

abbrev pub artifacts_of : Json → List Json
artifacts_of (array artifacts) = items artifacts
artifacts_of _ = []

-- actualSha256 === entry.sha256
abbrev pub has_digest : Json → List ℕ → Bool
has_digest (string s) actual = same_codes (codes s) actual
has_digest _ actual = false

abbrev pub require_checked : Runtime → Json → List ℕ → Outcome Backend
require_checked r entry bytes =
    if has_digest (get entry "sha256") (r.sha256 bytes)
    then r.require (text (get entry "relative_path"))
    else thrown initialization_error

-- the last `try`
unfoldable pub load_addon : Runtime → Json → Outcome Backend
load_addon r entry =
    or_initialization_error
      (r.read_file (text (get entry "relative_path")) >>= require_checked r entry)

abbrev pub load_entry : Runtime → Option Json → Outcome (Option Backend)
load_entry r none = returned none
load_entry r (some entry) = load_addon r entry >>= λ b. returned (some b)

abbrev pub load_target : Runtime → Json → Option String → Outcome (Option Backend)
load_target r manifest none = returned none
load_target r manifest (some id) =
    load_entry r (find_artifact id (artifacts_of (get manifest "artifacts")))

unfoldable pub load_native_backend : Runtime → Outcome (Option Backend)
load_native_backend r = or_initialization_error r.package_json >>= λ package_meta.
    or_initialization_error r.manifest_json >>= λ manifest.
    or_initialization_error (validate_native_manifest manifest package_meta) >>= λ valid.
    load_target r manifest (target_for_runtime r.platform r.arch (runtime_glibc_version r))

abbrev pub backend_or_wasm : Runtime → Option Backend → Outcome Backend
backend_or_wasm r none = r.wasm
backend_or_wasm r (some b) = returned b

unfoldable pub start : Runtime → Outcome Facade
start r = load_native_backend r >>= λ found.
    backend_or_wasm r found >>= λ b. or_initialization_error (create_facade b)
