-- ===== src/Npm/Repository.antt =====
-- scripts/npm-repository.mjs: validateNpmRepositoryMetadata and validateNpmPackageMetadata.
pub mod Canonical
use symbol_nem_wallet_core.Prelude.{
  String, Bool, true, false, not, ◌||◌, ◌&&◌, List, [], ◌∷◌, ◌===◌, map,
}
use Prim.Native.String
use symbol_nem_wallet_core.Js.Json.{
  Json, undefined, null, boolean, number, string, array, object, opaque, Items, nil, cons, Fields,
  end, field, is_plain_object, get, exact_keys, is_string, throw_if, error,
}
use symbol_nem_wallet_core.Js.Outcome.{Outcome, returned, thrown, ◌>>=◌, ◌>>◌}

-- EXPECTED_NPM_REPOSITORY
abbrev pub expected_npm_repository : List (String × String)
expected_npm_repository =
    ("type", "git")
    ∷ ("url", "git+https://github.com/nemnesia/symbol-nem-wallet-core.git")
    ∷ ("directory", "packages/wallet-core")
    ∷ []

abbrev keyword_items : Items
keyword_items = cons (string "symbol") (
    cons (string "nem") (
      cons (string "wallet") (
        cons (string "wallet-core")
          (cons (string "cryptography") (cons (string "webassembly") (cons (string "napi") nil))))))

abbrev codegen_config : Json
codegen_config = object (
    field "name" (string "SymbolNemWalletCoreSpec") (
      field "type" (string "modules") (
        field "jsSrcsDir" (string "src/react-native") (
          field "android"
            (object (field "javaPackageName" (string "com.nemnesia.symbolnemwalletcore") end))
            (field "ios"
              (object (
                field "modulesProvider"
                  (object (
                    field "NativeSymbolNemWalletCore" (string "NativeSymbolNemWalletCoreProvider")
                      end))
                  end))
              end)))))

-- NPM_PACKAGE_METADATA
abbrev pub npm_package_metadata : List (String × Json)
npm_package_metadata =
    ("author", string "ccHarvestasya")
    ∷ ("homepage", string "https://github.com/nemnesia/symbol-nem-wallet-core#readme")
    ∷ (
      "bugs",
      object (field "url" (string "https://github.com/nemnesia/symbol-nem-wallet-core/issues") end),
    )
    ∷ ("keywords", array keyword_items)
    ∷ ("publishConfig", object (field "access" (string "public") end))
    ∷ ("codegenConfig", codegen_config)
    ∷ []

-- EXPECTED_NPM_PACKAGE_KEYS
abbrev pub expected_npm_package_keys : List String
expected_npm_package_keys =
    "name" ∷ "version" ∷ "description" ∷ "author" ∷ "homepage" ∷ "bugs" ∷ "keywords" ∷ "license"
    ∷ "publishConfig" ∷ "repository" ∷ "type" ∷ "types" ∷ "main" ∷ "module" ∷ "codegenConfig"
    ∷ "exports" ∷ "engines" ∷ "files" ∷ []

-- JSON.stringify of two values gives the same text
unfoldable mutual
  pub same_json : Json → Json → Bool
  same_json null null = true
  same_json (boolean true) (boolean b) = b
  same_json (boolean false) (boolean b) = not b
  same_json (number s) (number t) = s === t
  same_json (string s) (string t) = s === t
  same_json (array vs) (array ws) = same_items vs ws
  same_json (object fs) (object gs) = same_fields fs gs
  same_json _ _ = false

  pub same_items : Items → Items → Bool
  same_items nil nil = true
  same_items (cons v vs) (cons w ws) = same_json v w && same_items vs ws
  same_items _ _ = false

  pub same_fields : Fields → Fields → Bool
  same_fields end end = true
  same_fields (field k v fs) (field l w gs) = k === l && same_json v w && same_fields fs gs
  same_fields _ _ = false

-- the message of fail, with the label in front
abbrev pub gate : String → String → String
gate label message = String.◌++◌ "npm repository metadata gate failed: " (String.◌++◌ label message)

unfoldable pub require_values : String → Json → List (String × String) → Outcome (Unit {0})
require_values label repository [] = returned tt
require_values label repository ((key, expected) ∷ entries) =
    throw_if (not (is_string (get repository key) expected))
      (gate label
        (String.◌++◌ " repository " (String.◌++◌ key " differs from the canonical npm identity")))
      (require_values label repository entries)

unfoldable pub validate_npm_repository_metadata : Json → String → Outcome (Unit {0})
validate_npm_repository_metadata metadata label =
    let repository = get metadata "repository" in
    throw_if (not (is_plain_object repository))
      (gate label " repository metadata is missing or invalid")
      (throw_if (not (exact_keys repository (map (λ e. e.0) expected_npm_repository)))
        (gate label " repository metadata has unexpected or missing fields")
        (require_values label repository expected_npm_repository))

unfoldable pub require_metadata : String → Json → List (String × Json) → Outcome (Unit {0})
require_metadata label metadata [] = returned tt
require_metadata label metadata ((key, expected) ∷ entries) =
    throw_if (not (same_json (get metadata key) expected))
      (gate label
        (String.◌++◌ " " (String.◌++◌ key " differs from the canonical production metadata")))
      (require_metadata label metadata entries)

unfoldable pub validate_npm_package_metadata : Json → String → Outcome (Unit {0})
validate_npm_package_metadata metadata label =
    throw_if (not (is_plain_object metadata)) (gate label " is not an object") (
      throw_if (not (exact_keys metadata expected_npm_package_keys))
        (gate label " has unexpected or missing fields")
        (throw_if
          (not (is_string (get metadata "name") "@nemnesia/symbol-nem-wallet-core")
            || not (is_string (get metadata "version") "0.2.0"))
          (gate label " package identity is not the formal production package")
          (validate_npm_repository_metadata metadata label
            >> require_metadata label metadata npm_package_metadata)))
