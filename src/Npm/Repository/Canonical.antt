-- ===== src/Npm/Repository/Canonical.antt =====
-- scripts/npm-repository.mjs: accepted metadata is the canonical one.
use symbol_nem_wallet_core.Prelude.{
  String, true, not, ◌||◌, List, [], ◌∷◌, ◌≡◌, All, or-false, not-false,
}
use symbol_nem_wallet_core.Js.Json.{
  Json, string, get, is_plain_object, is_string, is_string-eq, exact_keys, throw_if-returned,
}
use symbol_nem_wallet_core.Js.Outcome.{returned, bind-returned}
use symbol_nem_wallet_core.Npm.Repository.{
  expected_npm_package_keys, expected_npm_repository, npm_package_metadata, same_json,
  require_values, validate_npm_repository_metadata, require_metadata, validate_npm_package_metadata,
}

-- The values of the fields, as texts and as JSON.
abbrev pub HaveTexts : Json → List (String × String) → Type 0
HaveTexts v entries = All (λ (key, expected). get v key ≡ string expected) entries

abbrev pub HaveValues : Json → List (String × Json) → Type 0
HaveValues v entries = All (λ (key, expected). same_json (get v key) expected ≡ true) entries

require_values-HaveTexts :
    (label : String) (v : Json) (entries : List (String × String))
    → require_values label v entries ≡ returned tt
    → HaveTexts v entries
unfolding require_values
require_values-HaveTexts label v [] k = tt
require_values-HaveTexts label v ((key, expected) ∷ entries) k =
    let (same, rest) = throw_if-returned (not (is_string (get v key) expected)) _ _ tt k in
    (
      is_string-eq (get v key) expected (not-false _ same),
      require_values-HaveTexts label v entries rest,
    )

require_metadata-HaveValues :
    (label : String) (v : Json) (entries : List (String × Json))
    → require_metadata label v entries ≡ returned tt
    → HaveValues v entries
unfolding require_metadata
require_metadata-HaveValues label v [] k = tt
require_metadata-HaveValues label v ((key, expected) ∷ entries) k =
    let (same, rest) = throw_if-returned (not (same_json (get v key) expected)) _ _ tt k in
    (not-false _ same, require_metadata-HaveValues label v entries rest)

pub validate_npm_repository_metadata-HaveTexts :
    (metadata : Json) (label : String)
    → validate_npm_repository_metadata metadata label ≡ returned tt
    → HaveTexts (get metadata "repository") expected_npm_repository
unfolding validate_npm_repository_metadata
validate_npm_repository_metadata-HaveTexts metadata label k =
    let repository = get metadata "repository" in
    let (plain, k₁) = throw_if-returned (not (is_plain_object repository)) _ _ tt k in
    let (keys, k₂) =
      throw_if-returned _ _ (require_values label repository expected_npm_repository) tt k₁ in
    require_values-HaveTexts label repository expected_npm_repository k₂

-- The package has the wallet's name and version, the canonical repository, and the canonical author,
-- homepage, bugs, keywords, publishConfig and codegenConfig.
pub record IsCanonical (metadata : Json) : Type 0 where
  pub name : get metadata "name" ≡ string "@nemnesia/symbol-nem-wallet-core"
  pub version : get metadata "version" ≡ string "0.2.0"
  pub repository : HaveTexts (get metadata "repository") expected_npm_repository
  pub values : HaveValues metadata npm_package_metadata

-- Accepted package metadata has the wallet's name, the version 0.2.0, the canonical repository, and
-- the canonical values of NPM_PACKAGE_METADATA.
pub validate_npm_package_metadata-IsCanonical :
    (metadata : Json) (label : String)
    → validate_npm_package_metadata metadata label ≡ returned tt
    → IsCanonical metadata
unfolding validate_npm_package_metadata
validate_npm_package_metadata-IsCanonical m label k =
    let (plain, k₁) = throw_if-returned (not (is_plain_object m)) _ _ tt k in
    let (keys, k₂) = throw_if-returned (not (exact_keys m expected_npm_package_keys)) _ _ tt k₁ in
    let (named, k₃) =
      throw_if-returned
        (not (is_string (get m "name") "@nemnesia/symbol-nem-wallet-core")
          || not (is_string (get m "version") "0.2.0"))
        _ _ tt k₂ in
    let (u, k₄, k₅) = bind-returned (validate_npm_repository_metadata m label) _ tt k₃ in
    let (name, version) =
      or-false (not (is_string (get m "name") "@nemnesia/symbol-nem-wallet-core"))
        (not (is_string (get m "version") "0.2.0")) named in
    record {
      name = is_string-eq _ _ (not-false _ name);
      version = is_string-eq _ _ (not-false _ version);
      repository = validate_npm_repository_metadata-HaveTexts m label k₄;
      values = require_metadata-HaveValues label m npm_package_metadata k₅;
    }
