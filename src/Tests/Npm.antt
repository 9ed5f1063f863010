-- ===== src/Tests/Npm.antt =====
-- Runs of scripts/npm-repository.mjs.
use symbol_nem_wallet_core.Prelude.{◌≡◌, refl, String, List, [], ◌∷◌}
use symbol_nem_wallet_core.Js.Json.{
  Json, null, string, object, Fields, end, field, get, keys, exact_keys, error,
}
use symbol_nem_wallet_core.Js.Outcome.{thrown}
use symbol_nem_wallet_core.Npm.Repository.{
  expected_npm_repository, npm_package_metadata, same_json, require_values, require_metadata, gate,
  validate_npm_repository_metadata, validate_npm_package_metadata,
}
use symbol_nem_wallet_core.Npm.Repository.Canonical.{
  IsCanonical, validate_npm_package_metadata-IsCanonical,
}

abbrev fields_of : List (String × String) → Fields
fields_of [] = end
fields_of ((key, value) ∷ entries) = field key (string value) (fields_of entries)

abbrev canonical_fields : List (String × Json) → Fields → Fields
canonical_fields [] rest = rest
canonical_fields ((key, value) ∷ entries) rest = field key value (canonical_fields entries rest)

abbrev nulls : List String → Fields
nulls [] = end
nulls (key ∷ names) = field key null (nulls names)

abbrev metadata : String → Json
metadata version = object (
    field "name" (string "@nemnesia/symbol-nem-wallet-core") (
      field "version" (string version) (
        field "repository" (object (fields_of expected_npm_repository)) (
          canonical_fields npm_package_metadata (
            nulls (
              "description" ∷ "license" ∷ "type" ∷ "types" ∷ "main" ∷ "module" ∷ "exports"
              ∷ "engines" ∷ "files" ∷ []))))))

validate_npm_package_metadata-IsCanonical_example : IsCanonical (metadata "0.2.0")
unfolding validate_npm_package_metadata validate_npm_repository_metadata require_values
    require_metadata same_json exact_keys keys get
validate_npm_package_metadata-IsCanonical_example =
    validate_npm_package_metadata-IsCanonical (metadata "0.2.0") "package" refl

other_version_run :
    validate_npm_package_metadata (metadata "0.3.0") "package"
    ≡ thrown (error (gate "package" " package identity is not the formal production package"))
unfolding validate_npm_package_metadata exact_keys keys get
other_version_run = refl
