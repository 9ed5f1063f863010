-- ===== src/Operation/Spdx.antt =====
-- scripts/release-operation.mjs: validateSpdxReleaseIdentity. An element of an array is known by its
-- position, since JSON.parse makes each object once.
pub mod Root
use symbol_nem_wallet_core.Prelude.{
  ℕ, zero, suc, String, Bool, true, false, not, ◌&&◌, ◌||◌, Option, none, some, List, [], ◌∷◌, ◌++◌,
  codes, length, all, ltb, ◌==◌, starts_with, if◌then◌else◌,
}
use Prim.Native.String
use symbol_nem_wallet_core.Js.Json.{
  Json, boolean, string, array, Items, items, is_plain_object, get, is_string, is_same, throw_if,
  error, text,
}
use symbol_nem_wallet_core.Js.Outcome.{Outcome, returned, thrown, ◌>>=◌, ◌>>◌}
use symbol_nem_wallet_core.Manifest.Versions.{is_empty, is_label}
use symbol_nem_wallet_core.Release.Versions.{npm_package_name}
use symbol_nem_wallet_core.Release.Identity.{is_text}
use symbol_nem_wallet_core.Operation.{gate, is_text_value, valid_commit, valid_formal_version}

-- /^SPDXRef-[A-Za-z0-9.-]+$/
abbrev after_prefix : List ℕ → List ℕ → Bool
after_prefix [] cs = not (is_empty cs) && all is_label cs
after_prefix (p ∷ ps) [] = false
after_prefix (p ∷ ps) (c ∷ cs) = p == c && after_prefix ps cs

abbrev pub is_spdx_id : Json → Bool
is_spdx_id (string s) = after_prefix (codes "SPDXRef-") (codes s)
is_spdx_id _ = false

abbrev pub element_list : Json → List Json
element_list (array vs) = items vs
element_list _ = []

abbrev pub is_array : Json → Bool
is_array (array vs) = true
is_array _ = false

unfoldable pub package_malformed : Json → Bool
package_malformed entry =
    not (is_plain_object entry)
    || not (is_spdx_id (get entry "SPDXID"))
    || not (is_text_value (get entry "name"))
    || not (is_text_value (get entry "versionInfo"))

-- packageIds.has
abbrev pub seen_id : Json → List Json → Bool
seen_id id [] = false
seen_id id (other ∷ others) = is_same other id || seen_id id others

-- The loop over the packages, with packageIds.
unfoldable pub check_packages : List Json → List Json → Outcome (Unit {0})
check_packages seen [] = returned tt
check_packages seen (entry ∷ entries) =
    let rest = check_packages (get entry "SPDXID" ∷ seen) entries in
    throw_if (package_malformed entry) (gate "SPDX packages are missing or malformed")
      (throw_if (seen_id (get entry "SPDXID") seen) (gate "SPDX package IDs are duplicated") rest)

-- The positions of the elements that a test accepts, as filter keeps them.
abbrev pub positions : (Json → Bool) → ℕ → List Json → List ℕ
positions accepts n [] = []
positions accepts n (entry ∷ entries) =
    let rest = positions accepts (suc n) entries in if accepts entry then n ∷ rest else rest

abbrev pub is_described : Json → Json → Bool
is_described id entry = is_same (get entry "SPDXID") id

abbrev pub is_root : Json → Json → Bool
is_root version entry =
    is_string (get entry "name") npm_package_name && is_same (get entry "versionInfo") version

abbrev pub alone : List ℕ → Bool
alone [] = false
alone (n ∷ []) = true
alone (n ∷ m ∷ ms) = false

-- describedPackages[0] !== rootPackages[0]
abbrev pub first_differs : List ℕ → List ℕ → Bool
first_differs (n ∷ ns) (m ∷ ms) = not (n == m)
first_differs [] [] = false
first_differs [] (m ∷ ms) = true
first_differs (n ∷ ns) [] = true

unfoldable pub check_root : Json → Json → List Json → Outcome Json
check_root id version entries =
    let described = positions (is_described id) 0 entries in
    let roots = positions (is_root version) 0 entries in
    throw_if (not (alone described)) (gate "SPDX document root package is missing or duplicated") (
      throw_if (not (alone roots)) (gate "SPDX root npm package is missing or duplicated") (
        throw_if (first_differs described roots)
          (gate "SPDX document root package identity differs from the release manifest")
          (returned (boolean true))))

unfoldable pub identity_malformed : Json → Bool
identity_malformed manifest =
    not (is_plain_object manifest)
    || not (is_string (get manifest "package_name") npm_package_name)
    || not (is_text_value (get manifest "package_version"))
    || not (is_text_value (get manifest "source_commit"))

unfoldable pub document_malformed : Json → Bool
document_malformed sbom =
    not (is_plain_object sbom)
    || not (is_string (get sbom "SPDXID") "SPDXRef-DOCUMENT")
    || not (is_string (get sbom "spdxVersion") "SPDX-2.3")
    || not (is_string (get sbom "dataLicense") "CC0-1.0")

-- symbol-nem-wallet-core-${version}
abbrev pub document_name : Json → List ℕ
document_name version = codes "symbol-nem-wallet-core-" ++ text version

-- https://spdx.org/spdxdocs/symbol-nem-wallet-core-${version}-${commit}
abbrev pub document_namespace : Json → Json → List ℕ
document_namespace version commit =
    codes "https://spdx.org/spdxdocs/symbol-nem-wallet-core-"
    ++ (text version ++ b'-' ∷ text commit)

abbrev pub described_count : Json → ℕ
described_count files = elim (length (element_list files)) [ zero ↦ 1 | suc n ↦ suc (suc n) ]

abbrev pub first_of : List Json → Json
first_of [] = Json.undefined
first_of (v ∷ vs) = v

unfoldable pub describes_malformed : Json → Bool
describes_malformed sbom =
    not (is_array (get sbom "documentDescribes"))
    || not
        (length (element_list (get sbom "documentDescribes")) == described_count (get sbom "files"))
    || not (is_text_value (first_of (element_list (get sbom "documentDescribes"))))

abbrev pub check_document : Json → Json → Outcome (Unit {0})
check_document sbom manifest =
    throw_if (document_malformed sbom) (gate "SPDX document identity is invalid") (
      throw_if (not (is_text (get sbom "name") (document_name (get manifest "package_version"))))
        (gate "SPDX document name differs from the release manifest")
        (throw_if
          (not (
            is_text (get sbom "documentNamespace")
              (document_namespace (get manifest "package_version") (get manifest "source_commit"))))
          (gate "SPDX document namespace differs from the release manifest")
          (throw_if (describes_malformed sbom)
            (gate "SPDX document root package identity is invalid")
            (throw_if (not (is_array (get sbom "packages")))
              (gate "SPDX packages are missing or malformed") (returned tt)))))

unfoldable pub validate_spdx_release_identity : Json → Json → Outcome Json
validate_spdx_release_identity sbom manifest =
    let packages = element_list (get sbom "packages") in
    throw_if (identity_malformed manifest) (gate "release manifest identity is invalid") (
      valid_formal_version (get manifest "package_version") "release manifest version"
      >> (valid_commit (get manifest "source_commit") "release manifest source commit"
          >> (check_document sbom manifest
              >> (check_packages [] packages
                  >> check_root (first_of (element_list (get sbom "documentDescribes")))
                      (get manifest "package_version") packages))))
