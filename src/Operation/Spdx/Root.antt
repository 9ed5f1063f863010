-- ===== src/Operation/Spdx/Root.antt =====
-- scripts/release-operation.mjs: the one package that an accepted SPDX document describes.
use symbol_nem_wallet_core.Prelude.{
  ℕ, suc, ◌≤◌, Bool, true, false, not, List, [], ◌∷◌, ◌++◌, ◌≡◌, refl, ap, ◌∙◌, arith, All, eq_iff,
  ◌≢◌, ◌==◌, Bool-cases, inl, inr, or-false, not-false,
}
use symbol_nem_wallet_core.Js.Json.{
  Json, undefined, null, boolean, number, string, array, object, opaque, get, is_same,
  throw_if-returned,
}
use symbol_nem_wallet_core.Js.Outcome.{returned, bind-returned}
use symbol_nem_wallet_core.Release.Identity.{is_text}
use symbol_nem_wallet_core.Operation.{is_text_value, valid_commit, valid_formal_version}
use symbol_nem_wallet_core.Operation.Spdx.{
  element_list, package_malformed, is_spdx_id, seen_id, check_packages, positions, is_described,
  is_root, alone, first_differs, check_root, identity_malformed, document_malformed, document_name,
  document_namespace, first_of, check_document, validate_spdx_release_identity,
}

-- No element passes the test.
abbrev pub NoneOf : (Json → Bool) → List Json → Type 0
NoneOf p entries = All (λ entry. p entry ≡ false) entries

positions-none :
    (p : Json → Bool) (n : ℕ) (entries : List Json) → positions p n entries ≡ [] → NoneOf p entries
positions-none p n [] k = tt
positions-none p n (entry ∷ entries) k = elim (Bool-cases (p entry)) [
  | inl e ↦ cc (rw e at k)
  | inr e ↦ (e, positions-none p (suc n) entries (rw e at k))
]

positions-from :
    (p : Json → Bool) (n k : ℕ) (ks : List ℕ) (entries : List Json)
    → positions p n entries ≡ k ∷ ks
    → n ≤ k
positions-from p n k ks [] e = cc
positions-from p n k ks (entry ∷ entries) e = elim (Bool-cases (p entry)) [
  | inl t ↦
      let c : n ∷ positions p (suc n) entries ≡ k ∷ ks = rw t at e in
      let q : n ≡ k = ground arith in omega (arith, q)
  | inr t ↦ let q = positions-from p (suc n) k ks entries (rw t at e) in omega (arith, q)
]

-- One element, and it alone, passes either of two tests.
pub record OneOf (p q : Json → Bool) (entries : List Json) : Type 0 where
  pub before : List Json
  pub one : Json
  pub behind : List Json
  pub split_at : entries ≡ before ++ one ∷ behind
  pub first_test : p one ≡ true
  pub second_test : q one ≡ true
  pub not_before : NoneOf p before × NoneOf q before
  pub not_behind : NoneOf p behind × NoneOf q behind

positions-OneOf :
    (p q : Json → Bool) (n k : ℕ) (entries : List Json)
    → positions p n entries ≡ k ∷ []
    → positions q n entries ≡ k ∷ []
    → OneOf p q entries
positions-OneOf p q n k [] e f = cc
positions-OneOf p q n k (entry ∷ entries) e f = elim (Bool-cases (p entry)) [
  | inl s ↦ elim (Bool-cases (q entry)) [
    | inl t ↦
        let c : n ∷ positions p (suc n) entries ≡ k ∷ [] = rw s at e in
        let d : n ∷ positions q (suc n) entries ≡ k ∷ [] = rw t at f in
        let g : positions p (suc n) entries ≡ [] = ground arith in
        let h : positions q (suc n) entries ≡ [] = ground arith in
        record {
          before = [];
          one = entry;
          behind = entries;
          split_at = refl;
          first_test = s;
          second_test = t;
          not_before = (tt, tt);
          not_behind = (positions-none p (suc n) entries g, positions-none q (suc n) entries h);
        }
    | inr t ↦
        let c : n ∷ positions p (suc n) entries ≡ k ∷ [] = rw s at e in
        let g : n ≡ k = ground arith in
        let h = positions-from q (suc n) k [] entries (rw t at f) in absurd (omega (arith, g, h))
  ]
  | inr s ↦ elim (Bool-cases (q entry)) [
    | inl t ↦
        let d : n ∷ positions q (suc n) entries ≡ k ∷ [] = rw t at f in
        let g : n ≡ k = ground arith in
        let h = positions-from p (suc n) k [] entries (rw s at e) in absurd (omega (arith, g, h))
    | inr t ↦
        let r = positions-OneOf p q (suc n) k entries (rw s at e) (rw t at f) in
        let (np, nq) = r.not_before in
        record {
          before = entry ∷ r.before;
          one = r.one;
          behind = r.behind;
          split_at = ap (λ w. entry ∷ w) r.split_at;
          first_test = r.first_test;
          second_test = r.second_test;
          not_before = ((s, np), (t, nq));
          not_behind = r.not_behind;
        }
  ]
]

alone-one : (ns : List ℕ) → alone ns ≡ true → (k : ℕ) × (ns ≡ k ∷ [])
alone-one [] e = cc
alone-one (n ∷ []) e = (n, refl)
alone-one (n ∷ m ∷ ms) e = cc

same_first-OneOf :
    (p q : Json → Bool) (entries : List Json) (ns ms : List ℕ)
    → positions p 0 entries ≡ ns
    → positions q 0 entries ≡ ms
    → alone ns ≡ true
    → alone ms ≡ true
    → first_differs ns ms ≡ false
    → OneOf p q entries
same_first-OneOf p q entries ns ms e f a b d =
    let (k, s) = alone-one ns a in
    let (l, t) = alone-one ms b in
    let c : not (k == l) ≡ false = rw (s, t) at d in
    let g : k ≡ l = ground arith in positions-OneOf p q 0 k entries (e ∙ s) (f ∙ t ∙ rw g refl)

check_root-OneOf :
    (id version : Json) (entries : List Json) (result : Json)
    → check_root id version entries ≡ returned result
    → OneOf (is_described id) (is_root version) entries
unfolding check_root
check_root-OneOf id version entries result k =
    let described = positions (is_described id) 0 entries in
    let roots = positions (is_root version) 0 entries in
    let (a, k₁) = throw_if-returned (not (alone described)) _ _ result k in
    let (b, k₂) = throw_if-returned (not (alone roots)) _ _ result k₁ in
    let (d, k₃) = throw_if-returned (first_differs described roots) _ _ result k₂ in
    same_first-OneOf (is_described id) (is_root version) entries described roots refl refl
      (not-false _ a) (not-false _ b) d

-- No two packages have the same id.
abbrev pub HaveDistinctIds : List Json → Type 0
HaveDistinctIds [] = Unit
HaveDistinctIds (entry ∷ entries) =
    All (λ other. get other "SPDXID" ≢ get entry "SPDXID") entries × HaveDistinctIds entries

abbrev New : List Json → Json → Type 0
New seen entry = seen_id (get entry "SPDXID") seen ≡ false

same-id : (id : Json) → is_spdx_id id ≡ true → is_same id id ≡ true
same-id (string s) k = (eq_iff s s).1 refl
same-id undefined k = cc
same-id null k = cc
same-id (boolean b) k = cc
same-id (number t) k = cc
same-id (array vs) k = cc
same-id (object fs) k = cc
same-id (opaque t) k = cc

fresh-distinct :
    (id : Json) (seen entries : List Json)
    → is_spdx_id id ≡ true
    → All (New (id ∷ seen)) entries
    → All (λ other. get other "SPDXID" ≢ id) entries × All (New seen) entries
fresh-distinct id seen [] valid k = (tt, tt)
fresh-distinct id seen (other ∷ others) valid (new, more) =
    let (differs, fresh) = or-false (is_same id (get other "SPDXID")) _ new in
    let (ds, fs) = fresh-distinct id seen others valid more in
    ((λ same. let t = same-id id valid in cc (rw same at differs), ds), (fresh, fs))

check_packages-distinct :
    (seen entries : List Json)
    → check_packages seen entries ≡ returned tt
    → All (New seen) entries × HaveDistinctIds entries
unfolding check_packages package_malformed
check_packages-distinct seen [] k = (tt, tt)
check_packages-distinct seen (entry ∷ entries) k =
    let id = get entry "SPDXID" in
    let (c, k₁) = throw_if-returned (package_malformed entry) _ _ tt k in
    let (new, k₂) = throw_if-returned (seen_id id seen) _ _ tt k₁ in
    let (c₁, version) = or-false _ (not (is_text_value (get entry "versionInfo"))) c in
    let (c₂, name) = or-false _ (not (is_text_value (get entry "name"))) c₁ in
    let (c₃, valid) = or-false _ (not (is_spdx_id id)) c₂ in
    let (news, distinct) = check_packages-distinct (id ∷ seen) entries k₂ in
    let (ds, fs) = fresh-distinct id seen entries (not-false _ valid) news in
    ((new, fs), (ds, distinct))

-- The packages of a document, and the one that stands for the release.
pub record DescribesRelease (sbom manifest : Json) : Type 0 where
  pub named : is_text (get sbom "name") (document_name (get manifest "package_version")) ≡ true
  pub namespace :
      is_text
        (get sbom "documentNamespace")
        (document_namespace (get manifest "package_version") (get manifest "source_commit"))
      ≡ true
  pub distinct : HaveDistinctIds (element_list (get sbom "packages"))
  pub root :
      OneOf
        (is_described (first_of (element_list (get sbom "documentDescribes"))))
        (is_root (get manifest "package_version"))
        (element_list (get sbom "packages"))

-- When validateSpdxReleaseIdentity accepts, the name and the namespace of the document are those of
-- the version and the commit of the manifest, no two packages have the same id, and one package,
-- which is the only one with the id that the document describes first, is also the only one with
-- the name of the wallet and the version of the manifest.
pub validate_spdx_release_identity-DescribesRelease :
    (sbom manifest result : Json)
    → validate_spdx_release_identity sbom manifest ≡ returned result
    → DescribesRelease sbom manifest
unfolding validate_spdx_release_identity
validate_spdx_release_identity-DescribesRelease sbom manifest result k =
    let packages = element_list (get sbom "packages") in
    let (c, k₁) = throw_if-returned (identity_malformed manifest) _ _ result k in
    let (u, k₂, k₃) =
      bind-returned
        (valid_formal_version (get manifest "package_version") "release manifest version") _ result
        k₁ in
    let (v, k₄, k₅) =
      bind-returned (valid_commit (get manifest "source_commit") "release manifest source commit") _
        result k₃ in
    let (w, k₆, k₇) = bind-returned (check_document sbom manifest) _ result k₅ in
    let (x, k₈, k₉) = bind-returned (check_packages [] packages) _ result k₇ in
    let (document, l₁) = throw_if-returned (document_malformed sbom) _ _ w k₆ in
    let (named, l₂) =
      throw_if-returned
        (not (is_text (get sbom "name") (document_name (get manifest "package_version")))) _ _ w
        l₁ in
    let (namespace, l₃) =
      throw_if-returned
        (not (
          is_text (get sbom "documentNamespace")
            (document_namespace (get manifest "package_version") (get manifest "source_commit"))))
        _ _ w l₂ in
    let (fresh, distinct) = check_packages-distinct [] packages k₈ in
    record {
      named = not-false _ named;
      namespace = not-false _ namespace;
      distinct = distinct;
      root = check_root-OneOf _ _ packages result k₉;
    }
