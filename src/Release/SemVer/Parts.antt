-- ===== src/Release/SemVer/Parts.antt =====
-- scripts/release-identity.mjs: the parts of a version that parseSemVer accepts make up its text.
use symbol_nem_wallet_core.Prelude.{
  ℕ, String, true, ◌&&◌, Option, none, some, List, [], ◌∷◌, ◌++◌, ◌≡◌, refl, codes, ◌==◌,
  Bool-cases, inl, inr, arith, ap, and-true, sym, ◌∙◌, subst,
}
use symbol_nem_wallet_core.Js.Json.{string}
use symbol_nem_wallet_core.Release.SemVer.{
  SemVer, cons_cut, cut, split, is_core, optional_parts, is_identifier, is_prerelease_identifier,
  semver_of, without_build, parse_semver,
}

-- What stands after a separator, with it.
abbrev pub suffix : ℕ → Option (List ℕ) → List ℕ
suffix separator none = []
suffix separator (some cs) = separator ∷ cs

abbrev pub rejoin : ℕ → List ℕ × Option (List ℕ) → List ℕ
rejoin separator (front, rest) = front ++ suffix separator rest

rejoin-cons_cut :
    (s c : ℕ) (p : List ℕ × Option (List ℕ)) → rejoin s (cons_cut c p) ≡ c ∷ rejoin s p
rejoin-cons_cut s c (front, rest) = refl

pub rejoin-cut : (separator : ℕ) (cs : List ℕ) → rejoin separator (cut separator cs) ≡ cs
unfolding cut
rejoin-cut s [] = refl
rejoin-cut s (c ∷ cs) = elim (Bool-cases (c == s)) [
  | inl e ↦ let q : c ≡ s = ground arith in rw e (rw q refl)
  | inr e ↦ rw (e, rejoin-cons_cut s c (cut s cs), rejoin-cut s cs) refl
]

-- A version with its parts, of which each is well formed.
pub record IsSemVer (text : String) (v : SemVer) : Type 0 where
  pub value : v.value ≡ text
  pub printed : codes text ≡ (v.core ++ suffix b'-' v.prerelease) ++ suffix b'+' v.build
  pub core : is_core (split b'.' v.core) ≡ true
  pub prerelease : optional_parts is_prerelease_identifier v.prerelease ≡ true
  pub build : optional_parts is_identifier v.build ≡ true

semver_of-IsSemVer :
    (s : String) (front : List ℕ × Option (List ℕ)) (build : Option (List ℕ)) (v : SemVer)
    → codes s ≡ rejoin b'-' front ++ suffix b'+' build
    → semver_of s front build ≡ some v
    → IsSemVer s v
semver_of-IsSemVer s (core, pre) build v p k =
    elim (Bool-cases (
      is_core (split b'.' core)
      && optional_parts is_prerelease_identifier pre
      && optional_parts is_identifier build)) [
        | inl accepted ↦
            let (front, b) =
              and-true (is_core (split b'.' core) && optional_parts is_prerelease_identifier pre)
                (optional_parts is_identifier build) accepted in
            let (c, r) =
              and-true (is_core (split b'.' core)) (optional_parts is_prerelease_identifier pre)
                front in
            let q : some (record { value = s; core = core; prerelease = pre; build = build })
                ≡ some v =
              rw accepted at k in
            let e : record { value = s; core = core; prerelease = pre; build = build } ≡ v =
              ground arith in
            subst (IsSemVer s) e
              (record { value = refl; printed = p; core = c; prerelease = r; build = b })
        | inr rejected ↦ cc (rw rejected at k)
      ]

without_build-IsSemVer :
    (s : String) (front : List ℕ × Option (List ℕ)) (v : SemVer)
    → codes s ≡ rejoin b'+' front
    → without_build s front ≡ some v
    → IsSemVer s v
without_build-IsSemVer s (front, build) v p k =
    semver_of-IsSemVer s (cut b'-' front) build v
      (p ∙ ap (λ f. f ++ suffix b'+' build) (sym (rejoin-cut b'-' front))) k

-- A text that parses is made up of its core, its prerelease behind a dash and its build behind a
-- plus; the core is three numbers without leading zeros, and the others are identifiers joined by
-- dots.
pub parse_semver-IsSemVer :
    (s : String) (v : SemVer) → parse_semver (string s) ≡ some v → IsSemVer s v
unfolding parse_semver
parse_semver-IsSemVer s v k =
    without_build-IsSemVer s (cut b'+' (codes s)) v (sym (rejoin-cut b'+' (codes s))) k
