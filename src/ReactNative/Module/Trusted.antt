-- ===== src/ReactNative/Module/Trusted.antt =====
-- native-module.mjs: which modules are handed out, and how everything else ends.
use symbol_nem_wallet_core.Prelude.{
  String, Bool, true, false, not, Option, none, some, List, [], ◌∷◌, ◌≡◌, refl, ◌===◌, In, inl, inr,
  eq_iff, arith, ap, subst, ◌∙◌, Bool-cases, or-false, not-false, if◌then◌else◌,
}
use symbol_nem_wallet_core.Js.Json.{
  Json, undefined, null, boolean, number, string, array, object, opaque, get, is_string-eq,
  throw_if-returned,
}
use symbol_nem_wallet_core.Js.Outcome.{Exception, Outcome, returned, thrown, ◌>>=◌, bind-returned}
use symbol_nem_wallet_core.ReactNative.Identities.{
  Expected, expected_artifacts, invalid_manifest, manifest_differs, artifact_differs,
  collect_identities, items_of, manifest_artifact_identities,
}
use symbol_nem_wallet_core.ReactNative.Identities.Accepted.{
  IsManifest, manifest_differs-IsManifest, IsArtifact, artifact_differs-IsArtifact, AreArtifacts,
  collect_identities-AreArtifacts,
}
use symbol_nem_wallet_core.ReactNative.Module.{
  NativeModule, initialization_error, or_initialization_error, require_module, lookup, is_identity,
  is_expected, identity_differs, no_arguments, check_identity, get_react_native_module,
}

or_initialization_error-returned :
    {A : Type 0} (m : Outcome A) (a : A) → or_initialization_error m ≡ returned a → m ≡ returned a
or_initialization_error-returned (returned b) a k = k
or_initialization_error-returned (thrown e) a k = cc

-- An artifact of the manifest is an expected one, with the target and the identity.
pub record IsExpected (id identity : String) (artifacts : List Json) (expected : List Expected)
    : Type 0 where
  pub artifact : Json
  pub among : In artifact artifacts
  pub target : Expected
  pub known : In target expected
  pub is_artifact : IsArtifact artifact target
  pub target_id : target.target_id ≡ id
  pub artifact_identity : target.artifact_identity ≡ identity

collect_identities-IsExpected :
    (artifacts : List Json) (expected : List Expected) (found : List (String × String))
    (id identity : String)
    → collect_identities artifacts expected ≡ returned found
    → lookup found id ≡ some identity
    → IsExpected id identity artifacts expected
unfolding collect_identities
collect_identities-IsExpected [] expected found id identity k l =
    let q : [] ≡ found = ground arith in cc (rw (← q) at l)
collect_identities-IsExpected (a ∷ artifacts) [] found id identity k l = cc
collect_identities-IsExpected (a ∷ artifacts) (e ∷ expected) found id identity k l =
    let (same, k₁) = throw_if-returned (artifact_differs a e) invalid_manifest _ found k in
    let (rest, c, r) =
      bind-returned (collect_identities artifacts expected)
        (λ r. returned ((e.target_id, e.artifact_identity) ∷ r)) found k₁ in
    let q : (e.target_id, e.artifact_identity) ∷ rest ≡ found = ground arith in
    let l' : lookup ((e.target_id, e.artifact_identity) ∷ rest) id ≡ some identity =
      rw (← q) at l in
    elim (Bool-cases (e.target_id === id)) [
      | inl here ↦
          let t : some e.artifact_identity ≡ some identity = rw here at l' in
          record {
            artifact = a;
            among = inl refl;
            target = e;
            known = inl refl;
            is_artifact = artifact_differs-IsArtifact a e same;
            target_id = (eq_iff _ _).0 here;
            artifact_identity = ground arith;
          }
      | inr later ↦
          let p =
            collect_identities-IsExpected artifacts expected rest id identity c (rw later at l') in
          record {
            artifact = p.artifact;
            among = inr p.among;
            target = p.target;
            known = inr p.known;
            is_artifact = p.is_artifact;
            target_id = p.target_id;
            artifact_identity = p.artifact_identity;
          }
    ]

-- The artifacts of a manifest.
abbrev pub artifacts_of : Json → List Json
artifacts_of manifest = items_of (get manifest "artifacts")

-- The manifest is the expected one, the module was found, and it says that it is one of the
-- artifacts of the manifest.
pub record IsTrusted (manifest : Json) (registry : Outcome (Option NativeModule)) (m : NativeModule)
    : Type 0 where
  pub found : registry ≡ returned (some m)
  pub is_manifest : IsManifest manifest
  pub are_artifacts : AreArtifacts (artifacts_of manifest) expected_artifacts
  pub identity : Json
  pub answer : m.invoke "__snwc_runtime_identity" no_arguments ≡ returned identity
  pub target : String
  pub artifact : String
  pub target_text : get identity "target_id" ≡ string target
  pub artifact_text : get identity "artifact_identity" ≡ string artifact
  pub expected : IsExpected target artifact (artifacts_of manifest) expected_artifacts

is_identity-some :
    (v : Json) (o : Option String)
    → is_identity v o ≡ true
    → (s : String) × (o ≡ some s) × (v ≡ string s)
is_identity-some v none k = cc
is_identity-some v (some s) k = (s, refl, is_string-eq v s k)

-- The identity names a target of the map, with what the map has for it.
abbrev Named : List (String × String) → Json → Json → Type 0
Named ids id identity =
    (t : String) × ((s : String) × (id ≡ string t)
      × ((identity ≡ string s) × (lookup ids t ≡ some s)))

is_expected-Named :
    (ids : List (String × String)) (id v : Json) → is_expected ids id v ≡ true → Named ids id v
is_expected-Named ids (string t) v k =
    let (s, l, e) = is_identity-some v (lookup ids t) k in (t, (s, refl, (e, l)))
is_expected-Named ids undefined v k = cc
is_expected-Named ids null v k = cc
is_expected-Named ids (boolean b) v k = cc
is_expected-Named ids (number t) v k = cc
is_expected-Named ids (array vs) v k = cc
is_expected-Named ids (object fs) v k = cc
is_expected-Named ids (opaque t) v k = cc

checked :
    (differs : Bool) (m n : NativeModule)
    → (if differs then thrown initialization_error else returned m) ≡ returned n
    → (differs ≡ false) × (m ≡ n)
checked true m n k = cc
checked false m n k = (refl, ground arith)

require_module-some :
    (o : Option NativeModule) (m : NativeModule) → require_module o ≡ returned m → o ≡ some m
require_module-some none m k = cc
require_module-some (some n) m k = let q : n ≡ m = ground arith in ap some q

identities-IsExpected :
    (manifest : Json) (ids : List (String × String)) (id identity : String)
    → manifest_artifact_identities manifest ≡ returned ids
    → lookup ids id ≡ some identity
    → IsManifest manifest
      × (AreArtifacts (artifacts_of manifest) expected_artifacts
          × IsExpected id identity (artifacts_of manifest) expected_artifacts)
unfolding manifest_artifact_identities
identities-IsExpected manifest ids id identity k l =
    let (same, c) = throw_if-returned (manifest_differs manifest) invalid_manifest _ ids k in
    let artifacts = artifacts_of manifest in
    (
      manifest_differs-IsManifest manifest same,
      (
        collect_identities-AreArtifacts artifacts expected_artifacts ids c,
        collect_identities-IsExpected artifacts expected_artifacts ids id identity c l,
      ),
    )

named_module :
    (manifest : Json) (registry : Outcome (Option NativeModule)) (m : NativeModule)
    (ids : List (String × String)) (identity : Json)
    → manifest_artifact_identities manifest ≡ returned ids
    → registry ≡ returned (some m)
    → m.invoke "__snwc_runtime_identity" no_arguments ≡ returned identity
    → identity_differs ids identity ≡ false
    → IsTrusted manifest registry m
unfolding identity_differs
named_module manifest registry m ids identity k f a d =
    let named = is_expected ids (get identity "target_id") (get identity "artifact_identity") in
    let (rest, e) = or-false _ (not named) d in
    let (t, (s, i, (v, l))) =
      is_expected-Named ids (get identity "target_id") (get identity "artifact_identity")
        (not-false _ e) in
    let (same, (artifacts, expected)) = identities-IsExpected manifest ids t s k l in
    record {
      found = f;
      is_manifest = same;
      are_artifacts = artifacts;
      identity = identity;
      answer = a;
      target = t;
      artifact = s;
      target_text = i;
      artifact_text = v;
      expected = expected;
    }

-- A module is handed out only where the manifest has the schema, the name, a version, a commit and
-- just the four expected artifacts, each with its platform, environment, architecture, path and file
-- name; the registry gives the module; and the module's answer about itself names the target of an
-- artifact of the manifest, with the identity that is expected of it.
pub get_react_native_module-IsTrusted :
    (manifest : Json) (registry : Outcome (Option NativeModule)) (m : NativeModule)
    → get_react_native_module manifest registry ≡ returned m
    → IsTrusted manifest registry m
unfolding get_react_native_module check_identity
get_react_native_module-IsTrusted manifest registry m k =
    let (ids, k₁, k₂) =
      bind-returned (or_initialization_error (manifest_artifact_identities manifest)) _ m k in
    let (found, k₃, k₄) = bind-returned (or_initialization_error registry) _ m k₂ in
    let (n, k₅, k₆) = bind-returned (require_module found) _ m k₄ in
    let (identity, k₇, k₈) =
      bind-returned (or_initialization_error (n.invoke "__snwc_runtime_identity" no_arguments)) _ m
        k₆ in
    let (same, e) = checked (identity_differs ids identity) n m k₈ in
    subst (IsTrusted manifest registry) e (
      named_module manifest registry n ids identity (or_initialization_error-returned _ ids k₁)
        (or_initialization_error-returned registry found k₃
          ∙ ap returned (require_module-some found n k₅))
        (or_initialization_error-returned _ identity k₇) same)

-- Code that throws the error of the initialization only.
record Fails {A : Type 0} (m : Outcome A) : Type 0 where
  at : (e : Exception) → m ≡ thrown e → e ≡ initialization_error

Fails-bind :
    {A B : Type 0} (m : Outcome A) (f : A → Outcome B)
    → Fails m
    → ((a : A) → Fails (f a))
    → Fails (m >>= f)
Fails-bind (returned a) f p q = q a
Fails-bind (thrown e) f p q = record { at = λ x k. p.at x (ground arith) }

Fails-or_initialization_error : {A : Type 0} (m : Outcome A) → Fails (or_initialization_error m)
Fails-or_initialization_error (returned a) = record { at = λ e k. cc }
Fails-or_initialization_error (thrown x) = record { at = λ e k. ground arith }

Fails-require_module : (o : Option NativeModule) → Fails (require_module o)
Fails-require_module none = record { at = λ e k. ground arith }
Fails-require_module (some m) = record { at = λ e k. cc }

Fails-checked :
    (differs : Bool) (m : NativeModule)
    → Fails (if differs then thrown initialization_error else returned m)
Fails-checked true m = record { at = λ e k. ground arith }
Fails-checked false m = record { at = λ e k. cc }

-- Whatever goes wrong, in the manifest, the registry or the module, the caller sees the same error.
pub get_react_native_module-fails :
    (manifest : Json) (registry : Outcome (Option NativeModule)) (e : Exception)
    → get_react_native_module manifest registry ≡ thrown e
    → e ≡ initialization_error
unfolding get_react_native_module check_identity
get_react_native_module-fails manifest registry =
    (Fails-bind _ _ (Fails-or_initialization_error (manifest_artifact_identities manifest)) λ ids.
      Fails-bind _ _ (Fails-or_initialization_error registry) λ found.
        Fails-bind _ _ (Fails-require_module found) λ m.
          Fails-bind _ _ (Fails-or_initialization_error _)
            λ identity. Fails-checked (identity_differs ids identity) m).at
