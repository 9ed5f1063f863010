-- ===== src/NodeEntry/Trusted.antt =====
-- node/index.mjs: which addons are loaded.
use symbol_nem_wallet_core.Prelude.{
  ℕ, String, true, Option, none, some, List, [], ◌∷◌, ◌≡◌, refl, codes, same_codes-eq, In, inl, inr,
  Bool-cases, arith, subst,
}
use symbol_nem_wallet_core.Js.Json.{
  Json, undefined, null, boolean, number, string, array, object, opaque, get, is_string,
  is_string-eq, text,
}
use symbol_nem_wallet_core.Js.Outcome.{Outcome, returned, thrown, bind-returned}
use symbol_nem_wallet_core.Facade.Operations.{Backend}
use symbol_nem_wallet_core.Manifest.Targets.{target_for_runtime}
use symbol_nem_wallet_core.Manifest.Artifacts.{validate_native_manifest}
use symbol_nem_wallet_core.Manifest.Artifacts.Accepted.{
  IsManifest, validate_native_manifest-IsManifest,
}
use symbol_nem_wallet_core.ReactNative.Module.{or_initialization_error}
use symbol_nem_wallet_core.NodeEntry.{
  Runtime, runtime_glibc_version, find_artifact, artifacts_of, has_digest, require_checked,
  load_addon, load_entry, load_target, load_native_backend,
}

caught :
    {A : Type 0} (m : Outcome A) (a : A) → or_initialization_error m ≡ returned a → m ≡ returned a
caught (returned b) a k = k
caught (thrown e) a k = cc

find_artifact-In :
    (id : String) (xs : List Json) (a : Json)
    → find_artifact id xs ≡ some a
    → In a xs × (get a "target_id" ≡ string id)
unfolding find_artifact
find_artifact-In id [] a k = cc
find_artifact-In id (x ∷ xs) a k = elim (Bool-cases (is_string (get x "target_id") id)) [
  | inl e ↦
      let q : some x ≡ some a = rw e at k in
      let t : x ≡ a = ground arith in
      (inl t, subst (λ v. get v "target_id" ≡ string id) t (is_string-eq (get x "target_id") id e))
  | inr e ↦ let (i, t) = find_artifact-In id xs a (rw e at k) in (inr i, t)
]

has_digest-codes :
    (v : Json) (actual : List ℕ)
    → has_digest v actual ≡ true
    → (s : String) × (v ≡ string s) × (codes s ≡ actual)
has_digest-codes (string s) actual k = (s, refl, same_codes-eq (codes s) actual k)
has_digest-codes undefined actual k = cc
has_digest-codes null actual k = cc
has_digest-codes (boolean b) actual k = cc
has_digest-codes (number t) actual k = cc
has_digest-codes (array vs) actual k = cc
has_digest-codes (object fs) actual k = cc
has_digest-codes (opaque t) actual k = cc

-- The addon is a file with the digest that its entry of the manifest gives.
pub record IsAddon (r : Runtime) (entry : Json) (b : Backend) : Type 0 where
  pub bytes : List ℕ
  pub file : r.read_file (text (get entry "relative_path")) ≡ returned bytes
  pub digest : String
  pub digest_text : get entry "sha256" ≡ string digest
  pub spelled : codes digest ≡ r.sha256 bytes
  pub required : r.require (text (get entry "relative_path")) ≡ returned b

load_addon-IsAddon :
    (r : Runtime) (entry : Json) (b : Backend) → load_addon r entry ≡ returned b → IsAddon r entry b
unfolding load_addon
load_addon-IsAddon r entry b k =
    let (bytes, f, c) =
      bind-returned (r.read_file (text (get entry "relative_path"))) (require_checked r entry) b
        (caught _ b k) in
    elim (Bool-cases (has_digest (get entry "sha256") (r.sha256 bytes))) [
      | inl e ↦
          let (s, t, d) = has_digest-codes (get entry "sha256") (r.sha256 bytes) e in
          record {
            bytes = bytes;
            file = f;
            digest = s;
            digest_text = t;
            spelled = d;
            required = rw e at c;
          }
      | inr e ↦ cc (rw e at c)
    ]

-- A native backend is the addon of the platform's target in a valid manifest.
pub record IsNative (r : Runtime) (b : Backend) : Type 0 where
  pub package_meta : Json
  pub package_found : r.package_json ≡ returned package_meta
  pub manifest : Json
  pub manifest_found : r.manifest_json ≡ returned manifest
  pub valid : IsManifest manifest package_meta
  pub target : String
  pub chosen : target_for_runtime r.platform r.arch (runtime_glibc_version r) ≡ some target
  pub entry : Json
  pub listed : In entry (artifacts_of (get manifest "artifacts"))
  pub named : get entry "target_id" ≡ string target
  pub addon : IsAddon r entry b

-- What is loaded from a valid manifest.
abbrev Loaded : Runtime → Json → Option String → Backend → Type 0
Loaded r manifest target b =
    (id : String) × (target ≡ some id)
    × ((entry : Json) × (In entry (artifacts_of (get manifest "artifacts"))
          × (get entry "target_id" ≡ string id))
        × IsAddon r entry b)

load_entry-IsAddon :
    (r : Runtime) (o : Option Json) (b : Backend)
    → load_entry r o ≡ returned (some b)
    → (entry : Json) × (o ≡ some entry) × IsAddon r entry b
load_entry-IsAddon r none b k = let q : ◌≡◌ {A = Option Backend} none (some b) = ground arith in cc
load_entry-IsAddon r (some entry) b k =
    let (c, l, q) = bind-returned (load_addon r entry) (λ b. returned (some b)) (some b) k in
    let e : c ≡ b = ground arith in
    (entry, refl, subst (IsAddon r entry) e (load_addon-IsAddon r entry c l))

load_target-Loaded :
    (r : Runtime) (manifest : Json) (target : Option String) (b : Backend)
    → load_target r manifest target ≡ returned (some b)
    → Loaded r manifest target b
load_target-Loaded r manifest none b k =
    let q : ◌≡◌ {A = Option Backend} none (some b) = ground arith in cc
load_target-Loaded r manifest (some id) b k =
    let (entry, f, a) =
      load_entry-IsAddon r (find_artifact id (artifacts_of (get manifest "artifacts"))) b k in
    (id, refl, (entry, find_artifact-In id _ entry f, a))

-- A native backend that is loaded belongs to the target of the platform, stands in a manifest that is
-- valid for the package, and its file has the SHA-256 digest of the manifest.
pub load_native_backend-IsNative :
    (r : Runtime) (b : Backend) → load_native_backend r ≡ returned (some b) → IsNative r b
unfolding load_native_backend
load_native_backend-IsNative r b k =
    let (meta, p, k₁) = bind-returned (or_initialization_error r.package_json) _ (some b) k in
    let (manifest, m, k₂) = bind-returned (or_initialization_error r.manifest_json) _ (some b) k₁ in
    let (valid, v, k₃) =
      bind-returned (or_initialization_error (validate_native_manifest manifest meta)) _ (some b)
        k₂ in
    let (id, c, (entry, (i, n), a)) = load_target-Loaded r manifest _ b k₃ in
    record {
      package_meta = meta;
      package_found = caught r.package_json meta p;
      manifest = manifest;
      manifest_found = caught r.manifest_json manifest m;
      valid = (validate_native_manifest-IsManifest manifest meta valid (caught _ valid v)).1;
      target = id;
      chosen = c;
      entry = entry;
      listed = i;
      named = n;
      addon = a;
    }
