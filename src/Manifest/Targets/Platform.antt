-- ===== src/Manifest/Targets/Platform.antt =====
-- manifest.mjs: targetForRuntime against the table of the native targets.
use symbol_nem_wallet_core.Prelude.{
  and-true, String, true, Option, none, some, List, [], ◌∷◌, ◌≡◌, refl, ◌↔◌, inl, inr, ◌===◌, In,
  eq_iff, arith, ap, Bool-cases, ◌&&◌, if◌then◌else◌,
}
use symbol_nem_wallet_core.Js.Json.{Json}
use symbol_nem_wallet_core.Manifest.Versions.{supports_linux_glibc}
use symbol_nem_wallet_core.Manifest.Targets.{
  Target, win32_x64, darwin_x64, darwin_arm64, linux_x64, native_targets, lookup, native_target,
  target_for_runtime,
}

-- what Node.js calls the operating systems of the table
abbrev pub platform_of : String → String
platform_of os = if os === "windows" then "win32" else if os === "macos" then "darwin" else os

-- the glibc that a target wants is there
abbrev pub HasLibc : Option String → Json → Type 0
HasLibc none version = Unit
HasLibc (some libc) version = supports_linux_glibc version ≡ true

-- The target's binary runs on the platform.
pub record Suits (platform arch : String) (version : Json) (t : Target) : Type 0 where
  pub os : platform_of t.os ≡ platform
  pub cpu : t.cpu ≡ arch
  pub libc : HasLibc t.libc version

lookup-In :
    (ts : List (String × Target)) (id : String) (t : Target) → lookup ts id ≡ some t → In (id, t) ts
lookup-In [] id t k = cc
lookup-In ((name, target) ∷ ts) id t k = elim (Bool-cases (name === id)) [
  | inl e ↦ let q : name ≡ id = (eq_iff _ _).0 e in let r : target ≡ t = ground arith in inl cc
  | inr e ↦ inr (lookup-In ts id t (rw e at k))
]

-- what the table has for an id that suits the platform
abbrev Entry : String → String → Json → String → Type 0
Entry platform arch version id =
    (t : Target) × (native_target id ≡ some t) × Suits platform arch version t

module _ (platform arch : String) (version : Json) where
  found :
      (os cpu name id : String) (t : Target)
      → (platform === os && arch === cpu) ≡ true
      → platform_of t.os ≡ os
      → t.cpu ≡ cpu
      → HasLibc t.libc version
      → native_target name ≡ some t
      → some name ≡ some id
      → Entry platform arch version id
  found os cpu name id t c o u l n k =
      let (p, a) = and-true (platform === os) (arch === cpu) c in
      let q : name ≡ id = ground arith in
      let n' : native_target id ≡ some t = rw q at n in
      let p' : platform ≡ os = (eq_iff _ _).0 p in
      let a' : arch ≡ cpu = (eq_iff _ _).0 a in (t, n', record { os = cc; cpu = cc; libc = l })

  target_for_runtime-Entry :
      (id : String)
      → target_for_runtime platform arch version ≡ some id
      → Entry platform arch version id
  unfolding target_for_runtime native_target
  target_for_runtime-Entry id k = elim (Bool-cases (platform === "win32" && arch === "x64")) [
    | inl c ↦ found "win32" "x64" "win32-x64-msvc" id win32_x64 c refl refl tt refl (rw c at k)
    | inr c ↦ elim (Bool-cases (platform === "darwin" && arch === "x64")) [
      | inl d ↦ found "darwin" "x64" "darwin-x64" id darwin_x64 d refl refl tt refl (rw (c, d) at k)
      | inr d ↦ elim (Bool-cases (platform === "darwin" && arch === "arm64")) [
        | inl e ↦
            found "darwin" "arm64" "darwin-arm64" id darwin_arm64 e refl refl tt refl
              (rw (c, d, e) at k)
        | inr e ↦
            elim (Bool-cases
              (platform === "linux" && arch === "x64" && supports_linux_glibc version)) [
                | inl f ↦
                    let (g, l) =
                      and-true (platform === "linux" && arch === "x64")
                        (supports_linux_glibc version) f in
                    found "linux" "x64" "linux-x64-gnu" id linux_x64 g refl refl l refl
                      (rw (c, d, e, f) at k)
                | inr f ↦ cc (rw (c, d, e, f) at k)
              ]
      ]
    ]
  ]

  row :
      (name id : String) (t₀ t : Target)
      → ◌≡◌ {A = String × Target} (name, t₀) (id, t)
      → Suits platform arch version t
      → (name ≡ id) × ((platform_of t₀.os ≡ platform) × ((t₀.cpu ≡ arch) × HasLibc t₀.libc version))
  row name id t₀ t e s =
      let q : t₀ ≡ t = ap (λ x. x.1) e in (ap (λ x. x.0) e, rw q (s.os, (s.cpu, s.libc)))

  suited :
      (id : String) (t : Target)
      → In (id, t) native_targets
      → Suits platform arch version t
      → target_for_runtime platform arch version ≡ some id
  unfolding target_for_runtime
  suited id t (inl e) s =
      let (i, (p, (a, l))) = row "win32-x64-msvc" id win32_x64 t e s in rw (← i, ← p, ← a) refl
  suited id t (inr (inl e)) s =
      let (i, (p, (a, l))) = row "darwin-x64" id darwin_x64 t e s in rw (← i, ← p, ← a) refl
  suited id t (inr (inr (inl e))) s =
      let (i, (p, (a, l))) = row "darwin-arm64" id darwin_arm64 t e s in rw (← i, ← p, ← a) refl
  suited id t (inr (inr (inr (inl e)))) s =
      let (i, (p, (a, l))) = row "linux-x64-gnu" id linux_x64 t e s in rw (← i, ← p, ← a, l) refl
  suited id t (inr (inr (inr (inr z)))) s = absurd z

-- A platform gets a target exactly when the table has it for the operating system and processor of
-- the platform, with a version that supportsLinuxGlibc accepts where the target wants glibc.
pub target_for_runtime_iff :
    (platform arch : String) (version : Json) (id : String)
    → (target_for_runtime platform arch version ≡ some id)
      ↔ ((t : Target) × (native_target id ≡ some t) × Suits platform arch version t)
unfolding native_target
target_for_runtime_iff platform arch version id = (
  target_for_runtime-Entry platform arch version id,
  λ (t, n, s). suited platform arch version id t (lookup-In native_targets id t n) s,
)
