-- ===== src/Manifest/Targets.antt =====
-- manifest.mjs: the native targets, their canonical order, and targetForRuntime.
pub mod Platform
use symbol_nem_wallet_core.Prelude.{
  ℕ, suc, String, ◌&&◌, Option, none, some, List, [], ◌∷◌, ◌===◌, if◌then◌else◌,
}
use symbol_nem_wallet_core.Js.Json.{Json}
use symbol_nem_wallet_core.Manifest.Versions.{supports_linux_glibc}

-- CANONICAL_TARGET_ORDER
abbrev pub canonical_target_order : List String
canonical_target_order = "win32-x64-msvc" ∷ "darwin-x64" ∷ "darwin-arm64" ∷ "linux-x64-gnu" ∷ []

pub record Target : Type 0 where
  pub os : String
  pub cpu : String
  pub abi : String
  pub libc : Option String
  pub rust_target : String

-- NATIVE_TARGETS
abbrev pub win32_x64 : Target
win32_x64 = record {
  os = "windows";
  cpu = "x64";
  abi = "msvc";
  libc = none;
  rust_target = "x86_64-pc-windows-msvc";
}

abbrev pub darwin_x64 : Target
darwin_x64 = record {
  os = "macos";
  cpu = "x64";
  abi = "darwin";
  libc = none;
  rust_target = "x86_64-apple-darwin";
}

abbrev pub darwin_arm64 : Target
darwin_arm64 = record {
  os = "macos";
  cpu = "arm64";
  abi = "darwin";
  libc = none;
  rust_target = "aarch64-apple-darwin";
}

abbrev pub linux_x64 : Target
linux_x64 = record {
  os = "linux";
  cpu = "x64";
  abi = "gnu";
  libc = some "glibc";
  rust_target = "x86_64-unknown-linux-gnu";
}

abbrev pub native_targets : List (String × Target)
native_targets =
    ("win32-x64-msvc", win32_x64)
    ∷ ("darwin-x64", darwin_x64)
    ∷ ("darwin-arm64", darwin_arm64)
    ∷ ("linux-x64-gnu", linux_x64)
    ∷ []

abbrev pub lookup : List (String × Target) → String → Option Target
lookup [] id = none
lookup ((name, target) ∷ targets) id = if name === id then some target else lookup targets id

-- hasNativeTarget, with the target that NATIVE_TARGETS has there
unfoldable pub native_target : String → Option Target
native_target id = lookup native_targets id

unfoldable pub target_for_runtime : String → String → Json → Option String
target_for_runtime platform arch glibc_version_runtime =
    if platform === "win32" && arch === "x64"
    then some "win32-x64-msvc"
    else if platform === "darwin" && arch === "x64"
    then some "darwin-x64"
    else if platform === "darwin" && arch === "arm64"
    then some "darwin-arm64"
    else if platform === "linux" && arch === "x64" && supports_linux_glibc glibc_version_runtime
    then some "linux-x64-gnu"
    else none

-- CANONICAL_TARGET_ORDER.indexOf(id) + 1, so 0 where it is not there
abbrev pub index_from : ℕ → List String → String → ℕ
index_from n [] id = 0
index_from n (t ∷ ts) id = let rest = index_from (suc n) ts id in if t === id then suc n else rest

unfoldable pub canonical_index : String → ℕ
canonical_index id = index_from 0 canonical_target_order id
