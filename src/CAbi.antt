-- ===== src/CAbi.antt =====
-- scripts/c-abi-targets.mjs: the targets of the C ABI archives, and the names of the archives.
pub mod Names
use symbol_nem_wallet_core.Prelude.{
  ℕ, String, Option, none, some, List, [], ◌∷◌, ◌++◌, codes, ◌===◌, if◌then◌else◌,
}

pub record CAbiTarget : Type 0 where
  pub target_id : String
  pub rust_target : String
  pub runner : String
  pub platform : String
  pub glibc_baseline : Option String
  pub static_library : String
  pub dynamic_library : String
  pub companion_libraries : List String

-- C_ABI_TARGET_ORDER
abbrev pub c_abi_target_order : List String
c_abi_target_order = "win32-x64-msvc" ∷ "darwin-x64" ∷ "darwin-arm64" ∷ "linux-x64-gnu" ∷ []

-- C_ABI_TARGETS
abbrev pub windows_archive : CAbiTarget
windows_archive = record {
  target_id = "win32-x64-msvc";
  rust_target = "x86_64-pc-windows-msvc";
  runner = "windows-2025-vs2026";
  platform = "windows-x64-msvc";
  glibc_baseline = none;
  static_library = "symbol_nem_wallet_core_native.lib";
  dynamic_library = "symbol_nem_wallet_core_native.dll";
  companion_libraries = "symbol_nem_wallet_core_native.dll.lib" ∷ [];
}

abbrev pub darwin_x64_archive : CAbiTarget
darwin_x64_archive = record {
  target_id = "darwin-x64";
  rust_target = "x86_64-apple-darwin";
  runner = "macos-15-intel";
  platform = "macos-x64";
  glibc_baseline = none;
  static_library = "libsymbol_nem_wallet_core_native.a";
  dynamic_library = "libsymbol_nem_wallet_core_native.dylib";
  companion_libraries = [];
}

abbrev pub darwin_arm64_archive : CAbiTarget
darwin_arm64_archive = record {
  target_id = "darwin-arm64";
  rust_target = "aarch64-apple-darwin";
  runner = "macos-15";
  platform = "macos-arm64";
  glibc_baseline = none;
  static_library = "libsymbol_nem_wallet_core_native.a";
  dynamic_library = "libsymbol_nem_wallet_core_native.dylib";
  companion_libraries = [];
}

abbrev pub linux_archive : CAbiTarget
linux_archive = record {
  target_id = "linux-x64-gnu";
  rust_target = "x86_64-unknown-linux-gnu";
  runner = "ubuntu-24.04";
  platform = "linux-x64-glibc";
  glibc_baseline = some "2.28";
  static_library = "libsymbol_nem_wallet_core_native.a";
  dynamic_library = "libsymbol_nem_wallet_core_native.so";
  companion_libraries = [];
}

abbrev pub c_abi_targets : List CAbiTarget
c_abi_targets = windows_archive ∷ darwin_x64_archive ∷ darwin_arm64_archive ∷ linux_archive ∷ []

abbrev pub find_target : List CAbiTarget → String → Option CAbiTarget
find_target [] id = none
find_target (t ∷ ts) id = if t.target_id === id then some t else find_target ts id

-- cAbiTarget, `none` for undefined
unfoldable pub c_abi_target : String → Option CAbiTarget
c_abi_target id = find_target c_abi_targets id

-- cAbiArchiveFilename, of a version and a target id as texts
unfoldable pub c_abi_archive_filename : List ℕ → List ℕ → List ℕ
c_abi_archive_filename version id =
    codes "symbol-nem-wallet-core-c-abi-" ++ (version ++ (codes "-" ++ (id ++ codes ".tar.gz")))
