-- ===== src/Manifest.antt =====
-- packages/wallet-core/src/manifest.mjs: the manifest of the native artifacts, and which of them a
-- platform takes.
pub mod Versions
pub mod Targets
pub mod Artifacts
