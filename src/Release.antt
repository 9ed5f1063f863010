-- ===== src/Release.antt =====
-- scripts/release-identity.mjs: whether a tag, the manifests and the checkout name one release.
pub mod SemVer
pub mod Versions
pub mod Sources
pub mod Identity
pub mod Registry
