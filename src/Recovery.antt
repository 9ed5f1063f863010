-- ===== src/Recovery.antt =====
-- scripts/release-recovery.mjs: the reconstruction of a published release from its evidence.
pub mod Paths
pub mod Invocation
