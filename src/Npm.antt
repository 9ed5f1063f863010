-- ===== src/Npm.antt =====
-- scripts/npm-repository.mjs: the fields of package.json that the published package must have.
pub mod Repository
