-- ===== src/Facade.antt =====
-- packages/wallet-core/src/facade-runtime.mjs: the facade between a wallet backend and its callers.
pub mod Errors
pub mod Access
pub mod Bytes
pub mod Validate
pub mod Request
pub mod Output
pub mod Results
pub mod Secret
pub mod Operations
pub mod Create
