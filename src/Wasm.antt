-- ===== src/Wasm.antt =====
-- packages/wallet-core/src/wasm: the WebAssembly backend, which is used only after its bytes were
-- checked against their digest.
pub mod Asset
pub mod Start
