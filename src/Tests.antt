-- ===== src/Tests.antt =====
-- Runs of the modelled code on concrete inputs, and the properties at inputs where they apply.
mod Samples
mod Facade
mod Manifest
mod Release
mod ReactNative
mod Npm
mod Recovery
mod Sources
mod Wasm
mod NodeEntry
mod Operation
mod Provenance
mod RnPackage
mod Assembly
mod Evidence
mod Finalize
