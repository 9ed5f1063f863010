-- ===== src/Js.antt =====
-- The part of JavaScript that the wallet's code stands on: values, property access, exceptions,
-- and the storage of typed arrays.
pub mod Value
pub mod Outcome
pub mod Storage
pub mod Json
