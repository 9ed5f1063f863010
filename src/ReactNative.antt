-- ===== src/ReactNative.antt =====
-- packages/wallet-core/src/react-native: the native module that the facade of React Native calls, the
-- manifest that the build puts into the file, and the facade.
pub mod Identities
pub mod Module
pub mod Entry
