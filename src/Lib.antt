-- ===== src/Lib.antt =====
-- Verification of symbol-nem-wallet-core: the JavaScript of the wallet package and its release tools.
--
-- The package packages/wallet-core gives applications one wallet interface over several backends
-- (a Node.js addon, WebAssembly, React Native). A backend is an object of functions; the facade
-- copies and checks the arguments, calls the backend, turns what it throws into errors of a fixed
-- list, and copies what it returns, clearing the arrays that held secrets.
--
-- Which file models which part:
--   Prelude             Booleans, numbers, texts as lists of character codes, lists
--   Js.Value            values of JavaScript: strings, numbers, objects with fields and prototypes
--   Js.Outcome          a result or an exception, and chains of them
--   Js.Storage          the storage behind typed arrays, and code that reads and writes it
--   Facade              packages/wallet-core/src/facade-runtime.mjs, with the children
--     Facade.Errors       CORE_ERROR_CODES, property, normalizeOperationError
--     Facade.Access       requiredObject, requiredString, requiredNumber, dtoField, dtoFieldString
--     Facade.Bytes        snapshotUint8Array, outputBytes, clearSecretBytes
--     Facade.Validate     validateUuidValue, validateNetworkOrChain, validateAccountIndex
--     Facade.Request      snapshotExportRequest, snapshotSigningRequest and what they call
--     Facade.Output       outputProfileInfo, outputSoftwareKeyInfo, outputWarnings and the like
--     Facade.Results      outputReadResult, outputMutationResult, outputPublicAccount, outputSignature
--     Facade.Secret       outputSecretReadResult
--     Facade.Operations   invoke and the sixteen operations that createFacade returns
--     Facade.Create       createFacade
--   Js.Json             values without getters, which manifests and release records are
--   Manifest            packages/wallet-core/src/manifest.mjs, with the children
--     Manifest.Versions   the patterns of versions and digests, supportsLinuxGlibc
--     Manifest.Targets    NATIVE_TARGETS, CANONICAL_TARGET_ORDER, targetForRuntime
--     Manifest.Artifacts  validateNativeManifest
--   Release             scripts/release-identity.mjs, with the children
--     Release.SemVer      SEMVER_PATTERN, parseSemVer, isValidSemVer, isValidCommit
--     Release.Versions    RELEASE_VERSION_SOURCES, validateVersionSources, releaseTagVersion
--     Release.Sources     parseCargoPackage, parseNpmPackage, collectReleaseVersionSources
--     Release.Identity    validateTagEvent, validateReleaseIdentity
--     Release.Registry    npmVersionUrl, checkNpmVersionAvailability; the request is a parameter
--   ReactNative         packages/wallet-core/src/react-native, with the children
--     ReactNative.Identities  EXPECTED_ARTIFACTS, manifestArtifactIdentities
--     ReactNative.Module      getReactNativeModule; the registry is a parameter
--     ReactNative.Entry       react-native/index.mjs; the invocation of the module is a parameter
--   Npm.Repository      scripts/npm-repository.mjs
--   Recovery            scripts/release-recovery.mjs, with the children
--     Recovery.Paths      safeRelativePath and safeFilename
--     Recovery.Invocation validateDispatchBoundary and validateProvenanceInvocation
--   Wasm                packages/wallet-core/src/wasm, with the children
--     Wasm.Asset          wasm/asset.mjs; fetch and SHA-256 are parameters
--     Wasm.Start          wasm/index.mjs; its environment is a parameter
--   NodeEntry           packages/wallet-core/src/node/index.mjs; its runtime is a parameter
--   CAbi                scripts/c-abi-targets.mjs
--   Operation           scripts/release-operation.mjs: the identity of an operation, with the children
--     Operation.Artifact  validateIdentityArtifact
--     Operation.Digests   parseDigestFile, assertDigestEntries, validateEvidenceDigests
--     Operation.Spdx      validateSpdxReleaseIdentity
--     Operation.Records   the release manifest and the evidence; the directory is a parameter
--     Operation.Finalize  finalizeReleaseOperation; the files are parameters
--   Provenance          scripts/npm-provenance.mjs: the URLs of the registry, with the children
--     Provenance.Attestations  fetchAttestationRecord; the answers to requests are a parameter
--     Provenance.Download      fetchBytes; the network is a parameter
--     Provenance.Statements    provenanceIdentities, validateAuditSignatures
--     Provenance.Evidence      validateNpmProvenanceEvidence
--   RnPackage           packages/wallet-core/src/react-native-manifest.mjs, with the children
--     RnPackage.Manifest  validateReactNativeManifest
--     RnPackage.Bytes     the reads of a Buffer, rangeEnd, u64, cString
--     RnPackage.MachO     machOIdentity
--     RnPackage.Archive   inspectStaticArchive
--     RnPackage.Dynamic   parseElfDynamicSymbols
--     RnPackage.Elf       inspectElf
--     RnPackage.Inputs    inspectReactNativeArtifact, validateReactNativeArtifactInputs; the file
--                         system is a parameter
--     RnPackage.Assembly  assembleReactNativeManifest
--   Tests               sample backends and values, runs, and the instances of the theorems
--
-- How the code corresponds to the definitions. A function of the source is a function of the same
-- name in small letters with underscores. Code that can throw gives an Outcome; code that reads or
-- writes typed arrays is a function from a heap to an outcome and a heap (Js). An asynchronous
-- function is modelled from its call to the settling of its promise, and a rejection is a thrown
-- exception. The heap gives each storage a list of bytes, or no list where its buffer is detached.
-- A value is undefined, null, a Boolean, a number, a string, an array, a byte array (the number of
-- its storage), a function (a number that the backend interprets), or an object with its own
-- fields, its prototype, and getters that yield a value or throw. Texts are ASCII in the tests of
-- the source, and strings are compared whole. Most loops of the source run over
-- arrays and texts and are structural. Fuel is taken in two places: the loop over the members
-- of a static archive has as many rounds as the archive has bytes, and each round moves on; the walk
-- of a hash chain in an ELF file has as many rounds as the file has bytes, after which the source
-- itself fails. The retries of a request count the attempts that are left, and the digits of a
-- number are at most as many as the number.
--
-- The backend is a parameter: any function from a number, arguments and a heap to an outcome and a
-- heap. Theorems that need a well-behaved backend say so in a hypothesis.
--
-- Manifests and release records are values of Js.Json: the source gets them from JSON.parse and
-- object literals, which have no getters, and of which two objects are never the same one.
--
-- Not modelled: getters whose value changes between two reads or that write to other objects; two
-- typed arrays over one buffer with different offsets (each byte array is one storage); holes and
-- getters in arrays; an own property that hides a method of a Uint8Array; the message text of a
-- TypeError; a proxy whose traps throw where instanceof asks for its prototype; a backend that turns
-- the payload of the request that sign hands to it into an accessor (that it assigns it is
-- modelled). Sums of offsets in binary files are exact, where the doubles of the source round above
-- 2 ^ 53, and the extended name of an archive member is trimmed of ASCII white space only.
--
-- The Rust crates, the bindings in C++, Objective-C and Kotlin, the tests, the parts of the scripts
-- that run processes, and the workflows are outside of the model. Where a script that is
-- modelled reads a directory or the network, these are parameters.
pub mod Prelude
pub mod Js
pub mod Facade
pub mod Manifest
pub mod Release
pub mod Npm
pub mod Recovery
pub mod ReactNative
pub mod Wasm
pub mod NodeEntry
pub mod CAbi
pub mod Operation
pub mod Provenance
pub mod RnPackage
pub mod Tests
