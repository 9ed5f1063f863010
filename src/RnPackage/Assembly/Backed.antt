-- ===== src/RnPackage/Assembly/Backed.antt =====
-- packages/wallet-core/src/react-native-manifest.mjs: what stands behind an assembled manifest.
use symbol_nem_wallet_core.Prelude.{
  true, false, List, [], ◌∷◌, ◌≡◌, refl, subst, leb, Bool-cases, inl, inr, All,
}
use symbol_nem_wallet_core.Js.Json.{Json, string, array, get}
use symbol_nem_wallet_core.Js.Outcome.{returned-eq, returned, bind-returned}
use symbol_nem_wallet_core.Operation.{is_text_value}
use symbol_nem_wallet_core.Operation.Spdx.{element_list, is_array}
use symbol_nem_wallet_core.ReactNative.Identities.{expected_artifacts, manifest_artifact_identities}
use symbol_nem_wallet_core.RnPackage.Manifest.{validate_react_native_manifest}
use symbol_nem_wallet_core.RnPackage.Manifest.Complete.{
  identities_of, validate_react_native_manifest-collected,
}
use symbol_nem_wallet_core.RnPackage.Archive.{caught}
use symbol_nem_wallet_core.RnPackage.Archive.Ends.{require-returned, caught-returned}
use symbol_nem_wallet_core.RnPackage.Inputs.{Disk, Input, read_inputs, validate_inputs}
use symbol_nem_wallet_core.RnPackage.Assembly.{
  Parts, insert_input, in_canonical_order, entries_of, manifest_of, package_meta, checked_manifest,
  are_parts, assemble_react_native_manifest,
}
use symbol_nem_wallet_core.RnPackage.Inputs.Read.{IsOfOne, read_inputs-IsOfOne}

module _ (P : Input → Type 0) where
  insert_input-All : (i : Input) (is : List Input) → P i → All P is → All P (insert_input i is)
  insert_input-All i [] p ps = (p, tt)
  insert_input-All i (j ∷ js) p (q, qs) = elim (Bool-cases (leb i.index j.index)) [
    | inl e ↦ rw e (p, (q, qs))
    | inr e ↦ rw e (q, insert_input-All i js p qs)
  ]

  in_canonical_order-All : (is : List Input) → All P is → All P (in_canonical_order is)
  in_canonical_order-All [] ps = tt
  in_canonical_order-All (i ∷ is) (p, ps) =
      insert_input-All i (in_canonical_order is) p (in_canonical_order-All is ps)

-- An entry of the manifest, with the input that it is made of.
pub record IsBacked (disk : Disk) (items : List Json) (entry : Json) : Type 0 where
  pub input : Input
  pub of_one : IsOfOne disk items input
  pub id : get entry "target_id" ≡ string input.target_id
  pub relative_path : get entry "relative_path" ≡ string input.target.relative_path
  pub sha256 : get entry "sha256" ≡ string input.inspected.sha256

entries_of-IsBacked :
    (disk : Disk) (items : List Json) (toolchain : Json) (inputs : List Input)
    → All (IsOfOne disk items) inputs
    → All (IsBacked disk items) (element_list (array (entries_of toolchain inputs)))
unfolding get
entries_of-IsBacked disk items toolchain [] known = tt
entries_of-IsBacked disk items toolchain (i ∷ is) (p, ps) = (
  record { input = i; of_one = p; id = refl; relative_path = refl; sha256 = refl },
  entries_of-IsBacked disk items toolchain is ps,
)

-- The parts of a call that returns.
record IsAssembled (disk : Disk) (parts : Parts) (manifest : Json) : Type 0 where
  inputs : List Input
  read : read_inputs disk [] (element_list parts.artifacts) ≡ returned inputs
  made : manifest_of parts inputs ≡ manifest
  result : Json
  checked :
      validate_react_native_manifest manifest (package_meta parts) parts.require_complete
      ≡ returned result

assemble_react_native_manifest-IsAssembled :
    (disk : Disk) (parts : Parts) (manifest : Json)
    → assemble_react_native_manifest disk parts ≡ returned manifest
    → IsAssembled disk parts manifest
unfolding assemble_react_native_manifest validate_inputs checked_manifest
assemble_react_native_manifest-IsAssembled disk parts manifest k =
    let (fine, k₁) = require-returned (are_parts parts) _ manifest k in
    let (inputs, k₂, k₃) =
      bind-returned (validate_inputs disk parts.artifacts false) _ manifest k₁ in
    let (is_list, k₄) = require-returned (is_array parts.artifacts) _ inputs k₂ in
    let (read, k₅, k₆) =
      bind-returned (read_inputs disk [] (element_list parts.artifacts)) _ inputs k₄ in
    let q : read ≡ inputs = returned-eq read inputs k₆ in
    let (result, k₇, k₈) =
      bind-returned
        (caught (
          validate_react_native_manifest (manifest_of parts inputs) (package_meta parts)
            parts.require_complete))
        _ manifest k₃ in
    let made : manifest_of parts inputs ≡ manifest = returned-eq _ manifest k₈ in
    record {
      inputs = inputs;
      read = subst (λ w. read_inputs disk [] (element_list parts.artifacts) ≡ returned w) q k₅;
      made = made;
      result = result;
      checked =
          subst
            (λ w.
              validate_react_native_manifest w (package_meta parts) parts.require_complete
              ≡ returned result)
            made (caught-returned _ result k₇);
    }

-- Each entry of a manifest that assembleReactNativeManifest returns stands for an item of its
-- argument: the item names a known target, whose path and id the entry has, and a file of the right
-- name; the file is there, its bytes are accepted by the inspection for the target, and the digest
-- in the entry is the one of these bytes.
pub assemble_react_native_manifest-IsBacked :
    (disk : Disk) (parts : Parts) (manifest : Json)
    → assemble_react_native_manifest disk parts ≡ returned manifest
    → All (IsBacked disk (element_list parts.artifacts)) (element_list (get manifest "artifacts"))
unfolding get
assemble_react_native_manifest-IsBacked disk parts manifest k =
    let whole = assemble_react_native_manifest-IsAssembled disk parts manifest k in
    let items = element_list parts.artifacts in
    subst (λ w. All (IsBacked disk items) (element_list (get w "artifacts"))) whole.made
      (entries_of-IsBacked disk items parts.toolchain_identifier (in_canonical_order whole.inputs) (
        in_canonical_order-All (IsOfOne disk items) whole.inputs
          (read_inputs-IsOfOne disk [] items whole.inputs whole.read)))

-- From a manifest that assembleReactNativeManifest returns as complete, where the commit is a
-- string, the React Native entry point collects the identity of each of its four expected targets.
pub assemble_react_native_manifest-collected :
    (disk : Disk) (parts : Parts) (manifest : Json)
    → parts.require_complete ≡ true
    → is_text_value parts.source_commit ≡ true
    → assemble_react_native_manifest disk parts ≡ returned manifest
    → manifest_artifact_identities manifest ≡ returned (identities_of expected_artifacts)
unfolding get
assemble_react_native_manifest-collected disk parts manifest complete commit k =
    let whole = assemble_react_native_manifest-IsAssembled disk parts manifest k in
    validate_react_native_manifest-collected manifest (package_meta parts) whole.result
      (subst
        (λ b.
          validate_react_native_manifest manifest (package_meta parts) b ≡ returned whole.result)
        complete whole.checked)
      (subst (λ w. is_text_value (get w "source_commit") ≡ true) whole.made commit)
