-- ===== src/RnPackage/Inputs/Read.antt =====
-- packages/wallet-core/src/react-native-manifest.mjs: the inputs of validateReactNativeArtifactInputs.
use symbol_nem_wallet_core.Prelude.{
  ℕ, String, true, not, Option, none, some, List, [], ◌∷◌, ◌≡◌, ◌≢◌, eq_iff, refl, sym, subst, ap,
  contains, ◌===◌, Bool-cases, inl, inr, All, In,
}
use symbol_nem_wallet_core.Js.Json.{
  Json, undefined, null, boolean, number, string, array, object, opaque, is_plain_object, get,
}
use symbol_nem_wallet_core.Js.Outcome.{returned-eq, returned, bind-returned}
use symbol_nem_wallet_core.ReactNative.Identities.{Expected}
use symbol_nem_wallet_core.RnPackage.{find_target}
use symbol_nem_wallet_core.RnPackage.Archive.{ArchiveIdentity, inspect_static_archive}
use symbol_nem_wallet_core.RnPackage.Archive.Ends.{require-returned, caught-returned}
use symbol_nem_wallet_core.RnPackage.Archive.Inspected.{
  IsInspected, inspect_static_archive-IsInspected,
}
use symbol_nem_wallet_core.RnPackage.Elf.{ElfIdentity, inspect_elf}
use symbol_nem_wallet_core.RnPackage.Elf.Inspected.{IsElf, inspect_elf-IsElf}
use symbol_nem_wallet_core.RnPackage.Inputs.{
  Disk, BinaryIdentity, Artifact, read_artifact, inspect_binary, inspect_file, Input, ends_in_name,
  read_target, read_named, read_input, read_inputs,
}

-- A binary that the inspection for the platform of a target accepts: an ELF file for Android, and a
-- static archive for any other platform.
pub data IsBinary (bytes : List ℕ) (target : Expected) : Type 0 where
  is_elf :
      (result : ElfIdentity)
      → target.platform ≡ "android"
      → IsElf bytes target result
      → IsBinary bytes target
  is_static_archive :
      (result : ArchiveIdentity)
      → target.platform ≢ "android"
      → IsInspected bytes target result
      → IsBinary bytes target

-- An item whose file is there and accepted for the target, with the digest of the bytes.
pub record IsFile (disk : Disk) (path : String) (target : Expected) (sha256 : String) : Type 0 where
  pub bytes : List ℕ
  pub read : disk.read_file path ≡ returned bytes
  pub file : disk.is_file path ≡ returned true
  pub digest : sha256 ≡ disk.sha256 bytes
  pub accepted : IsBinary bytes target

inspect_binary-IsBinary :
    (bytes : List ℕ) (target : Expected) (binary : BinaryIdentity)
    → inspect_binary bytes target ≡ returned binary
    → IsBinary bytes target
unfolding inspect_binary
inspect_binary-IsBinary bytes target binary k = elim (Bool-cases (target.platform === "android")) [
  | inl e ↦
      let (result, k₁, k₂) = bind-returned (inspect_elf bytes target) _ binary (rw e at k) in
      is_elf result ((eq_iff target.platform "android").0 e)
        (inspect_elf-IsElf bytes target result k₁)
  | inr e ↦
      let (result, k₁, k₂) =
        bind-returned (inspect_static_archive bytes target) _ binary (rw e at k) in
      is_static_archive result
        (λ q.
          let r : (target.platform === "android") ≡ true = (eq_iff target.platform "android").1 q in
          cc)
        (inspect_static_archive-IsInspected bytes target result k₁)
]

inspect_file-IsFile :
    (disk : Disk) (path : String) (target : Expected) (artifact : Artifact)
    → inspect_file disk path target ≡ returned artifact
    → IsFile disk path target artifact.sha256
unfolding inspect_file read_artifact
inspect_file-IsFile disk path target artifact k =
    let (bytes, k₁, k₂) = bind-returned (read_artifact disk path) _ artifact k in
    let (binary, k₃, k₄) = bind-returned (inspect_binary bytes target) _ artifact k₂ in
    let (read, k₅, k₆) = bind-returned (disk.read_file path) _ bytes (caught-returned _ bytes k₁) in
    let (file, k₇, k₈) = bind-returned (disk.is_file path) _ bytes k₆ in
    let (is_file, k₉) = require-returned file (returned read) bytes k₈ in
    let q : read ≡ bytes = returned-eq read bytes k₉ in
    record {
      bytes = bytes;
      read = subst (λ w. disk.read_file path ≡ returned w) q k₅;
      file = subst (λ w. disk.is_file path ≡ returned w) is_file k₇;
      digest = sym (ap (λ w. w.sha256) (returned-eq _ artifact k₄));
      accepted = inspect_binary-IsBinary bytes target binary k₃;
    }

-- What an input tells of an item.
pub record IsOf (disk : Disk) (item : Json) (input : Input) : Type 0 where
  pub item_id : get item "targetId" ≡ string input.target_id
  pub item_path : get item "path" ≡ string input.path
  pub known : find_target input.target_id ≡ some (input.index, input.target)
  pub named : ends_in_name input.path input.target.artifact_filename ≡ true
  pub file : IsFile disk input.path input.target input.inspected.sha256

read_target-IsOf :
    (disk : Disk) (seen : List String) (item : Json) (id path : String)
    (found : Option (ℕ × Expected)) (input : Input)
    → get item "targetId" ≡ string id
    → get item "path" ≡ string path
    → find_target id ≡ found
    → read_target disk seen item id path found ≡ returned input
    → IsOf disk item input
unfolding read_target
read_target-IsOf disk seen item id path none input i p f k = cc
read_target-IsOf disk seen item id path (some (index, target)) input i p f k =
    let (fresh, k₁) = require-returned (not (contains seen id)) _ input k in
    let (ended, k₂) = require-returned (ends_in_name path target.artifact_filename) _ input k₁ in
    let (artifact, k₃, k₄) = bind-returned (inspect_file disk path target) _ input k₂ in
    subst (IsOf disk item) (returned-eq _ input k₄) (record {
      item_id = i;
      item_path = p;
      known = f;
      named = ended;
      file = inspect_file-IsFile disk path target artifact k₃;
    })

read_named-IsOf :
    (disk : Disk) (seen : List String) (item v w : Json) (input : Input)
    → get item "targetId" ≡ v
    → get item "path" ≡ w
    → read_named disk seen item v w ≡ returned input
    → IsOf disk item input
read_named-IsOf disk seen item (string id) (string path) input i p k =
    read_target-IsOf disk seen item id path (find_target id) input i p refl k
read_named-IsOf disk seen item (string id) undefined input i p k = cc
read_named-IsOf disk seen item (string id) null input i p k = cc
read_named-IsOf disk seen item (string id) (boolean b) input i p k = cc
read_named-IsOf disk seen item (string id) (number t) input i p k = cc
read_named-IsOf disk seen item (string id) (array vs) input i p k = cc
read_named-IsOf disk seen item (string id) (object fs) input i p k = cc
read_named-IsOf disk seen item (string id) (opaque t) input i p k = cc
read_named-IsOf disk seen item undefined w input i p k = cc
read_named-IsOf disk seen item null w input i p k = cc
read_named-IsOf disk seen item (boolean b) w input i p k = cc
read_named-IsOf disk seen item (number t) w input i p k = cc
read_named-IsOf disk seen item (array vs) w input i p k = cc
read_named-IsOf disk seen item (object fs) w input i p k = cc
read_named-IsOf disk seen item (opaque t) w input i p k = cc

read_input-IsOf :
    (disk : Disk) (seen : List String) (item : Json) (input : Input)
    → read_input disk seen item ≡ returned input
    → IsOf disk item input
unfolding read_input
read_input-IsOf disk seen item input k =
    let (plain, k₁) = require-returned (is_plain_object item) _ input k in
    read_named-IsOf disk seen item (get item "targetId") (get item "path") input refl refl k₁

-- An input of one of the items.
pub record IsOfOne (disk : Disk) (items : List Json) (input : Input) : Type 0 where
  pub item : Json
  pub among : In item items
  pub of_it : IsOf disk item input

one_more :
    (disk : Disk) (item : Json) (items : List Json) (inputs : List Input)
    → All (IsOfOne disk items) inputs
    → All (IsOfOne disk (item ∷ items)) inputs
one_more disk item items [] known = tt
one_more disk item items (i ∷ is) (p, ps) =
    (record { item = p.item; among = inr p.among; of_it = p.of_it }, one_more disk item items is ps)

pub read_inputs-IsOfOne :
    (disk : Disk) (seen : List String) (items : List Json) (inputs : List Input)
    → read_inputs disk seen items ≡ returned inputs
    → All (IsOfOne disk items) inputs
unfolding read_inputs
read_inputs-IsOfOne disk seen [] inputs k =
    subst (All (IsOfOne disk [])) (returned-eq [] inputs k) tt
read_inputs-IsOfOne disk seen (item ∷ items) inputs k =
    let (input, k₁, k₂) = bind-returned (read_input disk seen item) _ inputs k in
    let (rest, k₃, k₄) =
      bind-returned (read_inputs disk (input.target_id ∷ seen) items) _ inputs k₂ in
    subst (All (IsOfOne disk (item ∷ items))) (returned-eq (input ∷ rest) inputs k₄) (
      record { item = item; among = inl refl; of_it = read_input-IsOf disk seen item input k₁ },
      one_more disk item items rest
          (read_inputs-IsOfOne disk (input.target_id ∷ seen) items rest k₃),
    )
