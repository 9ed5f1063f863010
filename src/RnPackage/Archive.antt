-- ===== src/RnPackage/Archive.antt =====
-- packages/wallet-core/src/react-native-manifest.mjs: inspectStaticArchive. The loop over the members
-- takes as many rounds of fuel as the archive has bytes; that this is enough is proved in Ends.
pub mod Ends
pub mod Exported
pub mod Checked
pub mod Objects
pub mod Inspected
use symbol_nem_wallet_core.Prelude.{
  ℕ, zero, suc, ◌+◌, ◌*◌, ◌%◌, String, Bool, true, false, not, ◌&&◌, ◌||◌, Option, none, some, List,
  [], ◌∷◌, ◌++◌, codes, length, all, any, ltb, leb, ◌==◌, if◌then◌else◌, same_codes, starts_with,
  map,
}
use symbol_nem_wallet_core.Js.Json.{error}
use symbol_nem_wallet_core.Js.Outcome.{Outcome, returned, thrown, ◌>>=◌, ◌>>◌}
use symbol_nem_wallet_core.Manifest.Versions.{is_empty, is_digit, number_value}
use symbol_nem_wallet_core.Release.Sources.{is_space, skip_spaces}
use symbol_nem_wallet_core.ReactNative.Identities.{Expected}
use symbol_nem_wallet_core.RnPackage.Bytes.{
  assembly_error, require, part, drop, u8, max_safe, has_text, add_text,
}
use symbol_nem_wallet_core.RnPackage.MachO.{
  required_symbols, Options, MachIdentity, mach_o_identity,
}

abbrev pub reversed {ℓ} : {A : Type ℓ} → List A → List A → List A
reversed [] done = done
reversed (x ∷ xs) done = reversed xs (x ∷ done)

-- text.trim()
unfoldable pub trim : List ℕ → List ℕ
trim cs = reversed (skip_spaces (reversed (skip_spaces cs) [])) []

-- bytes.toString("ascii")
abbrev pub ascii : List ℕ → List ℕ
ascii bs = map (λ b. b % 128) bs

-- text.replace(/\0/g, "")
abbrev pub without_zeros : List ℕ → List ℕ
without_zeros [] = []
without_zeros (c ∷ cs) = let rest = without_zeros cs in if c == 0 then rest else c ∷ rest

-- /^\d+$/
abbrev pub is_decimal : List ℕ → Bool
is_decimal cs = not (is_empty cs) && all is_digit cs

-- /^#1\/(\d+)$/, to the digits
abbrev pub extended_length : List ℕ → Option (List ℕ)
extended_length cs =
    if starts_with (codes "#1/") cs && is_decimal (drop 3 cs) then some (drop 3 cs) else none

-- The name of a member and what the name leaves of it.
abbrev pub named_member : List ℕ → List ℕ → Option (List ℕ) → Outcome (List ℕ × List ℕ)
named_member name raw none = returned (name, raw)
named_member name raw (some digits) =
    let size = number_value digits in
    require (leb size max_safe && leb size (length raw))
      (returned (trim (without_zeros (part raw 0 size)), drop size raw))

-- The variables of the loop besides the offset, with the identities from the last to the first.
pub record Members : Type 0 where
  pub identities : List MachIdentity
  pub exported : List (List ℕ)

abbrev pub lenient : Options
lenient = record { require_required_symbols = false; require_artifact_identity = false }

-- Whatever machOIdentity throws is caught and thrown as a failure of the assembly.
abbrev pub caught {ℓ} : {A : Type ℓ} → Outcome A → Outcome A
caught (returned a) = returned a
caught (thrown e) = assembly_error

abbrev pub add_texts : List (List ℕ) → List (List ℕ) → List (List ℕ)
add_texts [] ts = ts
add_texts (s ∷ ss) ts = add_texts ss (add_text s ts)

abbrev pub has_identity : Option (List ℕ) → Bool
has_identity none = false
has_identity (some cs) = true

abbrev pub index_names : List (List ℕ)
index_names =
    codes "/" ∷ codes "/SYM64/" ∷ codes "//" ∷ codes "__.SYMDEF" ∷ codes "__.SYMDEF SORTED" ∷ []

abbrev pub no_identities : List MachIdentity → Bool
no_identities [] = true
no_identities (i ∷ rest) = false

abbrev pub add_identity : List ℕ → Members → Option MachIdentity → Outcome Members
add_identity name members none =
    require (no_identities members.identities && has_text index_names name) (returned members)
add_identity name members (some identity) = returned (record {
  identities = identity ∷ members.identities;
  exported =
      if has_identity identity.artifact_identity
      then add_texts identity.required members.exported
      else members.exported;
})

-- The bytes of a member, with the name in its header.
unfoldable pub read_member : List ℕ → List ℕ → Expected → Members → Outcome Members
read_member header_name raw target members =
    named_member header_name raw (extended_length header_name) >>= λ named.
    caught (mach_o_identity named.1 lenient target) >>= add_identity named.0 members

abbrev pub byte_is : List ℕ → ℕ → ℕ → Bool
byte_is bytes offset value = same_codes (part bytes offset 1) (value ∷ [])

-- The body of the loop, to the offset of the next member.
unfoldable pub member_step : List ℕ → Expected → ℕ → Members → Outcome (ℕ × Members)
member_step bytes target offset members =
    let size_text = trim (ascii (part bytes (offset + 48) 10)) in
    let size = number_value size_text in
    require (leb (offset + 60) (length bytes)) (
      require (byte_is bytes (offset + 58) 96 && byte_is bytes (offset + 59) 10) (
        require (is_decimal size_text) (
          require (leb size max_safe && leb (offset + 60 + size) (length bytes)) (
            read_member (trim (without_zeros (ascii (part bytes offset 16))))
              (part bytes (offset + 60) size) target members
            >>= λ next. returned (offset + 60 + size + size % 2, next)))))

-- The rest of an archive: the next round, or the end with an error.
abbrev pub walk_on :
    Outcome (ℕ × Members) → (ℕ × Members → Option (Outcome Members)) → Option (Outcome Members)
walk_on (returned next) rest = rest next
walk_on (thrown e) rest = some (thrown e)

-- The loop; none where the fuel is used up.
unfoldable pub walk : List ℕ → Expected → ℕ → ℕ → Members → Option (Outcome Members)
walk bytes target zero offset members = none
walk bytes target (suc fuel) offset members =
    if ltb offset (length bytes)
    then walk_on (member_step bytes target offset members)
        (λ next. walk bytes target fuel next.0 next.1)
    else some (returned members)

abbrev pub same_bool : Bool → Bool → Bool
same_bool true b = b
same_bool false b = not b

abbrev pub first_of :
    MachIdentity → Option (List ℕ) → Option (MachIdentity × List ℕ) → Option (MachIdentity × List ℕ)
first_of i (some embedded) rest = some (i, embedded)
first_of i none rest = rest

-- identities.find, of the identities from the first to the last
abbrev pub first_identity : List MachIdentity → Option (MachIdentity × List ℕ)
first_identity [] = none
first_identity (i ∷ rest) = first_of i i.artifact_identity (first_identity rest)

abbrev pub same_identity : List ℕ → Option (List ℕ) → Bool
same_identity expected none = true
same_identity expected (some identity) = same_codes identity expected

-- Whether the platforms agree, and the identities with the first one and with the target's; the
-- formats and the architectures are constants.
abbrev pub consistent : Expected → MachIdentity → List ℕ → MachIdentity → Bool
consistent target first embedded identity =
    same_bool identity.simulator first.simulator
    && same_identity embedded identity.artifact_identity
    && same_identity (codes target.artifact_identity) identity.artifact_identity

abbrev pub largest : (MachIdentity → ℕ) → List MachIdentity → ℕ
largest f [] = 0
largest f (i ∷ rest) = let m = largest f rest in if leb m (f i) then f i else m

abbrev pub total : List MachIdentity → ℕ
total [] = 0
total (i ∷ rest) = length i.exported + total rest

-- The fields of the result that are not constants.
pub record ArchiveIdentity : Type 0 where
  pub simulator : Bool
  pub load_commands : ℕ
  pub sections : ℕ
  pub exported_symbols : ℕ
  pub object_count : ℕ
  pub artifact_identity : List ℕ

abbrev pub archive_identity : List MachIdentity → MachIdentity → List ℕ → ArchiveIdentity
archive_identity identities first embedded = record {
  simulator = first.simulator;
  load_commands = largest (λ i. i.load_commands) identities;
  sections = largest (λ i. i.sections) identities;
  exported_symbols = total identities;
  object_count = length identities;
  artifact_identity = embedded;
}

abbrev pub summarize :
    Expected → List MachIdentity → Option (MachIdentity × List ℕ) → Outcome ArchiveIdentity
summarize target identities none = assembly_error
summarize target identities (some (first, embedded)) =
    require (all (consistent target first embedded) identities)
      (returned (archive_identity identities first embedded))

-- The checks behind the loop.
unfoldable pub check_members : Expected → Members → Outcome ArchiveIdentity
check_members target members =
    let identities = reversed members.identities [] in
    require (not (no_identities identities)) (
      require (length members.exported == length required_symbols)
        (summarize target identities (first_identity identities)))

abbrev pub finish : Expected → Option (Outcome Members) → Outcome ArchiveIdentity
finish target none = thrown (error "the fuel is used up")
finish target (some outcome) = outcome >>= check_members target

abbrev pub no_members : Members
no_members = record { identities = []; exported = [] }

abbrev pub is_archive : List ℕ → Bool
is_archive bytes =
    leb 8 (length bytes) && same_codes (ascii (part bytes 0 8)) (codes "!<arch>" ++ 10 ∷ [])

unfoldable pub inspect_static_archive : List ℕ → Expected → Outcome ArchiveIdentity
inspect_static_archive bytes target =
    require (is_archive bytes) (finish target (walk bytes target (length bytes) 8 no_members))
