-- ===== src/RnPackage/Archive/Inspected.antt =====
-- packages/wallet-core/src/react-native-manifest.mjs: what an archive that is accepted exports.
use symbol_nem_wallet_core.Prelude.{
  ℕ, true, false, not, Option, none, some, List, [], ◌∷◌, ◌≡◌, refl, sym, ap, ◌∙◌, subst, arith,
  codes, length, ◌==◌, Bool-cases, inl, inr, ◌⊎◌, All, In, and-true, same_codes-eq, all, same_codes,
}
use symbol_nem_wallet_core.Js.Outcome.{returned-eq, Outcome, returned, thrown}
use symbol_nem_wallet_core.ReactNative.Identities.{Expected}
use symbol_nem_wallet_core.RnPackage.Bytes.{has_text, drop, part}
use symbol_nem_wallet_core.RnPackage.MachO.{
  required_symbols, present_symbols, MachIdentity, identity_fits,
}
use symbol_nem_wallet_core.RnPackage.Archive.{
  Members, lenient, no_identities, walk, same_identity, consistent, archive_identity, summarize,
  check_members, finish, no_members, is_archive, inspect_static_archive, ArchiveIdentity, first_of,
  first_identity, reversed,
}
use symbol_nem_wallet_core.RnPackage.Archive.Objects.{IsObject, Carried, AreDistinct, walk-Known}
use symbol_nem_wallet_core.RnPackage.Archive.Checked.{mach_o_identity-fits}
use symbol_nem_wallet_core.RnPackage.Archive.Exported.{IsEntry}
use symbol_nem_wallet_core.RnPackage.Archive.Ends.{require-returned}

some-eq : {A : Type 0} (a b : A) → some a ≡ some b → a ≡ b
some-eq a b k = ground arith

has_text-All :
    (P : List ℕ → Type 0) (ts : List (List ℕ)) (t : List ℕ) → All P ts → has_text ts t ≡ true → P t
has_text-All P [] t ps k = cc
has_text-All P (u ∷ us) t (p, ps) k = elim (Bool-cases (same_codes u t)) [
  | inl e ↦ subst P (same_codes-eq u t e) p
  | inr e ↦ has_text-All P us t ps (rw e at k)
]

present_symbols-In :
    (exported ss : List (List ℕ)) (s : List ℕ)
    → In s (present_symbols exported ss)
    → In s ss × (has_text exported s ≡ true)
present_symbols-In exported [] s i = absurd i
present_symbols-In exported (t ∷ ts) s i = elim (Bool-cases (has_text exported t)) [
  | inr e ↦ let (j, f) = present_symbols-In exported ts s (rw e at i) in (inr j, f)
  | inl e ↦
      let c : (t ≡ s) ⊎ In s (present_symbols exported ts) = rw e at i in
      elim c [
        | inl q ↦ (inl q, subst (λ w. has_text exported w ≡ true) q e)
        | inr j ↦ let (l, f) = present_symbols-In exported ts s j in (inr l, f)
      ]
]

-- The object that embeds the identity of the target and exports a required symbol, by an entry of its
-- symbol table.
pub record IsExported (bytes : List ℕ) (target : Expected) (symbol : List ℕ) : Type 0 where
  pub identity : MachIdentity
  pub is_object : IsObject bytes target identity
  pub embeds : identity.artifact_identity ≡ some (codes target.artifact_identity)
  pub exports : has_text identity.exported symbol ≡ true
  pub entry : IsEntry (drop is_object.name_size (part bytes is_object.start is_object.size)) symbol

fits-embedded :
    (target : Expected) (found : Option (List ℕ)) (embedded : List ℕ)
    → found ≡ some embedded
    → identity_fits false target found ≡ true
    → found ≡ some (codes target.artifact_identity)
fits-embedded target none embedded e k = cc
fits-embedded target (some cs) embedded e k =
    ap some (same_codes-eq cs (codes target.artifact_identity) k)

Carried-IsExported :
    (bytes : List ℕ) (target : Expected) (symbol : List ℕ)
    → Carried bytes target symbol
    → In symbol required_symbols × IsExported bytes target symbol
Carried-IsExported bytes target symbol c =
    let object = c.is_object in
    let known = mach_o_identity-fits _ lenient target c.identity object.read in
    let (listed, exports) =
      present_symbols-In c.identity.exported required_symbols symbol
        (subst (In symbol) known.required c.exports) in
    (
      listed,
      record {
        identity = c.identity;
        is_object = object;
        embeds = fits-embedded target c.identity.artifact_identity c.embedded c.embeds known.fits;
        exports = exports;
        entry = has_text-All _ c.identity.exported symbol known.entries exports;
      },
    )

-- Two different required symbols are both of them.
abbrev Both : List ℕ → Type 0
Both symbol = In symbol required_symbols

two-symbols :
    (P : List ℕ → Type 0) (s t : List ℕ)
    → Both s × P s
    → Both t × P t
    → has_text (t ∷ []) s ≡ false
    → All P required_symbols
two-symbols P s t (inl q, p) (inl r, o) d = cc (rw (← q, ← r) at d)
two-symbols P s t (inl q, p) (inr (inl r), o) d = (subst P (sym q) p, (subst P (sym r) o, tt))
two-symbols P s t (inl q, p) (inr (inr r), o) d = absurd r
two-symbols P s t (inr (inl q), p) (inl r, o) d = (subst P (sym r) o, (subst P (sym q) p, tt))
two-symbols P s t (inr (inl q), p) (inr (inl r), o) d = cc (rw (← q, ← r) at d)
two-symbols P s t (inr (inl q), p) (inr (inr r), o) d = absurd r
two-symbols P s t (inr (inr q), p) other d = absurd q

two-IsExported :
    (bytes : List ℕ) (target : Expected) (symbols : List (List ℕ))
    → length symbols ≡ 2
    → All (Carried bytes target) symbols
    → AreDistinct symbols
    → All (IsExported bytes target) required_symbols
two-IsExported bytes target [] l c d = absurd (omega (arith, l))
two-IsExported bytes target (s ∷ []) l c d = absurd (omega (arith, l))
two-IsExported bytes target (s ∷ t ∷ u ∷ us) l c d = absurd (omega (arith, l))
two-IsExported bytes target (s ∷ t ∷ []) l (p, (q, end)) (d, ds) =
    two-symbols (IsExported bytes target) s t (Carried-IsExported bytes target s p)
      (Carried-IsExported bytes target t q) d

first_of-same :
    (target : Expected) (i : MachIdentity) (o : Option (List ℕ))
    (rest : Option (MachIdentity × List ℕ)) (found : MachIdentity × List ℕ)
    → same_identity (codes target.artifact_identity) o ≡ true
    → (rest ≡ some found → found.1 ≡ codes target.artifact_identity)
    → first_of i o rest ≡ some found
    → found.1 ≡ codes target.artifact_identity
first_of-same target i none rest found same more e = more e
first_of-same target i (some embedded) rest found same more e =
    sym (ap (λ w. w.1) (some-eq (i, embedded) found e)) ∙ same_codes-eq embedded _ same

-- The first embedded identity is the target's.
first_identity-same :
    (target : Expected) (first : MachIdentity) (expected : List ℕ) (identities : List MachIdentity)
    (found : MachIdentity × List ℕ)
    → all (consistent target first expected) identities ≡ true
    → first_identity identities ≡ some found
    → found.1 ≡ codes target.artifact_identity
first_identity-same target first expected [] found k e = cc
first_identity-same target first expected (i ∷ is₁) found k e =
    let (here, more) = and-true (consistent target first expected i) _ k in
    let (front, same) =
      and-true _ (same_identity (codes target.artifact_identity) i.artifact_identity) here in
    first_of-same target i i.artifact_identity (first_identity is₁) found same
      (first_identity-same target first expected is₁ found more) e

summarize-identity :
    (target : Expected) (identities : List MachIdentity) (found : Option (MachIdentity × List ℕ))
    (result : ArchiveIdentity)
    → first_identity identities ≡ found
    → summarize target identities found ≡ returned result
    → result.artifact_identity ≡ codes target.artifact_identity
summarize-identity target identities none result e k = cc
summarize-identity target identities (some (first, embedded)) result e k =
    let (same, k₁) =
      require-returned (all (consistent target first embedded) identities) _ result k in
    let q : archive_identity identities first embedded ≡ result = returned-eq _ result k₁ in
    sym (ap (λ w. w.artifact_identity) q)
    ∙ first_identity-same target first embedded identities (first, embedded) same e

finish-members :
    (target : Expected) (walked : Option (Outcome Members)) (result : ArchiveIdentity)
    → finish target walked ≡ returned result
    → (members : Members) × (walked ≡ some (returned members))
      × (check_members target members ≡ returned result)
finish-members target none result k = cc
finish-members target (some (returned members)) result k = (members, refl, k)
finish-members target (some (thrown e)) result k = cc

-- An archive of the target: its identity is the target's, and each required symbol is exported by
-- an object of the archive that embeds this identity.
pub record IsInspected (bytes : List ℕ) (target : Expected) (result : ArchiveIdentity)
    : Type 0 where
  pub identity : result.artifact_identity ≡ codes target.artifact_identity
  pub symbols : All (IsExported bytes target) required_symbols

-- When inspectStaticArchive accepts an archive, the identity in the result is the one of the target,
-- and each of the required symbols is exported by a Mach-O object that lies in the archive and
-- embeds just this identity: its name is that of an entry, external and defined, of the symbol table
-- that the load commands of the object tell.
pub inspect_static_archive-IsInspected :
    (bytes : List ℕ) (target : Expected) (result : ArchiveIdentity)
    → inspect_static_archive bytes target ≡ returned result
    → IsInspected bytes target result
unfolding inspect_static_archive check_members
inspect_static_archive-IsInspected bytes target result k =
    let (archive, k₁) = require-returned (is_archive bytes) _ result k in
    let (members, walked, k₂) =
      finish-members target (walk bytes target (length bytes) 8 no_members) result k₁ in
    let known =
      walk-Known bytes target (length bytes) 8 no_members members
        (record { carried = tt; distinct = tt }) walked in
    let (some_one, k₃) =
      require-returned (not (no_identities (reversed members.identities []))) _ result k₂ in
    let (two, k₄) =
      require-returned (length members.exported == length required_symbols) _ result k₃ in
    let l : length members.exported ≡ 2 = ground arith in
    record {
      identity = summarize-identity target (reversed members.identities []) _ result refl k₄;
      symbols = two-IsExported bytes target members.exported l known.carried known.distinct;
    }
