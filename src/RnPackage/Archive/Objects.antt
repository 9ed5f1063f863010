-- ===== src/RnPackage/Archive/Objects.antt =====
-- packages/wallet-core/src/react-native-manifest.mjs: the objects in an archive that is accepted.
use symbol_nem_wallet_core.Prelude.{
  ℕ, zero, suc, ◌+◌, ◌≤◌, false, ◌&&◌, Option, none, some, List, [], ◌∷◌, ◌≡◌, refl, sym, ap, subst,
  arith, length, ltb, Bool-cases, inl, inr, All, In, if◌then◌else◌,
}
use symbol_nem_wallet_core.Js.Outcome.{returned-eq, Outcome, returned, bind-returned, Outcome-cases}
use symbol_nem_wallet_core.Manifest.Versions.{number_value}
use symbol_nem_wallet_core.ReactNative.Identities.{Expected}
use symbol_nem_wallet_core.RnPackage.Bytes.{part, drop, has_text, add_text}
use symbol_nem_wallet_core.RnPackage.MachO.{MachIdentity, mach_o_identity}
use symbol_nem_wallet_core.RnPackage.Archive.{
  Members, lenient, caught, add_texts, has_identity, index_names, no_identities, add_identity,
  extended_length, named_member, read_member, member_step, walk,
}
use symbol_nem_wallet_core.RnPackage.Archive.Exported.{add_text-All}
use symbol_nem_wallet_core.RnPackage.Archive.Ends.{
  caught-returned, require-returned, member_step-Stepped,
}

-- A Mach-O object in the archive: a member, behind its extended name, with the identity that is read
-- from it.
pub record IsObject (bytes : List ℕ) (target : Expected) (identity : MachIdentity) : Type 0 where
  pub start : ℕ
  pub size : ℕ
  pub name_size : ℕ
  pub inside : start + size ≤ length bytes
  pub read :
      mach_o_identity (drop name_size (part bytes start size)) lenient target
      ≡ returned (some identity)

-- A symbol that an object with an embedded identity exports.
pub record Carried (bytes : List ℕ) (target : Expected) (symbol : List ℕ) : Type 0 where
  pub identity : MachIdentity
  pub is_object : IsObject bytes target identity
  pub embedded : List ℕ
  pub embeds : identity.artifact_identity ≡ some embedded
  pub exports : In symbol identity.required

-- No text is there twice.
abbrev pub AreDistinct : List (List ℕ) → Type 0
AreDistinct [] = Unit
AreDistinct (t ∷ ts) = (has_text ts t ≡ false) × AreDistinct ts

-- What is known of the members at any round.
pub record Known (bytes : List ℕ) (target : Expected) (members : Members) : Type 0 where
  pub carried : All (Carried bytes target) members.exported
  pub distinct : AreDistinct members.exported

add_text-AreDistinct :
    (t : List ℕ) (ts : List (List ℕ)) → AreDistinct ts → AreDistinct (add_text t ts)
add_text-AreDistinct t ts d = elim (Bool-cases (has_text ts t)) [
  | inl e ↦ rw e d
  | inr e ↦ rw e (e, d)
]

add_texts-All :
    (P : List ℕ → Type 0) (ss ts : List (List ℕ)) → All P ss → All P ts → All P (add_texts ss ts)
add_texts-All P [] ts ps qs = qs
add_texts-All P (s ∷ ss) ts (p, ps) qs =
    add_texts-All P ss (add_text s ts) ps (add_text-All P s ts p qs)

add_texts-AreDistinct : (ss ts : List (List ℕ)) → AreDistinct ts → AreDistinct (add_texts ss ts)
add_texts-AreDistinct [] ts d = d
add_texts-AreDistinct (s ∷ ss) ts d =
    add_texts-AreDistinct ss (add_text s ts) (add_text-AreDistinct s ts d)

-- Every element stands in its list.
All-In : (ts us : List (List ℕ)) → ((t : List ℕ) → In t ts → In t us) → All (λ t. In t us) ts
All-In [] us f = tt
All-In (t ∷ ts) us f = (f t (inl refl), All-In ts us (λ u i. f u (inr i)))

pub All-map :
    (P Q : List ℕ → Type 0) (ts : List (List ℕ)) → ((t : List ℕ) → P t → Q t) → All P ts → All Q ts
All-map P Q [] f k = tt
All-map P Q (t ∷ ts) f (p, ps) = (f t p, All-map P Q ts f ps)

some-eq : {A : Type 0} (a b : A) → some a ≡ some b → a ≡ b
some-eq a b k = ground arith

module _ (bytes : List ℕ) (target : Expected) where
  -- An object joins the members.
  exported-Known :
      (identity : MachIdentity) (embedded : Option (List ℕ)) (members : Members)
      → identity.artifact_identity ≡ embedded
      → IsObject bytes target identity
      → Known bytes target members
      → Known bytes target (record {
        identities = identity ∷ members.identities;
        exported =
            if has_identity embedded
            then add_texts identity.required members.exported
            else members.exported;
      })
  exported-Known identity none members e object known = record {
    carried = known.carried;
    distinct = known.distinct;
  }
  exported-Known identity (some embedded) members e object known = record {
    carried =
        add_texts-All (Carried bytes target) identity.required members.exported
          (All-map (λ t. In t identity.required) (Carried bytes target) identity.required
            (λ t i. record {
              identity = identity;
              is_object = object;
              embedded = embedded;
              embeds = e;
              exports = i;
            })
            (All-In identity.required identity.required (λ t i. i)))
          known.carried;
    distinct = add_texts-AreDistinct identity.required members.exported known.distinct;
  }

  add_identity-Known :
      (name : List ℕ) (members : Members) (found : Option MachIdentity) (next : Members)
      → ((identity : MachIdentity) → found ≡ some identity → IsObject bytes target identity)
      → Known bytes target members
      → add_identity name members found ≡ returned next
      → Known bytes target next
  add_identity-Known name members none next object known k =
      let (c, e) =
        require-returned (no_identities members.identities && has_text index_names name) _ next k in
      let q : members ≡ next = ground arith in subst (Known bytes target) q known
  add_identity-Known name members (some identity) next object known k =
      subst (Known bytes target) (returned-eq _ next k) (
        exported-Known identity identity.artifact_identity members refl (object identity refl)
          known)

  -- What is left of a member, behind its extended name.
  named_member-drop :
      (name raw : List ℕ) (found : Option (List ℕ)) (named : List ℕ × List ℕ)
      → named_member name raw found ≡ returned named
      → (k : ℕ) × (named.1 ≡ drop k raw)
  named_member-drop name raw none named k =
      (0, ap (λ w. w.1) (sym (returned-eq (name, raw) named k)))
  named_member-drop name raw (some digits) named k =
      let (c, e) = require-returned _ _ named k in
      (number_value digits, ap (λ w. w.1) (sym (returned-eq _ named e)))

  read_member-Known :
      (header_name : List ℕ) (start size : ℕ) (members next : Members)
      → start + size ≤ length bytes
      → Known bytes target members
      → read_member header_name (part bytes start size) target members ≡ returned next
      → Known bytes target next
  unfolding read_member
  read_member-Known header_name start size members next inside known k =
      let (named, k₁, k₂) =
        bind-returned
          (named_member header_name (part bytes start size) (extended_length header_name)) _ next
          k in
      let (found, k₃, k₄) =
        bind-returned (caught (mach_o_identity named.1 lenient target)) _ next k₂ in
      let (d, e) =
        named_member-drop header_name (part bytes start size) (extended_length header_name) named
          k₁ in
      let read = caught-returned (mach_o_identity named.1 lenient target) found k₃ in
      add_identity-Known named.0 members found next
        (λ identity f. record {
          start = start;
          size = size;
          name_size = d;
          inside = inside;
          read =
              subst (λ w. mach_o_identity w lenient target ≡ returned (some identity)) e
                (rw f at read);
        })
        known k₄

  pub walk-Known :
      (fuel offset : ℕ) (members last : Members)
      → Known bytes target members
      → walk bytes target fuel offset members ≡ some (returned last)
      → Known bytes target last
  unfolding walk
  walk-Known zero offset members last known k = cc
  walk-Known (suc fuel) offset members last known k =
      elim (Bool-cases (ltb offset (length bytes))) [
        | inr e ↦
            let c : ◌≡◌ {A = Option (Outcome Members)} (some (returned members))
                (some (returned last)) =
              rw e at k in
            let q : members ≡ last = ground arith in subst (Known bytes target) q known
        | inl e ↦ elim (Outcome-cases (member_step bytes target offset members)) [
          | inr (x, s) ↦ cc (rw (e, s) at k)
          | inl (next, s) ↦
              let m = member_step-Stepped bytes target offset members next s in
              walk-Known fuel next.0 next.1 last
                (read_member-Known _ (offset + 60) m.size members next.1 m.inside known m.read)
                (rw (e, s) at k)
        ]
      ]
