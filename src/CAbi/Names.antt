-- ===== src/CAbi/Names.antt =====
-- scripts/c-abi-targets.mjs: the names of the archives, and the targets against those of the addons.
use symbol_nem_wallet_core.Prelude.{
  ℕ, String, some, List, [], ◌∷◌, ◌≡◌, refl, codes, ◌===◌, Bool-cases, inl, inr, eq_iff, arith, In,
  subst,
}
use mathlib.Core.List.{append_cancel_left, append_cancel_right}
use symbol_nem_wallet_core.Manifest.Targets.{Target, native_target}
use symbol_nem_wallet_core.CAbi.{
  CAbiTarget, c_abi_targets, find_target, c_abi_target, c_abi_archive_filename,
}

-- Archives of one version that have the same name are of the same target.
pub c_abi_archive_filename-injective :
    (version s t : List ℕ)
    → c_abi_archive_filename version s ≡ c_abi_archive_filename version t
    → s ≡ t
unfolding c_abi_archive_filename
c_abi_archive_filename-injective version s t e =
    let e₁ = append_cancel_left (codes "symbol-nem-wallet-core-c-abi-") _ _ e in
    let e₂ = append_cancel_left version _ _ e₁ in
    let e₃ = append_cancel_left (codes "-") _ _ e₂ in append_cancel_right s t (codes ".tar.gz") e₃

find_target-In :
    (ts : List CAbiTarget) (id : String) (t : CAbiTarget)
    → find_target ts id ≡ some t
    → In t ts × (t.target_id ≡ id)
find_target-In [] id t k = cc
find_target-In (x ∷ ts) id t k = elim (Bool-cases (x.target_id === id)) [
  | inl e ↦
      let q : some x ≡ some t = rw e at k in
      let r : x ≡ t = ground arith in (inl r, subst (λ y. y.target_id ≡ id) r ((eq_iff _ _).0 e))
  | inr e ↦ let (i, n) = find_target-In ts id t (rw e at k) in (inr i, n)
]

-- The addon of the same id is built for the same target of Rust.
abbrev pub SameBuild : CAbiTarget → Type 0
SameBuild t = (n : Target) × (native_target t.target_id ≡ some n) × (n.rust_target ≡ t.rust_target)

same_build : (t : CAbiTarget) → In t c_abi_targets → SameBuild t
unfolding native_target
same_build t (inl e) = subst SameBuild e (_, refl, refl)
same_build t (inr (inl e)) = subst SameBuild e (_, refl, refl)
same_build t (inr (inr (inl e))) = subst SameBuild e (_, refl, refl)
same_build t (inr (inr (inr (inl e)))) = subst SameBuild e (_, refl, refl)
same_build t (inr (inr (inr (inr z)))) = absurd z

-- A C ABI target that is found for an id has that id, and the addon of the id is built for the same
-- target of Rust.
pub c_abi_target-SameBuild :
    (id : String) (t : CAbiTarget) → c_abi_target id ≡ some t → (t.target_id ≡ id) × SameBuild t
unfolding c_abi_target
c_abi_target-SameBuild id t k =
    let (i, n) = find_target-In c_abi_targets id t k in (n, same_build t i)
