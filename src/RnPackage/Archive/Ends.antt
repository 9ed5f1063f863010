-- ===== src/RnPackage/Archive/Ends.antt =====
-- packages/wallet-core/src/react-native-manifest.mjs: the loop over the members of an archive ends.
use symbol_nem_wallet_core.Prelude.{
  ℕ, zero, suc, ◌+◌, ◌%◌, ◌≤◌, ◌<◌, Bool, true, not, ◌&&◌, some, List, ◌≡◌, refl, arith, length,
  ltb, leb, Bool-cases, inl, inr, and-true, not-false, ap, sym,
}
use symbol_nem_wallet_core.Js.Json.{throw_if-returned}
use symbol_nem_wallet_core.Js.Outcome.{
  returned-eq, Outcome, returned, thrown, Outcome-cases, bind-returned,
}
use symbol_nem_wallet_core.Manifest.Versions.{number_value}
use symbol_nem_wallet_core.ReactNative.Identities.{Expected}
use symbol_nem_wallet_core.RnPackage.Bytes.{require, part, max_safe}
use symbol_nem_wallet_core.RnPackage.Archive.{
  ascii, without_zeros, trim, is_decimal, Members, byte_is, read_member, member_step, walk,
  no_members, caught,
}

pub require-returned :
    {A : Type 0} (c : Bool) (rest : Outcome A) (a : A)
    → require c rest ≡ returned a
    → (c ≡ true) × (rest ≡ returned a)
require-returned c rest a k = let (d, e) = throw_if-returned (not c) _ _ a k in (not-false c d, e)

pub caught-returned : {A : Type 0} (m : Outcome A) (a : A) → caught m ≡ returned a → m ≡ returned a
caught-returned (returned b) a k = k
caught-returned (thrown e) a k = cc

-- What a round tells: the member lies in the archive, and the offset moves behind it.
pub record Stepped (bytes : List ℕ) (target : Expected) (offset : ℕ) (members : Members)
    (next : ℕ × Members) : Type 0 where
  pub size : ℕ
  pub inside : offset + 60 + size ≤ length bytes
  pub read :
      read_member
        (trim (without_zeros (ascii (part bytes offset 16))))
        (part bytes (offset + 60) size)
        target
        members
      ≡ returned next.1
  pub moved : next.0 ≡ offset + 60 + size + size % 2

pub member_step-Stepped :
    (bytes : List ℕ) (target : Expected) (offset : ℕ) (members : Members) (next : ℕ × Members)
    → member_step bytes target offset members ≡ returned next
    → Stepped bytes target offset members next
unfolding member_step
member_step-Stepped bytes target offset members next k =
    let size_text = trim (ascii (part bytes (offset + 48) 10)) in
    let (header, k₁) = require-returned (leb (offset + 60) (length bytes)) _ next k in
    let (marks, k₂) =
      require-returned (byte_is bytes (offset + 58) 96 && byte_is bytes (offset + 59) 10) _ next
        k₁ in
    let (digits, k₃) = require-returned (is_decimal size_text) _ next k₂ in
    let (fits, k₄) =
      require-returned
        (leb (number_value size_text) max_safe
          && leb (offset + 60 + number_value size_text) (length bytes))
        _ next k₃ in
    let (safe, within) = and-true (leb (number_value size_text) max_safe) _ fits in
    let (found, k₅, k₆) =
      bind-returned
        (read_member _ (part bytes (offset + 60) (number_value size_text)) target members) _ next
        k₄ in
    let q : (offset + 60 + number_value size_text + number_value size_text % 2, found) ≡ next =
      returned-eq _ next k₆ in
    record {
      size = number_value size_text;
      inside = ground arith;
      read = rw (ap (λ w. w.1) q) at k₅;
      moved = ap (λ w. w.0) (sym q);
    }

-- With enough fuel the loop is done, whatever the archive holds.
walk-ends :
    (bytes : List ℕ) (target : Expected) (fuel offset : ℕ) (members : Members)
    → offset ≤ length bytes + 1
    → length bytes + 1 < offset + fuel
    → (outcome : Outcome Members) × (walk bytes target fuel offset members ≡ some outcome)
unfolding walk
walk-ends bytes target zero offset members l m = absurd (omega (arith, l, m))
walk-ends bytes target (suc fuel) offset members l m =
    elim (Bool-cases (ltb offset (length bytes))) [
      | inr e ↦ (returned members, rw e refl)
      | inl e ↦ elim (Outcome-cases (member_step bytes target offset members)) [
        | inr (x, t) ↦ (thrown x, rw (e, t) refl)
        | inl (next, t) ↦
            let s = member_step-Stepped bytes target offset members next t in
            let (outcome, done) =
              walk-ends bytes target fuel next.0 next.1 (omega (arith, s.moved, s.inside))
                (omega (arith, s.moved, m)) in
            (outcome, rw (e, t, done) refl)
      ]
    ]

-- The loop over the members of an archive, whatever its bytes are behind the first eight, ends in at
-- most as many rounds as the archive has bytes: with the members, or with an error.
pub walk-done :
    (bytes : List ℕ) (target : Expected)
    → 8 ≤ length bytes
    → (outcome : Outcome Members) × (walk bytes target (length bytes) 8 no_members ≡ some outcome)
walk-done bytes target l =
    walk-ends bytes target (length bytes) 8 no_members (omega (arith, l)) (omega arith)
