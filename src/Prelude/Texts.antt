-- ===== src/Prelude/Texts.antt =====
-- Texts as lists of character codes: comparison, order, search, and the sorting of names.
use Prim.Native.Nat.{ℕ, zero, suc, ◌/◌, ◌%◌}
use Prim.Native.String
use Prim.Native.String.{String}
use mathlib.Core.Path.{◌≡◌, refl}
use mathlib.Core.Logic.{inl, inr}
use mathlib.Core.Bool.{Bool, true, false, ◌&&◌, ◌||◌}
use native.Mathlib.Omega.{arith}
use mathlib.Core.List.{List, [], ◌∷◌}
use symbol_nem_wallet_core.Prelude.Tests.{◌==◌, ltb, if◌then◌else◌, Bool-cases}
use symbol_nem_wallet_core.Prelude.Lists.{codes}

abbrev pub same_codes : List ℕ → List ℕ → Bool
same_codes [] [] = true
same_codes [] (d ∷ ds) = false
same_codes (c ∷ cs) [] = false
same_codes (c ∷ cs) (d ∷ ds) = c == d && same_codes cs ds

pub same_codes-eq : (cs ds : List ℕ) → same_codes cs ds ≡ true → cs ≡ ds
same_codes-eq [] [] t = refl
same_codes-eq [] (d ∷ ds) t = cc
same_codes-eq (c ∷ cs) [] t = cc
same_codes-eq (c ∷ cs) (d ∷ ds) t = elim (Bool-cases (c == d)) [
  | inl e ↦ let q : c ≡ d = ground arith in let r : cs ≡ ds = same_codes-eq cs ds (rw e at t) in cc
  | inr e ↦ cc (rw e at t)
]

pub same_codes-same : (cs : List ℕ) → same_codes cs cs ≡ true
same_codes-same [] = refl
same_codes-same (c ∷ cs) = let e : (c == c) ≡ true = ground arith in rw e (same_codes-same cs)

abbrev pub starts_with : List ℕ → List ℕ → Bool
starts_with [] cs = true
starts_with (p ∷ ps) [] = false
starts_with (p ∷ ps) (c ∷ cs) = p == c && starts_with ps cs

-- text.includes(part), the part first
abbrev pub includes : List ℕ → List ℕ → Bool
includes part [] = starts_with part []
includes part (c ∷ cs) = starts_with part (c ∷ cs) || includes part cs

-- text.endsWith(part), the part first
abbrev pub ends_with : List ℕ → List ℕ → Bool
ends_with part [] = same_codes part []
ends_with part (c ∷ cs) = same_codes part (c ∷ cs) || ends_with part cs

-- the order of Array.prototype.sort
abbrev pub codes_leb : List ℕ → List ℕ → Bool
codes_leb [] ds = true
codes_leb (c ∷ cs) [] = false
codes_leb (c ∷ cs) (d ∷ ds) = ltb c d || (c == d && codes_leb cs ds)

abbrev pub insert : String → List String → List String
insert s [] = s ∷ []
insert s (t ∷ ts) =
    let rest = insert s ts in if codes_leb (codes s) (codes t) then s ∷ t ∷ ts else t ∷ rest

abbrev pub sort : List String → List String
sort [] = []
sort (s ∷ ss) = insert s (sort ss)

abbrev digit_text : ℕ → String
digit_text d =
    if d == 0
    then "0"
    else if d == 1
    then "1"
    else if d == 2
    then "2"
    else if d == 3
    then "3"
    else if d == 4
    then "4"
    else if d == 5
    then "5"
    else if d == 6
    then "6"
    else if d == 7
    then "7"
    else if d == 8
    then "8"
    else "9"

-- the digits of a number in front of a text; as many rounds as the number, and one, are enough
decimal_from : ℕ → ℕ → String → String
decimal_from zero n rest = rest
decimal_from (suc rounds) n rest = elim (ltb n 10) [
  | true ↦ String.◌++◌ (digit_text n) rest
  | false ↦ decimal_from rounds (n / 10) (String.◌++◌ (digit_text (n % 10)) rest)
]

-- a number as a template writes it
unfoldable pub decimal : ℕ → String
unfolding decimal_from
decimal n = decimal_from (suc n) n ""
