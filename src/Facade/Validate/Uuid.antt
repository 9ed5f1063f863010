-- ===== src/Facade/Validate/Uuid.antt =====
-- The UUID pattern against a description of it: five groups of hexadecimal digits and four dashes.
use symbol_nem_wallet_core.Prelude.{
  ℕ, zero, suc, ◌≡◌, refl, ◌↔◌, true, Option, none, some, List, [], ◌∷◌, ◌++◌, arith, All, length,
  Bool-cases, inl, inr,
}
use mathlib.Core.List.{append-nil}
use symbol_nem_wallet_core.Facade.Validate.{
  is_hex, skip_hex, skip_dash, at_end, ◌>>=◌, uuid_pattern,
}

-- `n` hexadecimal digits
pub record IsHexGroup (n : ℕ) (cs : List ℕ) : Type 0 where
  pub size : length cs ≡ n
  pub digits : All (λ c. is_hex c ≡ true) cs

pub record IsUuid (cs : List ℕ) : Type 0 where
  pub a : List ℕ
  pub b : List ℕ
  pub c : List ℕ
  pub d : List ℕ
  pub e : List ℕ
  pub a_group : IsHexGroup 8 a
  pub b_group : IsHexGroup 4 b
  pub c_group : IsHexGroup 4 c
  pub d_group : IsHexGroup 4 d
  pub e_group : IsHexGroup 12 e
  pub text : cs ≡ a ++ (b'-' ∷ (b ++ (b'-' ∷ (c ++ (b'-' ∷ (d ++ (b'-' ∷ e)))))))

skip_hex-append : (n : ℕ) (cs rest : List ℕ) → IsHexGroup n cs → skip_hex n (cs ++ rest) ≡ some rest
unfolding skip_hex
skip_hex-append zero [] rest g = refl
skip_hex-append zero (c ∷ cs) rest g = absurd (omega (arith, g.size))
skip_hex-append (suc n) [] rest g = absurd (omega (arith, g.size))
skip_hex-append (suc n) (c ∷ cs) rest g =
    rw (g.digits.0)
      (skip_hex-append n cs rest (record { size = omega (arith, g.size); digits = g.digits.1 }))

-- What a successful step has read.
abbrev Skipped : ℕ → List ℕ → List ℕ → Type 0
Skipped n cs rest = (g : List ℕ) × IsHexGroup n g × (cs ≡ g ++ rest)

skip_hex-Skipped : (n : ℕ) (cs rest : List ℕ) → skip_hex n cs ≡ some rest → Skipped n cs rest
unfolding skip_hex
skip_hex-Skipped zero cs rest t = ([], record { size = refl; digits = tt }, ground arith)
skip_hex-Skipped (suc n) [] rest t = cc
skip_hex-Skipped (suc n) (c ∷ cs) rest t = elim (Bool-cases (is_hex c)) [
  | inl hex ↦
      let (g, k, e) = skip_hex-Skipped n cs rest (rw hex at t) in
      (c ∷ g, record { size = omega (arith, k.size); digits = (hex, k.digits) }, rw e)
  | inr other ↦ cc (rw other at t)
]

skip_dash-eq : (cs rest : List ℕ) → skip_dash cs ≡ some rest → cs ≡ b'-' ∷ rest
unfolding skip_dash
skip_dash-eq [] rest t = cc
skip_dash-eq (c ∷ cs) rest t = ground arith

then-some :
    (m : Option (List ℕ)) (f : List ℕ → Option (List ℕ)) (cs : List ℕ)
    → (m >>= f) ≡ some cs
    → (bs : List ℕ) × (m ≡ some bs) × (f bs ≡ some cs)
then-some none f cs t = cc
then-some (some bs) f cs t = (bs, refl, t)

at_end-eq : (m : Option (List ℕ)) → at_end m ≡ true → m ≡ some []
at_end-eq none t = cc
at_end-eq (some []) t = refl
at_end-eq (some (c ∷ cs)) t = cc

assemble :
    (cs r₁ r₂ r₃ r₄ r₅ r₆ r₇ r₈ a b c d e : List ℕ)
    → IsHexGroup 8 a
    → IsHexGroup 4 b
    → IsHexGroup 4 c
    → IsHexGroup 4 d
    → IsHexGroup 12 e
    → cs ≡ a ++ r₁
    → r₁ ≡ b'-' ∷ r₂
    → r₂ ≡ b ++ r₃
    → r₃ ≡ b'-' ∷ r₄
    → r₄ ≡ c ++ r₅
    → r₅ ≡ b'-' ∷ r₆
    → r₆ ≡ d ++ r₇
    → r₇ ≡ b'-' ∷ r₈
    → r₈ ≡ e ++ []
    → IsUuid cs
assemble cs r₁ r₂ r₃ r₄ r₅ r₆ r₇ r₈ a b c d e ga gb gc gd ge e₁ e₂ e₃ e₄ e₅ e₆ e₇ e₈ e₉ = record {
  a = a;
  b = b;
  c = c;
  d = d;
  e = e;
  a_group = ga;
  b_group = gb;
  c_group = gc;
  d_group = gd;
  e_group = ge;
  text = rw (e₁, e₂, e₃, e₄, e₅, e₆, e₇, e₈, e₉, append-nil e);
}

uuid_pattern-IsUuid : (cs : List ℕ) → uuid_pattern cs ≡ true → IsUuid cs
unfolding uuid_pattern
uuid_pattern-IsUuid cs t =
    let (r₈, t₈, u₉) = then-some _ (skip_hex 12) [] (at_end-eq _ t) in
    let (r₇, t₇, u₈) = then-some _ skip_dash r₈ t₈ in
    let (r₆, t₆, u₇) = then-some _ (skip_hex 4) r₇ t₇ in
    let (r₅, t₅, u₆) = then-some _ skip_dash r₆ t₆ in
    let (r₄, t₄, u₅) = then-some _ (skip_hex 4) r₅ t₅ in
    let (r₃, t₃, u₄) = then-some _ skip_dash r₄ t₄ in
    let (r₂, t₂, u₃) = then-some _ (skip_hex 4) r₃ t₃ in
    let (r₁, u₁, u₂) = then-some (skip_hex 8 cs) skip_dash r₂ t₂ in
    let (a, ga, ea) = skip_hex-Skipped 8 cs r₁ u₁ in
    let (b, gb, eb) = skip_hex-Skipped 4 r₂ r₃ u₃ in
    let (c, gc, ec) = skip_hex-Skipped 4 r₄ r₅ u₅ in
    let (d, gd, ed) = skip_hex-Skipped 4 r₆ r₇ u₇ in
    let (e, ge, ee) = skip_hex-Skipped 12 r₈ [] u₉ in
    assemble cs r₁ r₂ r₃ r₄ r₅ r₆ r₇ r₈ a b c d e ga gb gc gd ge ea (skip_dash-eq r₁ r₂ u₂) eb
      (skip_dash-eq r₃ r₄ u₄) ec (skip_dash-eq r₅ r₆ u₆) ed (skip_dash-eq r₇ r₈ u₈) ee

skip_dash-dash : (rest : List ℕ) → skip_dash (b'-' ∷ rest) ≡ some rest
unfolding skip_dash
skip_dash-dash rest = refl

IsUuid-uuid_pattern : (cs : List ℕ) → IsUuid cs → uuid_pattern cs ≡ true
unfolding uuid_pattern
IsUuid-uuid_pattern cs u =
    let last : skip_hex 12 u.e ≡ some [] =
      rw (← append-nil u.e) (skip_hex-append 12 u.e [] u.e_group) in
    rw u.text (
      rw (
        skip_hex-append 8 u.a _ u.a_group,
        skip_dash-dash,
        skip_hex-append 4 u.b _ u.b_group,
        skip_dash-dash,
        skip_hex-append 4 u.c _ u.c_group,
        skip_dash-dash,
        skip_hex-append 4 u.d _ u.d_group,
        skip_dash-dash,
        last,
      ))

-- A text passes the pattern exactly when it is five groups of 8, 4, 4, 4 and 12 hexadecimal digits
-- joined by dashes.
pub uuid_pattern_iff : (cs : List ℕ) → (uuid_pattern cs ≡ true) ↔ IsUuid cs
uuid_pattern_iff cs = (uuid_pattern-IsUuid cs, IsUuid-uuid_pattern cs)
