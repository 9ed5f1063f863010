-- ===== src/Js/Outcome.antt =====
-- What a call of a JavaScript function does: it returns, or it throws.
use symbol_nem_wallet_core.Prelude.{String, ◌≡◌, refl, subst, arith, List, [], ◌∷◌, ◌⊎◌, inl, inr}
use symbol_nem_wallet_core.Js.Value.{Value}

pub data Exception : Type 0 where
  -- a WalletCoreError with its code
  wallet_error : String → Exception
  -- any other thrown value
  foreign : Value → Exception

pub data Outcome {ℓ} (A : Type ℓ) : Type ℓ where
  returned : A → Outcome A
  thrown : Exception → Outcome A

infixl 5 ◌>>=◌ ◌>>◌
abbrev pub ◌>>=◌ {ℓ κ} : {A : Type ℓ} {B : Type κ} → Outcome A → (A → Outcome B) → Outcome B
returned a >>= f = f a
thrown e >>= f = thrown e

abbrev pub ◌>>◌ {ℓ} : {B : Type ℓ} → Outcome (Unit {0}) → Outcome B → Outcome B
m >> k = m >>= λ _. k

-- Array.prototype.map with a callback that may throw
unfoldable pub traverse {ℓ κ} :
    {A : Type ℓ} {B : Type κ} → (A → Outcome B) → List A → Outcome (List B)
traverse f [] = returned []
traverse f (x ∷ xs) = f x >>= λ y. traverse f xs >>= λ ys. returned (y ∷ ys)

pub Outcome-cases {ℓ} :
    {A : Type ℓ} (m : Outcome A) → ((a : A) × (m ≡ returned a)) ⊎ ((e : Exception) × (m ≡ thrown e))
Outcome-cases (returned a) = inl (a, refl)
Outcome-cases (thrown e) = inr (e, refl)

-- `P` holds of what is returned.
pub record Returns {ℓ} {A : Type ℓ} (P : A → Type ℓ) (m : Outcome A) : Type ℓ where
  pub at : (a : A) → m ≡ returned a → P a

module _ {ℓ} {B : Type ℓ} {P : B → Type ℓ} where
  pub Returns-bind {κ} :
      {A : Type κ} (m : Outcome A) (f : A → Outcome B)
      → ((a : A) → m ≡ returned a → Returns P (f a))
      → Returns P (m >>= f)
  Returns-bind (returned a) f k = k a refl
  Returns-bind (thrown e) f k = record { at = λ b t. cc }

  pub Returns-returned : (b : B) → P b → Returns P (returned b)
  Returns-returned b p = record { at = λ a t. let q : b ≡ a = ground arith in subst P q p }

  pub Returns-thrown : (e : Exception) → Returns P (thrown e)
  Returns-thrown e = record { at = λ a t. cc }

pub returned-eq {ℓ} : {A : Type ℓ} (a b : A) → returned a ≡ returned b → a ≡ b
returned-eq a b k = ground arith

-- A chain that returns: its first part does, and so does the rest from there.
pub bind-returned {ℓ κ} :
    {A : Type ℓ} {B : Type κ} (m : Outcome A) (f : A → Outcome B) (b : B)
    → (m >>= f) ≡ returned b
    → (a : A) × (m ≡ returned a) × (f a ≡ returned b)
bind-returned (returned a) f b k = (a, refl, k)
bind-returned (thrown e) f b k = cc
