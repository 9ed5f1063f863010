-- ===== src/Facade/Errors/Known.antt =====
-- Which errors reach a caller of the facade: only those of the code list.
use symbol_nem_wallet_core.Prelude.{
  String, ◌≡◌, refl, true, List, [], ◌∷◌, Bool-cases, contains, inl, inr,
}
use symbol_nem_wallet_core.Js.Value.{Value}
use symbol_nem_wallet_core.Js.Outcome.{Exception, wallet_error, foreign}
use symbol_nem_wallet_core.Facade.Errors.{
  core_error_codes, from_candidate, candidates, first_core_code, normalize_operation_error,
}

abbrev pub IsCoreError : Exception → Type 0
IsCoreError (wallet_error code) = contains core_error_codes code ≡ true
IsCoreError (foreign error) = ⊥

from_first-IsCoreError : (cs : List String) → IsCoreError (from_candidate (first_core_code cs))
unfolding first_core_code
from_first-IsCoreError [] = refl
from_first-IsCoreError (c ∷ cs) = elim (Bool-cases (contains core_error_codes c)) [
  | inl known ↦ rw known known
  | inr unknown ↦ rw unknown (from_first-IsCoreError cs)
]

-- Whatever value is thrown, what the facade throws instead has a code of the list.
pub normalize_operation_error-IsCoreError :
    (error : Value) → IsCoreError (normalize_operation_error (foreign error))
unfolding normalize_operation_error
normalize_operation_error-IsCoreError error = from_first-IsCoreError (candidates error)
