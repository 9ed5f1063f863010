-- ===== src/Facade/Create/Complete.antt =====
-- A facade is made exactly for a backend that has a function for every operation.
use symbol_nem_wallet_core.Prelude.{
  ℕ, String, ◌≡◌, refl, ◌↔◌, Bool, true, false, List, [], ◌∷◌, All, inl, inr, Bool-cases,
  if◌then◌else◌,
}
use symbol_nem_wallet_core.Js.Value.{Value, function, is_object}
use symbol_nem_wallet_core.Js.Outcome.{Outcome, returned, thrown, ◌>>=◌}
use symbol_nem_wallet_core.Facade.Errors.{read}
use symbol_nem_wallet_core.Facade.Operations.{Backend, operation_names}
use symbol_nem_wallet_core.Facade.Create.{
  Facade, incomplete, facade_of, unless_function, lacks_operation, create_facade,
}

abbrev pub HasOperation : Value → String → Type 0
HasOperation v name = (f : ℕ) × (read v name ≡ returned (function f))

unless_function-false :
    (m : Outcome Value) (rest : Outcome Bool)
    → unless_function m rest ≡ returned false
    → ((f : ℕ) × (m ≡ returned (function f))) × (rest ≡ returned false)
unless_function-false (returned (function f)) rest t = ((f, refl), t)
unless_function-false (returned v) rest t = cc
unless_function-false (thrown e) rest t = cc

lacks_none :
    (v : Value) (names : List String)
    → lacks_operation v names ≡ returned false
    → All (HasOperation v) names
unfolding lacks_operation
lacks_none v [] t = tt
lacks_none v (name ∷ names) t =
    let (here, later) = unless_function-false (read v name) (lacks_operation v names) t in
    (here, lacks_none v names later)

each_function :
    (v : Value) (names : List String)
    → All (HasOperation v) names
    → lacks_operation v names ≡ returned false
unfolding lacks_operation
each_function v [] k = refl
each_function v (name ∷ names) ((f, e), k) = rw e (each_function v names k)

abbrev finish : Backend → Outcome Bool → Outcome Facade
finish b lacking = lacking >>= λ l. if l then thrown incomplete else returned (facade_of b)

finish-returned :
    (b : Backend) (m : Outcome Bool) (f : Facade) → finish b m ≡ returned f → m ≡ returned false
finish-returned b (returned true) f t = cc
finish-returned b (returned false) f t = refl
finish-returned b (thrown e) f t = cc

-- The backend is an object whose every operation is a function.
abbrev pub IsComplete : Backend → Type 0
IsComplete b = (is_object b.value ≡ true) × All (HasOperation b.value) operation_names

create_facade-IsComplete : (b : Backend) (f : Facade) → create_facade b ≡ returned f → IsComplete b
unfolding create_facade
create_facade-IsComplete b f t = elim (Bool-cases (is_object b.value)) [
  | inl o ↦ (o, lacks_none b.value operation_names (finish-returned b _ f (rw o at t)))
  | inr other ↦ cc (rw other at t)
]

IsComplete-create_facade : (b : Backend) → IsComplete b → create_facade b ≡ returned (facade_of b)
unfolding create_facade
IsComplete-create_facade b (o, k) = rw (o, each_function b.value operation_names k)

-- A facade is returned exactly for a complete backend.
pub create_facade_iff :
    (b : Backend) → ((f : Facade) × (create_facade b ≡ returned f)) ↔ IsComplete b
create_facade_iff b =
    ((λ (f, t). create_facade-IsComplete b f t), (λ k. (facade_of b, IsComplete-create_facade b k)))
