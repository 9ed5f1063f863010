-- ===== src/ReactNative/Entry/Forwarding.antt =====
-- react-native/index.mjs: the backend has every operation, and passes it on under its name.
use symbol_nem_wallet_core.Prelude.{◌≡◌, refl, List, All}
use symbol_nem_wallet_core.Js.Value.{Value, is_object, property_of, find}
use symbol_nem_wallet_core.Js.Outcome.{returned}
use symbol_nem_wallet_core.Js.Storage.{Heap}
use symbol_nem_wallet_core.Facade.Errors.{read}
use symbol_nem_wallet_core.Facade.Operations.{operation_names, call}
use symbol_nem_wallet_core.Facade.Create.{Facade, create_facade, lacks_operation, facade_of}
use symbol_nem_wallet_core.ReactNative.Entry.{Invocation, react_native_backend, react_native_facade}

call_invokes :
    (invoke : Invocation) (args : List Value) (h : Heap)
    → All
        (λ name. call (react_native_backend invoke) name args h ≡ invoke.run name args h)
        operation_names
unfolding call react_native_backend read property_of find
call_invokes invoke args h = (
  refl,
  (
    refl,
    (
      refl,
      (
        refl,
        (
          refl,
          (
            refl,
            (refl, (refl, (refl, (refl, (refl, (refl, (refl, (refl, (refl, (refl, tt)))))))))),
          ),
        ),
      ),
    ),
  ),
)

-- The start over a native module always gives a facade, and each operation that the facade calls is
-- an invocation of the module under the operation's name with the same arguments.
pub react_native_facade-forwards :
    (invoke : Invocation) (args : List Value) (h : Heap)
    → ((f : Facade) × (react_native_facade invoke ≡ returned f))
      × All
          (λ name. call (react_native_backend invoke) name args h ≡ invoke.run name args h)
          operation_names
unfolding react_native_facade react_native_backend create_facade lacks_operation is_object read
    property_of find
react_native_facade-forwards invoke args h =
    ((facade_of (react_native_backend invoke), refl), call_invokes invoke args h)
