-- ===== src/Tests/Samples.antt =====
-- A small backend and a heap, for runs of packages/wallet-core/src/facade-runtime.mjs.
use symbol_nem_wallet_core.Prelude.{
  none, ℕ, ◌+◌, String, List, [], ◌∷◌, ◌==◌, replicate, if◌then◌else◌,
}
use symbol_nem_wallet_core.Js.Value.{
  Value, string, function, bytes, array, object, object_prototype, end, field, plain, nil, Fields,
}
use symbol_nem_wallet_core.Js.Outcome.{returned, thrown, foreign}
use symbol_nem_wallet_core.Js.Storage.{detached, live, Heap, Js, allocate}
use symbol_nem_wallet_core.Facade.Errors.{error_object}
use symbol_nem_wallet_core.Facade.Operations.{Backend, operation_names}

abbrev pub plain_object : Fields → Value
plain_object fs = object object_prototype fs

-- the secrets of a generated profile, in the storages 0 and 1
abbrev pub secret : Value
secret =
    plain_object
      (field "mnemonic_utf8" (plain (bytes 0)) (field "pending_profile" (plain (bytes 1)) end))

abbrev pub secret_result : Value
secret_result =
    plain_object (field "value" (plain secret) (field "warnings" (plain (array nil)) end))

abbrev pub heap : Heap
heap = record {
  next = 3;
  storage = λ i.
      if i == 0
      then live (7 ∷ 8 ∷ [])
      else if i == 1
      then live (9 ∷ [])
      else if i == 2
      then live (5 ∷ 5 ∷ 5 ∷ [])
      else detached;
}

abbrev pub id : Value
id = string "0123abcd-0000-1111-2222-0123456789AB"

-- a signing request whose payload stands in storage 2
abbrev pub signing_request : Value
signing_request = plain_object (
    field "target"
      (plain (
        plain_object (
          field "profile_id" (plain id) (
            field "key_id" (plain id) (
              field "context"
                (plain (
                  plain_object (
                    field "chain" (plain (string "symbol"))
                      (field "network" (plain (string "testnet")) end))))
                end)))))
      (field "payload" (plain (bytes 2)) (
        field "approval" (plain (plain_object (field "status" (plain (string "approved")) end)))
          end)))

abbrev pub mnemonic_target : Value
mnemonic_target =
    plain_object (field "kind" (plain (string "mnemonic")) (field "profile_id" (plain id) end))

abbrev pub confirmation : String → Value
confirmation status =
    plain_object
      (field "target" (plain mnemonic_target) (field "status" (plain (string status)) end))

abbrev pub export_request : Value
export_request = plain_object (
    field "target" (plain mnemonic_target) (
      field "user_request" (plain (confirmation "requested"))
        (field "application_confirmation" (plain (confirmation "not_confirmed")) end)))

abbrev functions : ℕ → List String → Fields
functions n [] = end
functions n (name ∷ names) = field name (plain (function n)) (functions (n + 1) names)

-- function 12 signs; every other function throws an error with a code as its message
abbrev pub signature : Js Value
signature h = (
  returned (
      plain_object (
        field "value" (plain (plain_object (field "signature" (plain (bytes h.next)) end)))
          (field "warnings" (plain (array nil)) end))),
  allocate (replicate 64 1) h,
)

abbrev failure : Js Value
failure h = (thrown (foreign (error_object "ProfileNotFound")), h)

abbrev pub backend : Backend
backend = record {
  value = plain_object (functions 0 operation_names);
  apply = λ f args. if f == 12 then signature else failure;
  payload_left = λ f args h. none;
}
