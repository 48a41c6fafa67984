-- ===== src/Coroutine.antt =====
-- class Result and class Coroutine of src/process.cpp: what a suspended coroutine is told when it
-- goes on, and what it leaves when it stops.
pub mod Laws
pub mod Life
use stp.Prelude.{ℕ, Option, none, some}

-- The exceptions that src/process.cpp tells apart.
pub data Exception : Type 0 where
  coroutine_exit process_exit aborted_request process_not_exist : Exception
  other : ℕ → Exception

-- What a wild::SharedAny holds here: the marks that src/process.cpp asks for, or a value of a user's
-- type, given by the type's index.
pub data Content (Value : Type 0) : Type 0 where
  empty kill_process : Content Value
  exception : Exception → Content Value
  user : (type : ℕ) → Value → Content Value

pub record Result (Value : Type 0) : Type 0 where
  pub value : Content Value
  pub exception_ptr : Option Exception

-- A call that throws or returns.
pub data Try (A : Type 0) : Type 0 where
  returned : A → Try A
  thrown : Exception → Try A

module _ {Value : Type 0} where
  unfoldable pub set_value : Result Value → Content Value → Result Value
  set_value r v = record r { value = v }

  unfoldable pub set_exception : Result Value → Exception → Result Value
  set_exception r e = record r { exception_ptr = some e }

  -- The value is moved out; the exception stays.
  unfoldable pub get_value : Result Value → Try (Content Value) × Result Value
  get_value r = elim r.exception_ptr [
    | some e ↦ (thrown e, r)
    | none ↦ (returned r.value, record r { value = empty })
  ]

-- A coroutine's result, and the message that it serves.
pub record Coroutine (Value : Type 0) : Type 0 where
  pub result : Result Value
  pub message_sender : ℕ
  pub message_session : ℕ
