-- ===== src/Coroutine/Life.antt =====
-- class Coroutine of src/process.cpp from its creation to its end: `create`, `resume`, `yield`, `run` and
-- `main`, and what it is told in between.
--
-- The function of a coroutine is a tree: it yields and goes on with what `yield` returns or throws, or
-- it ends, or it throws. The switch of stacks goes on where the tree was left; to resume a coroutine
-- that has ended is undefined, here `none`.
pub mod Heard
mod Examples
use stp.Prelude.{List, [], ◌∷◌, Option, none, some, ◌>>=◌, ℕ}
use stp.Coroutine.{
  Exception, coroutine_exit, Content, empty, Result, Try, set_value, set_exception, get_value,
}

pub data Body (Value : Type 0) : Type 0 where
  yields : (next : Try (Content Value) → Body Value) → Body Value
  ends : Body Value
  throws : Exception → Body Value

-- Where its stack is.
pub data Place (Value : Type 0) : Type 0 where
  unstarted : Body Value → Place Value
  in_yield : (next : Try (Content Value) → Body Value) → Place Value
  ended : Place Value

pub record Routine (Value : Type 0) : Type 0 where
  pub result : Result Value
  pub message_sender : ℕ
  pub message_session : ℕ
  pub place : Place Value

-- What the process sets before it resumes a coroutine.
pub data Told (Value : Type 0) : Type 0 where
  value : Content Value → Told Value
  exception : Exception → Told Value

module _ {Value : Type 0} where
  pub create : Body Value → Routine Value
  create func = record {
    result = record { value = empty; exception_ptr = none };
    message_sender = 0;
    message_session = 0;
    place = unstarted func;
  }

  pub set_message_info : Routine Value → (sender session : ℕ) → Routine Value
  set_message_info co sender session = record co {
    message_sender = sender;
    message_session = session;
  }

  -- `run` from here on, up to the next switch to the thread.
  pub run : Routine Value → Body Value → Routine Value
  run co (yields next) = record co { place = in_yield next }
  run co ends = record co { result = set_exception co.result coroutine_exit; place = ended }
  run co (throws e) = record co { result = set_exception co.result e; place = ended }

  -- `resume`, with `main` at the first time and the end of `yield` later.
  pub resume_at : Routine Value → Place Value → Option (Routine Value)
  resume_at co (unstarted func) = some (run co func)
  resume_at co (in_yield next) =
      let (told, result) = get_value co.result in
      some (run (record co { result = result }) (next told))
  resume_at co ended = none

  pub resume : Routine Value → Option (Routine Value)
  resume co = resume_at co co.place

  pub tell : Routine Value → Told Value → Routine Value
  tell co (value v) = record co { result = set_value co.result v }
  tell co (exception e) = record co { result = set_exception co.result e }

  pub drive : Routine Value → List (Told Value) → Option (Routine Value)
  drive co [] = some co
  drive co (t ∷ ts) = resume (tell co t) >>= λ co'. drive co' ts
