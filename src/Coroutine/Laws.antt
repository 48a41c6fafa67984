-- ===== src/Coroutine/Laws.antt =====
-- class Result of src/process.cpp over any sequence of calls.
use stp.Prelude.{◌≡◌, refl, List, [], ◌∷◌, none, some, arith}
use stp.Coroutine.{
  Exception, Content, Result, returned, thrown, set_value, set_exception, get_value,
}

-- What is done to a result after an exception was set.
pub data Use (Value : Type 0) : Type 0 where
  sets : Content Value → Use Value
  gets : Use Value

module _ {Value : Type 0} where
  pub use_result : Result Value → Use Value → Result Value
  use_result r (sets v) = set_value r v
  use_result r gets = (get_value r).1

  pub use_all : Result Value → List (Use Value) → Result Value
  use_all r [] = r
  use_all r (u ∷ us) = use_all (use_result r u) us

  -- A value that was set is what the next call of `get_value` returns, if no exception was set.
  pub get_value-set_value :
      (r : Result Value) (v : Content Value)
      → r.exception_ptr ≡ none
      → (get_value (set_value r v)).0 ≡ returned v
  unfolding get_value set_value
  get_value-set_value r v e = rw e

  keeps_exception :
      (r : Result Value) (e : Exception) (us : List (Use Value))
      → r.exception_ptr ≡ some e
      → (use_all r us).exception_ptr ≡ some e
  unfolding use_all use_result get_value set_value
  keeps_exception r e [] h = h
  keeps_exception r e (sets v ∷ us) h = keeps_exception (set_value r v) e us h
  keeps_exception r e (gets ∷ us) h = keeps_exception (get_value r).1 e us (ground arith)

  -- An exception stays: once it was set, every later call of `get_value` throws it, whatever values
  -- are set and however often the result is asked for in between.
  pub get_value-set_exception :
      (r : Result Value) (e : Exception) (us : List (Use Value))
      → (get_value (use_all (set_exception r e) us)).0 ≡ thrown e
  unfolding get_value set_exception
  get_value-set_exception r e us = rw (keeps_exception (set_exception r e) e us refl)
