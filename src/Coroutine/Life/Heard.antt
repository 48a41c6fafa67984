-- ===== src/Coroutine/Life/Heard.antt =====
-- What a coroutine of src/process.cpp hears from its calls of `yield`.
use stp.Prelude.{ℕ, ◌≡◌, refl, ap, ◌∙◌, List, [], ◌∷◌, Option, none, some, ◌>>=◌}
use stp.Coroutine.{
  Exception, coroutine_exit, Content, empty, Try, returned, thrown, set_value, set_exception,
  get_value,
}
use stp.Coroutine.Life.{
  Body, yields, ends, throws, Place, unstarted, in_yield, ended, Routine, create, run, resume_at,
  resume, Told, value, exception, tell, drive,
}

-- The first exception that is set is thrown by every later call, or the next one that is set.
abbrev pub heard :
    {Value : Type 0} → Option Exception → List (Told Value) → List (Try (Content Value))
heard last [] = []
heard none (value v ∷ ts) = returned v ∷ heard none ts
heard (some e) (value v ∷ ts) = thrown e ∷ heard (some e) ts
heard last (exception e ∷ ts) = thrown e ∷ heard (some e) ts

-- The rest of a function after calls of `yield`; after its end there is none.
abbrev pub after : {Value : Type 0} → Body Value → List (Try (Content Value)) → Option (Body Value)
after b [] = some b
after (yields next) (t ∷ ts) = after (next t) ts
after ends (t ∷ ts) = none
after (throws e) (t ∷ ts) = none

abbrev pub place_of : {Value : Type 0} → Body Value → Place Value
place_of (yields next) = in_yield next
place_of ends = ended
place_of (throws e) = ended

module _ {Value : Type 0} where
  abbrev pub places : Option (Routine Value) → Option (Place Value)
  places none = none
  places (some co) = some co.place

  abbrev pub places_of : Option (Body Value) → Option (Place Value)
  places_of none = none
  places_of (some b) = some (place_of b)

  abbrev routine :
      Content Value → Option Exception → (sender session : ℕ) → Body Value → Routine Value
  routine v x sender session b = record {
    result = record { value = v; exception_ptr = x };
    message_sender = sender;
    message_session = session;
    place = place_of b;
  }

  -- The exception after a run that leaves `b`.
  abbrev set_by : Body Value → Option Exception → Option Exception
  set_by (yields next) x = x
  set_by ends x = some coroutine_exit
  set_by (throws e) x = some e

  run-routine :
      (v : Content Value) (x : Option Exception) (sender session : ℕ) (b : Body Value)
      (from : Place Value)
      → run (record (routine v x sender session b) { place = from }) b
        ≡ routine v (set_by b x) sender session b
  unfolding run set_exception
  run-routine v x sender session (yields next) from = refl
  run-routine v x sender session ends from = refl
  run-routine v x sender session (throws e) from = refl

  -- What is heard after the end does not matter.
  after-set_by :
      (b : Body Value) (x : Option Exception) (ts : List (Told Value))
      → places_of (after b (heard (set_by b x) ts)) ≡ places_of (after b (heard x ts))
  after-set_by (yields next) x ts = refl
  after-set_by ends none [] = refl
  after-set_by ends (some e) [] = refl
  after-set_by ends none (value v ∷ ts) = refl
  after-set_by ends (some e) (value v ∷ ts) = refl
  after-set_by ends none (exception e ∷ ts) = refl
  after-set_by ends (some e') (exception e ∷ ts) = refl
  after-set_by (throws e) none [] = refl
  after-set_by (throws e) (some e') [] = refl
  after-set_by (throws e) none (value v ∷ ts) = refl
  after-set_by (throws e) (some e') (value v ∷ ts) = refl
  after-set_by (throws e) none (exception e' ∷ ts) = refl
  after-set_by (throws e) (some e1) (exception e2 ∷ ts) = refl

  -- A run, and the rest.
  drive-run :
      (ts : List (Told Value)) (v : Content Value) (x : Option Exception) (sender session : ℕ)
      (b : Body Value) (from : Place Value)
      → places (drive (routine v (set_by b x) sender session b) ts)
        ≡ places_of (after b (heard (set_by b x) ts))
      → places (drive (run (record (routine v x sender session b) { place = from }) b) ts)
        ≡ places_of (after b (heard x ts))
  drive-run ts v x sender session b from rest =
      ap (λ co. places (drive co ts)) (run-routine v x sender session b from)
      ∙ rest
      ∙ after-set_by b x ts

  drive-routine :
      (ts : List (Told Value)) (v : Content Value) (x : Option Exception) (sender session : ℕ)
      (b : Body Value)
      → places (drive (routine v x sender session b) ts) ≡ places_of (after b (heard x ts))
  unfolding drive resume resume_at tell set_value set_exception get_value
  drive-routine [] v none sender session b = refl
  drive-routine [] v (some e) sender session b = refl
  drive-routine (value w ∷ ts) v none sender session ends = refl
  drive-routine (value w ∷ ts) v (some e) sender session ends = refl
  drive-routine (exception e ∷ ts) v none sender session ends = refl
  drive-routine (exception e ∷ ts) v (some e') sender session ends = refl
  drive-routine (value w ∷ ts) v none sender session (throws f) = refl
  drive-routine (value w ∷ ts) v (some e) sender session (throws f) = refl
  drive-routine (exception e ∷ ts) v none sender session (throws f) = refl
  drive-routine (exception e ∷ ts) v (some e') sender session (throws f) = refl
  drive-routine (value w ∷ ts) v none sender session (yields next) =
      drive-run ts empty none sender session (next (returned w)) (in_yield next) (
        drive-routine ts empty (set_by (next (returned w)) none) sender session (next (returned w)))
  drive-routine (value w ∷ ts) v (some e) sender session (yields next) =
      drive-run ts w (some e) sender session (next (thrown e)) (in_yield next)
        (drive-routine ts w (set_by (next (thrown e)) (some e)) sender session (next (thrown e)))
  drive-routine (exception e ∷ ts) v none sender session (yields next) =
      drive-run ts v (some e) sender session (next (thrown e)) (in_yield next)
        (drive-routine ts v (set_by (next (thrown e)) (some e)) sender session (next (thrown e)))
  drive-routine (exception e ∷ ts) v (some e') sender session (yields next) =
      drive-run ts v (some e) sender session (next (thrown e)) (in_yield next)
        (drive-routine ts v (set_by (next (thrown e)) (some e)) sender session (next (thrown e)))

  -- A coroutine that is created, started and then, each time that it yields, told of a value or an
  -- exception, is where its function is after calls of `yield` that return these values, up to the first
  -- exception: from then on every call throws the exception that was set last, whatever values are set.
  -- It can be resumed until its function has ended or thrown, and no more.
  pub drive-heard :
      (func : Body Value) (ts : List (Told Value))
      → places (resume (create func) >>= λ co. drive co ts) ≡ places_of (after func (heard none ts))
  unfolding resume resume_at create
  drive-heard func ts =
      drive-run ts empty none 0 0 func (unstarted func)
        (drive-routine ts empty (set_by func none) 0 0 func)
