-- ===== src/Process/Serve/Handlers/Examples.antt =====
-- The theorem on typed handlers where two types are registered, one of them twice, and the coroutine 4
-- serves a request.
use stp.Prelude.{ℕ, ◌+◌, ◌≡◌, refl, List, [], ◌∷◌, Option, none, some, ◌==◌, ==_refl, if◌then◌else◌}
use stp.Coroutine.{Content, empty, kill_process, exception, user}
use stp.Process.{Process}
use stp.Process.Examples.{killed, asks}
use stp.Process.Serve.{serve}
use stp.Process.Serve.Handlers.{
  SharedAny, Registration, returns, returns_empty, request_callback, request_coroutine,
  notification_callback, registered, answers, handler_of, info_of,
}
use stp.Process.Serve.Handlers.Typed.{called, serve-registered}

-- The types of a user come after those of the program.
abbrev type_of : Content ℕ → ℕ
type_of empty = 0
type_of kill_process = 1
type_of (exception e) = 2
type_of (user type v) = type + 3

abbrev value_of : Content ℕ → ℕ
value_of empty = 0
value_of kill_process = 0
value_of (exception e) = 0
value_of (user type v) = v

abbrev numbers : SharedAny ℕ (λ type. ℕ)
numbers = record {
  type_of = type_of;
  cast = λ type a. if type_of a == type then some (value_of a) else none;
  content_of = λ type v. user type v;
  cast-type_of = λ a. (value_of a, rw (==_refl (type_of a)) refl);
}

abbrev or_zero : Option ℕ → ℕ
or_zero none = 0
or_zero (some v) = v

-- The request is answered with the next number.
abbrev next : Registration ℕ (λ type. ℕ)
next = request_coroutine 3 (returns 3 (λ p. ([], or_zero p + 1))) 0

abbrev registrations : List (Registration ℕ (λ type. ℕ))
registrations =
    next ∷ notification_callback 1 (λ p. []) ∷ request_callback 3 (returns_empty (λ p. [])) ∷ []

abbrev busy : Process ℕ
busy = record killed { inbox = asks ∷ [] }

serve-registered_example :
    (func : ℕ) × (x : ℕ) × ((serve type_of (registered numbers registrations).infos busy 4).0
      ≡ called (info_of numbers next func) asks)
    × ((if type_of asks.content == 3 then some (value_of asks.content) else none) ≡ some x)
    × ((registered numbers registrations).funcs func asks.content
        ≡ answers numbers 3 (handler_of numbers next) (some x))
serve-registered_example = serve-registered numbers registrations busy 4 asks [] next refl refl
