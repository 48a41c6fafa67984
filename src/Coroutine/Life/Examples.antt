-- ===== src/Coroutine/Life/Examples.antt =====
-- The theorem on the life of a coroutine at a function that yields until it is given the value 0, and goes
-- on when it is told of an exception.
use stp.Prelude.{ℕ, ◌≡◌, List, [], ◌∷◌, ◌>>=◌}
use stp.Coroutine.{user, returned, thrown, process_exit}
use stp.Coroutine.Life.{Body, yields, ends, create, resume, Told, value, exception, drive}
use stp.Coroutine.Life.Heard.{after, places, places_of, drive-heard}

-- It yields three times and ends.
abbrev three : Body ℕ
three = yields (λ a. yields (λ b. yields (λ c. ends)))

abbrev told : List (Told ℕ)
told = value (user 0 5) ∷ exception process_exit ∷ value (user 0 6) ∷ []

drive-heard_example :
    places (resume (create three) >>= λ co. drive co told)
    ≡ places_of (after three (returned (user 0 5) ∷ thrown process_exit ∷ thrown process_exit ∷ []))
drive-heard_example = drive-heard three told
