-- ===== src/Process/Serve/Replies/Examples.antt =====
-- The theorem on replies where the coroutine 4 of the process 3 serves a request of the process 8.
use stp.Prelude.{ℕ, ◌≡◌, ◌&&◌, ◌==◌, if◌then◌else◌, arith, refl, List, [], ◌∷◌, some}
use stp.Message.{session_for_response}
use stp.Dict.{find}
use stp.Coroutine.{user}
use stp.Process.{Process}
use stp.Process.Examples.{killed, asks}
use stp.Process.Serve.{HandlerInfo, k_callback, calls, serve}
use stp.Process.Serve.Replies.{times, reply, reply-serve}
use stp.Registry.Requests.Examples.{two}

abbrev busy : Process ℕ
busy = record killed { inbox = asks ∷ []; requests_map = (8, 11) ∷ (8, 12) ∷ [] }

abbrev one_handler : List (ℕ × HandlerInfo)
one_handler = (1, record { mode = k_callback; func = 70; addstack = 0 }) ∷ []

reply-serve_example :
    (q : Process ℕ) × (serve (λ c. 1) one_handler busy 4 ≡ (calls 70 (user 0 5), q))
    × (q.inbox ≡ [])
    × ((reply two q 4 (user 0 6)).0.0
        ≡ some (80, record { source = 3; session = session_for_response 11; content = user 0 6 }))
    × ((source session : ℕ)
        → times source session (reply two q 4 (user 0 6)).1.requests_map
          ≡ (if source == 8 && session == 11 then 0 else times source session busy.requests_map))
unfolding find
reply-serve_example =
    reply-serve (λ c. 1) one_handler busy 4 asks []
      (record { mode = k_callback; func = 70; addstack = 0 }) two 80 (user 0 6) refl refl refl refl
      (omega arith)
