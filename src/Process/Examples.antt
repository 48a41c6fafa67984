-- ===== src/Process/Examples.antt =====
-- The theorems on `class Process` at a concrete process, whose coroutines 5, 6 and 7 wait for
-- a response, are suspended and have not started.
use stp.Prelude.{ℕ, ◌≡◌, ◌≤◌, refl, List, [], ◌∷◌, none, some, arith}
use stp.Coroutine.{coroutine_exit, Content, empty, user, Coroutine, Try}
use stp.Process.{Process, Action, Stop, finishes, serve_request, exit}
use stp.Message.{Message, type_of_message}
use stp.Process.Run.{receive}
use stp.Process.Abort.{destruct, occurs, destruct-serve_request}
use stp.Process.Exit.{exit-destroys}

abbrev pub blank : ℕ → Coroutine ℕ
blank co = record {
  result = record { value = empty; exception_ptr = none };
  message_sender = 0;
  message_session = 0;
}

abbrev pub killed : Process ℕ
killed = record {
  pid = 3;
  inbox = [];
  inbox_coroutine = some 4;
  spawn_coroutines = 7 ∷ [];
  wakeup_coroutines = [];
  zombie_coroutines = [];
  suspend_coroutines = 6 ∷ [];
  block_sessions = (9, 5) ∷ [];
  requests_map = [];
  coroutines = blank;
  destroyed = [];
}

abbrev pub ends_at_once : ℕ → Try (Content ℕ) → Process ℕ → List Action × Stop
ends_at_once co got p = ([], finishes coroutine_exit)

exit-destroys_example :
    (q : Process ℕ) × (exit ends_at_once 4 killed ≡ some q)
    × (q.spawn_coroutines ≡ [])
    × (q.wakeup_coroutines ≡ [])
    × (q.zombie_coroutines ≡ [])
    × (q.suspend_coroutines ≡ [])
    × (q.block_sessions ≡ [])
    × (q.destroyed ≡ 5 ∷ 6 ∷ 7 ∷ [])
exit-destroys_example = exit-destroys ends_at_once (λ co p. refl) killed 4 refl (omega arith)

abbrev pub asks : Message (Content ℕ)
asks = record { source = 8; session = 11; content = user 0 5 }

destruct-serve_request_example :
    2 ≤ occurs 8 11 (destruct (receive (serve_request killed 8 11) asks) [])
unfolding type_of_message
destruct-serve_request_example = destruct-serve_request killed asks [] refl
