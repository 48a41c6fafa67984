-- ===== src/Timer/Service/Examples.antt =====
-- The theorem on the timer service at a run of the clock's thread.
use stp.Prelude.{◌≡◌, List, [], ◌∷◌, some, arith}
use stp.Timer.{TimerNode, Timer, empty}
use stp.Timer.Service.{init, ServiceMessage}
use stp.Timer.Service.Thread.{ticks, sleeps, messages as read_clock, messages-AllSends}
use stp.Timer.Service.Bag.{AllSends, bag_all, serve_all}

-- The program starts at 500, and a process sleeps for 7 milliseconds.
messages-AllSends_example :
    (ms : List ServiceMessage) × (sents : List (List TimerNode)) × (t : Timer) × (read_clock
        (init 500 90000)
        (sleeps 3 4 7 ∷ ticks 505 ∷ ticks 505 ∷ ticks 508 ∷ [])
      ≡ some ms)
    × (serve_all empty ms ≡ some (sents, t))
    × AllSends sents (bag_all (record { time = 0; nodes = [] }) ms)
unfolding init
messages-AllSends_example =
    messages-AllSends 500 90000 (sleeps 3 4 7 ∷ ticks 505 ∷ ticks 505 ∷ ticks 508 ∷ []) (
      omega arith,
      (omega arith, omega arith, (omega arith, omega arith, (omega arith, omega arith, tt))),
    )
