-- ===== src/Timer/Service.antt =====
-- The service around the timer of src/time.cpp: the thread that reads the clock, the process that
-- owns the timer, and the times that a program can ask for. What _gettime and _realtime return are
-- arguments.
pub mod Bag
pub mod Thread
mod Examples
use stp.Prelude.{ℕ, ◌+◌, ◌-◌, ◌%◌, ◌^◌, List, [], Option, none, some, ltb, if◌then◌else◌}
use stp.Timer.{TimerNode, Timer, timeout, update_timer}

pub record Clock : Type 0 where
  pub time : ℕ
  pub starttime : ℕ
  pub starttime_realtime : ℕ

unfoldable pub init : (now realtime : ℕ) → Clock
init now realtime = record { time = 0; starttime = now; starttime_realtime = realtime }

-- A round of the loop of `tick`: the timestamp of the UpdateMessage that is sent, if one is, and
-- the clock; `none` is the failed assertion.
pub tick_round : Clock → (now : ℕ) → Option (Option ℕ × Clock)
tick_round c now =
    let time : ℕ = now - c.starttime in
    if ltb now c.starttime
    then none
    else (if ltb c.time time then some (some time, record c { time = time }) else some (none, c))

pub now : Clock → ℕ
now c = c.time

pub startup_time : Clock → ℕ
startup_time c = c.starttime_realtime

pub real_time : Clock → ℕ
real_time c = (startup_time c + now c) % 2 ^ 64

-- The messages that `_main` has a callback for, with the sender of a request and its session.
pub data ServiceMessage : Type 0 where
  timeout_request : (source session timeout : ℕ) → ServiceMessage
  update_message : (timestamp : ℕ) → ServiceMessage

-- The nodes that are sent, and the timer.
unfoldable pub serve : Timer → ServiceMessage → Option (List TimerNode × Timer)
serve t (timeout_request source session msecs) = elim (timeout t source session msecs) [
  | none ↦ none
  | some t' ↦ some ([], t')
]
serve t (update_message timestamp) = update_timer t timestamp
