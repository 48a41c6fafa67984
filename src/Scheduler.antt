-- ===== src/Scheduler.antt =====
-- class Scheduler of src/process.cpp: the processes that are ready to run, and the workers that take
-- them.
--
-- `_idle_workers` is `idle`. The counter of wild::Signaler, which is not part of the repository, is
-- `signals`: `send` adds 1, and a worker in `wait` goes on by taking 1 off.
pub mod Order
pub mod Stop
mod Examples
use stp.Prelude.{
  ℕ, ◌+◌, ◌-◌, Bool, true, false, List, [], ◌∷◌, Option, none, some, ◌==◌, if◌then◌else◌,
}
use stp.Wild.{AppendList}

pub record Scheduler (A Queue : Type 0) : Type 0 where
  pub runq : List A
  pub resumeq : Queue
  pub idle : ℕ
  pub signals : ℕ

-- `waiting` in `resume`, as the number of signals that are left to send.
abbrev pub one_if_sends : Bool → ℕ
one_if_sends true = 1
one_if_sends false = 0

module _ {A : Type 0} (L : AppendList A) where
  pub new_scheduler : Scheduler A L.Queue
  new_scheduler = record { runq = []; resumeq = L.empty; idle = 0; signals = 0 }

  -- The part of `resume` under the lock, and whether a signal has to be sent when it is released.
  pub resume_locked : Scheduler A L.Queue → A → Bool × Scheduler A L.Queue
  resume_locked s p =
      if s.idle == 0
      then (false, record s { resumeq = L.push s.resumeq p })
      else (true, record s { resumeq = L.push s.resumeq p; idle = s.idle - 1 })

  -- `_signaler.send()`.
  pub send_signal : Scheduler A L.Queue → Scheduler A L.Queue
  send_signal s = record s { signals = s.signals + 1 }

  pub take_refilled : Scheduler A L.Queue → List A → Option A × Scheduler A L.Queue
  take_refilled s [] = (none, record s { runq = []; idle = s.idle + 1 })
  take_refilled s (p ∷ rest) = (some p, record s { runq = rest })

  pub take_from : Scheduler A L.Queue → List A → Option A × Scheduler A L.Queue
  take_from s [] =
      take_refilled (record s { resumeq = (L.clear s.resumeq).1 }) (L.clear s.resumeq).0
  take_from s (p ∷ rest) = (some p, record s { runq = rest })

  -- One round of the loop of `run` under the lock: the process to resume, or none where the worker
  -- has to wait.
  pub take : Scheduler A L.Queue → Option A × Scheduler A L.Queue
  take s = take_from s s.runq
