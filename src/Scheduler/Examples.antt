-- ===== src/Scheduler/Examples.antt =====
-- The theorems on the scheduler where its only worker waits when the process 7 is resumed, before and
-- after the signal is sent.
use stp.Prelude.{ℕ, ◌<◌, ◌≡◌, ◌⊎◌, refl, List, [], ◌∷◌, ◌++◌, arith}
use stp.Wild.{list_queue}
use stp.Scheduler.{new_scheduler, resume_locked, send_signal, take, take_from, take_refilled}
use stp.Scheduler.Order.{
  Workers, resumes, sends, waits, Reach, start, later, Reach-fifo, Reach-awake,
}

abbrev ready : Workers ℕ (List ℕ)
ready = record {
  scheduler = record { runq = []; resumeq = 7 ∷ []; idle = 0; signals = 1 };
  waiting = 1;
  sending = 0;
  resumed = 7 ∷ [];
  taken = [];
}

ready-Reach : Reach list_queue 1 ready
unfolding new_scheduler resume_locked send_signal take take_from take_refilled
ready-Reach =
    later (later (later start (waits (omega arith) refl)) (resumes 7)) (sends (omega arith))

-- The lock is released, and the signal is not sent yet.
abbrev unsignalled : Workers ℕ (List ℕ)
unsignalled = record ready {
  scheduler = record { runq = []; resumeq = 7 ∷ []; idle = 0; signals = 0 };
  sending = 1;
}

unsignalled-Reach : Reach list_queue 1 unsignalled
unfolding new_scheduler resume_locked take take_from take_refilled
unsignalled-Reach = later (later start (waits (omega arith) refl)) (resumes 7)

Reach-fifo_example : ready.resumed ≡ ready.taken ++ (7 ∷ [])
Reach-fifo_example = Reach-fifo list_queue 1 (omega arith) ready-Reach

Reach-awake_example : (1 < 1) ⊎ ((0 < 0) ⊎ (0 < 1))
Reach-awake_example = Reach-awake list_queue 1 (omega arith) unsignalled-Reach (λ e. cc)
