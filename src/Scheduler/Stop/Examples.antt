-- ===== src/Scheduler/Stop/Examples.antt =====
-- The theorems on the end of the scheduler: one worker waits while it is stopped with 3, then with 0.
use stp.Prelude.{ℕ, ◌*◌, ◌≤◌, ◌≡◌, refl, arith}
use stp.Wild.{list_queue}
use stp.Scheduler.{new_scheduler, resume_locked, send_signal, take, take_from, take_refilled}
use stp.Scheduler.Stop.{
  stop, System, begin, Step, reads_stop, takes, goes_on, resumes, stops, signals, Reach, start,
  later, Steps, done, first,
}
use stp.Scheduler.Stop.Ends.{AllEnded, other_steps, Reach-AllEnded}
use stp.Scheduler.Stop.Effort.{worker_steps, Steps-worker_steps}

record Run : Type 0 where
  state : System {A = ℕ} list_queue 1
  reached : Reach list_queue 1 state

abbrev go : (r : Run) {s : System {A = ℕ} list_queue 1} → Step list_queue 1 r.state s → Run
go r {s} step = record { state = s; reached = later r.reached step }

abbrev stopped : Run
unfolding new_scheduler take take_from take_refilled send_signal stop
stopped =
    go
      (go
        (go
          (go
            (go (record { state = begin list_queue 1; reached = start })
              (reads_stop 0 (omega arith) refl))
            (takes 0 (omega arith) refl))
          (stops 3))
        (signals 0 refl))
      (stops 0)

Reach-AllEnded_example :
    (t : System {A = ℕ} list_queue 1) × (run : Steps list_queue 1 stopped.state t) × (other_steps
        list_queue 1 run
      ≡ 0)
    × AllEnded 1 t.place
unfolding stopped
Reach-AllEnded_example = Reach-AllEnded list_queue 1 stopped.reached refl refl

-- The worker is woken and reads `_stop` while a process is resumed.
abbrev last_run : Run
unfolding stopped resume_locked new_scheduler
last_run = go (go stopped (goes_on 0 (omega arith) refl (omega arith))) (resumes 7)

abbrev last_steps : Steps list_queue 1 stopped.state last_run.state
unfolding stopped last_run resume_locked new_scheduler
last_steps = first (goes_on 0 (omega arith) refl (omega arith)) (first (resumes 7) done)

Steps-worker_steps_example : worker_steps list_queue 1 last_steps ≤ 3 * 1
unfolding stopped
Steps-worker_steps_example = Steps-worker_steps list_queue 1 last_steps refl
