-- ===== src/Scheduler/Stop/Effort.antt =====
-- The workers of src/process.cpp have a bounded number of steps left once the scheduler is stopped, and
-- the exit code of a program.
use stp.Prelude.{
  ℕ, zero, suc, ◌+◌, ◌*◌, ◌≤◌, ◌<◌, ◌≡◌, refl, ap, Bool, true, false, Option, none, some, arith,
  total, total-update, update,
}
use stp.Wild.{AppendList}
use stp.Scheduler.{take}
use stp.Scheduler.Stop.{
  Place, tests, locks, waits, runs, ended, Stopping, stop, os_exit, entry_ends, System, tested,
  taken, Step, reads_stop, takes, goes_on, has_run, resumes, sends, stops, signals, Steps, done,
  first,
}

-- How many steps a worker may yet do once the scheduler is stopped.
abbrev effort : Place → ℕ
effort tests = 1
effort locks = 3
effort waits = 2
effort runs = 2
effort ended = 0

effort-taken : {A : Type 0} (L : AppendList A) (n : ℕ) (o : Option A) → effort (taken L n o) ≡ 2
effort-taken L n none = refl
effort-taken L n (some p) = refl

total-bound : (n k : ℕ) (f : ℕ → ℕ) → ((i : ℕ) → f i ≤ k) → total n f ≤ k * n
unfolding total
total-bound zero k f h = omega arith
total-bound (suc n) k f h = ground (arith, total-bound n k f h, h n)

module _ {A : Type 0} (L : AppendList A) (n : ℕ) where
  abbrev pub efforts : System L n → ℕ
  efforts s = total n (λ i. effort (s.place i))

  place-effort :
      (place : ℕ → Place) (i : ℕ) (p : Place)
      → i < n
      → effort p < effort (place i)
      → total n (λ j. effort (update place i p j)) < total n (λ j. effort (place j))
  place-effort place i p lt h = omega (arith, h, total-update n i effort place p lt)

  abbrev worker_step : {s t : System L n} → Step L n s t → ℕ
  worker_step (reads_stop i lt at) = 1
  worker_step (takes i lt at) = 1
  worker_step (goes_on i lt at h) = 1
  worker_step (has_run i lt at) = 1
  worker_step (resumes p) = 0
  worker_step (sends h) = 0
  worker_step (stops code) = 0
  worker_step (signals k left) = 0

  -- How many steps of a run are those of workers.
  pub worker_steps : {s t : System L n} → Steps L n s t → ℕ
  worker_steps done = 0
  worker_steps (first step run) = worker_step step + worker_steps run

  -- A step of a worker leaves the workers less to do.
  Step-effort :
      {s t : System L n} (step : Step L n s t)
      → s.stopping.is_stopped ≡ true
      → efforts t + worker_step step ≤ efforts s
  Step-effort {s} (reads_stop i lt at) stopped = omega (
    arith,
    place-effort s.place i (tested L n s.stopping.is_stopped) lt
        (rw (stopped, tested) (omega (arith, ap effort at))),
  )
  Step-effort {s} (takes i lt at) stopped = omega (
    arith,
    place-effort s.place i (taken L n (take L s.scheduler).0) lt
        (omega (arith, effort-taken L n (take L s.scheduler).0, ap effort at)),
  )
  Step-effort {s} (goes_on i lt at h) stopped =
      omega (arith, place-effort s.place i tests lt (omega (arith, ap effort at)))
  Step-effort {s} (has_run i lt at) stopped =
      omega (arith, place-effort s.place i tests lt (omega (arith, ap effort at)))
  Step-effort (resumes p) stopped = omega arith
  Step-effort (sends h) stopped = omega arith
  Step-effort (stops code) stopped = omega arith
  Step-effort (signals k left) stopped = omega arith

  Step-stopped :
      {s t : System L n}
      → Step L n s t
      → s.stopping.is_stopped ≡ true
      → t.stopping.is_stopped ≡ true
  unfolding stop
  Step-stopped (reads_stop i lt at) stopped = stopped
  Step-stopped (takes i lt at) stopped = stopped
  Step-stopped (goes_on i lt at h) stopped = stopped
  Step-stopped (has_run i lt at) stopped = stopped
  Step-stopped (resumes p) stopped = stopped
  Step-stopped (sends h) stopped = stopped
  Step-stopped (stops code) stopped = ground (arith, stopped)
  Step-stopped (signals k left) stopped = stopped

  Steps-effort :
      {s t : System L n} (run : Steps L n s t)
      → s.stopping.is_stopped ≡ true
      → efforts t + worker_steps run ≤ efforts s
  unfolding worker_steps
  Steps-effort done stopped = omega arith
  Steps-effort (first step run) stopped =
      omega (arith, Step-effort step stopped, Steps-effort run (Step-stopped step stopped))

  effort-le : (p : Place) → effort p ≤ 3
  effort-le tests = omega arith
  effort-le locks = omega arith
  effort-le waits = omega arith
  effort-le runs = omega arith
  effort-le ended = omega arith

  -- Once the scheduler is stopped, its `n` workers do at most 3 * n steps in all in whatever run follows,
  -- whoever resumes processes, sends signals or stops it again.
  pub Steps-worker_steps :
      {s t : System L n} (run : Steps L n s t)
      → s.stopping.is_stopped ≡ true
      → worker_steps run ≤ 3 * n
  Steps-worker_steps {s} run stopped = omega (
    arith,
    Steps-effort run stopped,
    total-bound n 3 (λ i. effort (s.place i)) (λ i. effort-le (s.place i)),
  )

-- The code of `os::exit` is the exit code of the program, though the process of `main` stops the
-- scheduler again with 0.
entry_ends-os_exit :
    (n code : ℕ) (uncaught_exception : Bool) (s : Stopping)
    → s.stop_fired ≡ false
    → (entry_ends n (os_exit n code uncaught_exception s).1).exitcode ≡ code
unfolding entry_ends os_exit stop
entry_ends-os_exit n code uncaught_exception s e = ground (arith, e)
