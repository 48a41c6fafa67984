-- ===== src/Scheduler/Stop.antt =====
-- How src/process.cpp stops the scheduler, with src/exit.cpp, src/os.cpp and src/main.cpp: `stop`, the
-- test of `_stop` in `run`, and the exit code that `serve` returns.
--
-- `to_send` is what the loop at the end of `stop` has yet to send, of one signal for each of the `n`
-- workers. That `stop` also ends the poller and the timer is left out.
pub mod Workers
pub mod Effort
pub mod Ends
mod Examples
use stp.Prelude.{
  ℕ, suc, ◌+◌, ◌-◌, ◌<◌, ◌≡◌, Bool, true, false, List, [], ◌∷◌, ◌++◌, Option, none, some,
  if◌then◌else◌, update,
}
use stp.Wild.{AppendList}
use stp.Scheduler.{Scheduler, new_scheduler, resume_locked, one_if_sends, send_signal, take}

-- Where a worker is in `run`: at the test of `_stop`, before the lock, in `wait`, in `process::resume`,
-- or at the end.
pub data Place : Type 0 where
  tests locks waits runs ended : Place

-- `_stopFired`, `_stop`, `_exitcode` and the loop of signals.
pub record Stopping : Type 0 where
  pub stop_fired : Bool
  pub is_stopped : Bool
  pub exitcode : ℕ
  pub to_send : ℕ

abbrev pub not_stopping : Stopping
not_stopping = record { stop_fired = false; is_stopped = false; exitcode = 0; to_send = 0 }

-- `Scheduler::stop` up to its loop.
pub stop : (n code : ℕ) → Stopping → Stopping
stop n code s =
    if s.stop_fired
    then s
    else record { stop_fired = true; is_stopped = true; exitcode = code; to_send = n }

-- `os::exit`: `true` is a thrown process::ExitException.
pub os_exit : (n code : ℕ) (uncaught_exception : Bool) → Stopping → Bool × Stopping
os_exit n code uncaught_exception s =
    if uncaught_exception then (false, stop n code s) else (true, stop n code s)

-- The end of the process that `main` spawns, by the return of `entry` or by an exception.
pub entry_ends : (n : ℕ) → Stopping → Stopping
entry_ends n s = stop n 0 s

module _ {A : Type 0} (L : AppendList A) (n : ℕ) where
  pub record System : Type 0 where
    pub scheduler : Scheduler A L.Queue
    pub place : ℕ → Place
    pub stopping : Stopping
    -- the callers of `resume` that have left the lock and have yet to send a signal
    pub sending : ℕ
    -- the codes of the calls of `stop`, in order
    pub codes : List ℕ

  abbrev pub begin : System
  begin = record {
    scheduler = new_scheduler L;
    place = λ i. tests;
    stopping = not_stopping;
    sending = 0;
    codes = [];
  }

  -- The test of the loop, and what a worker does under the lock.
  abbrev pub tested : Bool → Place
  tested true = ended
  tested false = locks

  abbrev pub taken : Option A → Place
  taken none = waits
  taken (some p) = runs

  pub data Step (s : System) : System → Type 0 where
    reads_stop :
        (i : ℕ)
        → i < n
        → s.place i ≡ tests
        → Step s (record s { place = update s.place i (tested s.stopping.is_stopped) })
    takes :
        (i : ℕ)
        → i < n
        → s.place i ≡ locks
        → Step s (record s {
          scheduler = (take L s.scheduler).1;
          place = update s.place i (taken (take L s.scheduler).0);
        })
    goes_on :
        (i : ℕ)
        → i < n
        → s.place i ≡ waits
        → 0 < s.scheduler.signals
        → Step s (record s {
          scheduler = record s.scheduler { signals = s.scheduler.signals - 1 };
          place = update s.place i tests;
        })
    has_run :
        (i : ℕ) → i < n → s.place i ≡ runs → Step s (record s { place = update s.place i tests })
    -- Anybody resumes a process, or stops the scheduler.
    resumes :
        (p : A)
        → Step s (record s {
          scheduler = (resume_locked L s.scheduler p).1;
          sending = s.sending + one_if_sends (resume_locked L s.scheduler p).0;
        })
    sends :
        0 < s.sending
        → Step s (record s { scheduler = send_signal L s.scheduler; sending = s.sending - 1 })
    stops :
        (code : ℕ)
        → Step s (record s { stopping = stop n code s.stopping; codes = s.codes ++ code ∷ [] })
    signals :
        (k : ℕ)
        → s.stopping.to_send ≡ suc k
        → Step s (record s {
          scheduler = send_signal L s.scheduler;
          stopping = record s.stopping { to_send = k };
        })

  pub data Reach : System → Type 0 where
    start : Reach begin
    later : {s t : System} → Reach s → Step s t → Reach t

  -- A run from one state to another.
  pub data Steps : System → System → Type 0 where
    done : {s : System} → Steps s s
    first : {s t u : System} → Step s t → Steps t u → Steps s u
