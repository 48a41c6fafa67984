-- ===== src/Mutex/System.antt =====
-- Coroutines that share one mutex of src/process.cpp, interleaved.
--
-- A coroutine is outside, waits in `suspend`, was woken by `unlock` and is ready to run, or is
-- inside. Only a coroutine that waits can be told of an exception: a woken one is in no set that
-- `Process::exit` interrupts.
use stp.Prelude.{ℕ, ◌≡◌, Bool, true, false, Option, none, some, update}
use stp.Mutex.{Mutex, create, lock, lock_resumed, lock_thrown, unlock}

pub data Phase : Type 0 where
  outside waits woken inside : Phase

pub record Shared : Type 0 where
  pub mutex : Mutex
  pub phase : ℕ → Phase

-- `coroutine::wakeup` of a coroutine that is suspended.
abbrev pub wake : Option ℕ → (ℕ → Phase) → ℕ → Phase
wake none phase = phase
wake (some c) phase = update phase c woken

abbrev pub entered : Bool → Phase
entered true = waits
entered false = inside

pub data Step (s : Shared) : Shared → Type 0 where
  locks :
      (c : ℕ) (suspends : Bool) (m : Mutex)
      → s.phase c ≡ outside
      → lock s.mutex c ≡ some (suspends, m)
      → Step s (record { mutex = m; phase = update s.phase c (entered suspends) })
  resumes :
      (c : ℕ)
      → s.phase c ≡ woken
      → lock_resumed s.mutex c ≡ some s.mutex
      → Step s (record s { phase = update s.phase c inside })
  throws :
      (c : ℕ)
      → s.phase c ≡ waits
      → Step s (record { mutex = lock_thrown s.mutex c; phase = update s.phase c outside })
  unlocks :
      (c : ℕ) (next : Option ℕ) (m : Mutex)
      → s.phase c ≡ inside
      → unlock s.mutex c ≡ some (next, m)
      → Step s (record { mutex = m; phase = wake next (update s.phase c outside) })

pub data Reach : Shared → Type 0 where
  start : Reach (record { mutex = create; phase = λ c. outside })
  later : {s t : Shared} → Reach s → Step s t → Reach t
