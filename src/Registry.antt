-- ===== src/Registry.antt =====
-- The registry of processes and their reference counts, and the calls that go through it, of
-- src/process.cpp.
--
-- A process is its address, a process id a uint32 value. What is sent to a mailbox is what a call
-- returns: the process and the message.
pub mod Life
pub mod Counts
pub mod System
pub mod Owners
pub mod Safety
pub mod Requests
mod Examples
use stp.Prelude.{
  ℕ, ◌+◌, ◌-◌, ◌%◌, ◌^◌, Bool, true, false, List, [], ◌∷◌, ◌++◌, Option, none, some, ◌==◌,
  if◌then◌else◌, update,
}
use stp.Message.{Message, session_for_response}
use stp.Process.Run.{ResumeResult, k_resume, k_down, k_break}
use stp.Dict.{find, assign, erase}

pub record Registry : Type 0 where
  pub seq : ℕ
  pub procs_map : List (ℕ × ℕ)
  pub refcnt : ℕ → ℕ
  -- the processes that `Process::destroy` was called on, in order
  pub destroyed : List ℕ

abbrev pub next_id : Registry → ℕ
next_id r = (r.seq + 1) % 2 ^ 32

pub reg : Registry → ℕ → ℕ × Registry
reg r p = (next_id r, record r { seq = next_id r; procs_map = assign (next_id r) p r.procs_map })

pub is_found : Option ℕ → Bool
is_found none = false
is_found (some p) = true

-- `gProcsMap.erase(pid) == 1`.
pub unreg : Registry → (pid : ℕ) → Bool × Registry
unreg r pid = (is_found (find pid r.procs_map), record r { procs_map = erase pid r.procs_map })

pub ref : Registry → ℕ → Registry
ref r p = record r { refcnt = update r.refcnt p (r.refcnt p + 1) }

pub unref : Registry → ℕ → Registry
unref r p =
    let released : Registry = record r { refcnt = update r.refcnt p (r.refcnt p - 1) } in
    if r.refcnt p == 1 then record released { destroyed = r.destroyed ++ p ∷ [] } else released

-- `find`, whose result is released by `unref`.
pub find_process : Registry → (pid : ℕ) → Option ℕ × Registry
find_process r pid = elim (find pid r.procs_map) [ none ↦ (none, r) | some p ↦ (some p, ref r p) ]

pub retire : Registry → (p pid : ℕ) → Registry
retire r p pid = if (unreg r pid).0 then unref (unreg r pid).1 p else r

-- `Process::create`: the id and the registry.
pub create : Registry → ℕ → ℕ × Registry
create r p = reg (record r { refcnt = update r.refcnt p 1 }) p

module _ {Content : Type 0} where
  -- The process whose mailbox gets the message, and the registry after the pointer is released.
  pub deliver : Option ℕ × Registry → Message Content → Option (ℕ × Message Content) × Registry
  deliver (none, r) msg = (none, r)
  deliver (some p, r) msg = (some (p, msg), unref r p)

  pub send : Registry → (self pid session : ℕ) → Content → Option (ℕ × Message Content) × Registry
  send r self pid session content =
      deliver (find_process r pid) (record { source = self; session = session; content = content })

  -- `kill`, with the content KillProcess{}: process 0 is the running one.
  pub kill : Registry → (self pid : ℕ) → Content → Option (ℕ × Message Content) × Registry
  kill r self pid kill_process = send r self (if pid == 0 then self else pid) 0 kill_process

  -- `process::response`.
  pub response :
      Registry → (self source session : ℕ) → Content → Option (ℕ × Message Content) × Registry
  response r self source session content = send r self source (session_for_response session) content

-- `process::spawn`: the process is created and handed to the scheduler, which takes a reference.
pub spawn : Registry → ℕ → ℕ × Registry
spawn r p = ((create r p).0, ref (create r p).1 p)

-- `process::resume` after `p->resume()`: `sched::resume` takes a reference, and the worker gives
-- up its own.
pub after_resume : Registry → (p pid : ℕ) → ResumeResult → Registry
after_resume r p pid k_resume = unref (ref r p) p
after_resume r p pid k_down = unref (retire r p pid) p
after_resume r p pid k_break = unref r p
