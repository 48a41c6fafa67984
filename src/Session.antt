-- ===== src/Session.antt =====
-- `class Session` of src/process.hpp, with `new_session` and `release_session` of src/process.cpp.
--
-- A variable of type Session and a process are named by a number, their addresses; a variable that
-- does not live holds no session.
pub mod Owners
pub mod Examples
use stp.Prelude.{ℕ, ◌==◌, if◌then◌else◌, update}
use stp.Wild.{IdAllocator}

pub record Session : Type 0 where
  pub process : ℕ
  pub session : ℕ

abbrev pub no_session : Session
no_session = record { process = 0; session = 0 }

module _ (a : IdAllocator) where
  -- `Process::_sessions` of every process, and the variables.
  pub record Store : Type 0 where
    pub ids : ℕ → a.Ids
    pub vars : ℕ → Session

  -- `Process::release_session`.
  pub release_session : Store → (process session : ℕ) → Store
  release_session s process session = record s {
    ids = update s.ids process (a.erase session (s.ids process));
  }

  -- `if (_session) { close(); }`.
  pub close : Store → (this : ℕ) → Store
  close s this =
      if (s.vars this).session == 0
      then s
      else release_session s (s.vars this).process (s.vars this).session

  -- `Process::new_session`, into a variable.
  pub new_session : Store → (this process : ℕ) → Store
  new_session s this process = record {
    ids = update s.ids process (a.new_id (s.ids process)).1;
    vars =
        update s.vars this (record { process = process; session = (a.new_id (s.ids process)).0 });
  }

  -- What the move constructor does after `close` in the assignment, too: `other` may be `this`.
  pub move : Store → (this other : ℕ) → Store
  move s this other = record s {
    vars = update (update s.vars this (s.vars other)) other no_session;
  }

  pub assign : Store → (this other : ℕ) → Store
  assign s this other = move (close s this) this other

  -- `~Session`.
  pub destroy : Store → (this : ℕ) → Store
  destroy s this = record (close s this) { vars = update s.vars this no_session }
