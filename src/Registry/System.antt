-- ===== src/Registry/System.antt =====
-- All that holds references to processes in src/process.cpp: the queues of the scheduler, the workers
-- and the pointers that `find` returns, as a step relation.
--
-- `held` counts these references by process. `pid_of` is `Process::_pid`, which `reg` sets once.
-- `created` lists the calls of `Process::create`; an address is free while its count is 0.
use stp.Prelude.{ℕ, ◌+◌, ◌-◌, ◌<◌, ◌≡◌, List, [], ◌∷◌, ◌++◌, some, update}
use stp.Process.Run.{ResumeResult, k_resume, k_down, k_break}
use stp.Registry.{Registry, spawn, ref, unref, find_process, after_resume}

pub record Owners : Type 0 where
  pub registry : Registry
  pub held : ℕ → ℕ
  pub pid_of : ℕ → ℕ
  pub created : List ℕ

abbrev pub init : Owners
init = record {
  registry = record { seq = 0; procs_map = []; refcnt = λ p. 0; destroyed = [] };
  held = λ p. 0;
  pid_of = λ p. 0;
  created = [];
}

abbrev pub kept : ResumeResult → ℕ → ℕ
kept k_resume n = n
kept k_down n = n - 1
kept k_break n = n - 1

pub data Step (s : Owners) : Owners → Type 0 where
  -- A new process, which the scheduler holds.
  spawns :
      (p : ℕ)
      → s.registry.refcnt p ≡ 0
      → Step s (record {
        registry = (spawn s.registry p).1;
        held = update s.held p (s.held p + 1);
        pid_of = update s.pid_of p (spawn s.registry p).0;
        created = s.created ++ p ∷ [];
      })
  -- A pointer to a process by its id.
  finds :
      (pid p : ℕ)
      → (find_process s.registry pid).0 ≡ some p
      → Step s (record s {
        registry = (find_process s.registry pid).1;
        held = update s.held p (s.held p + 1);
      })
  -- The scheduler takes a reference to a process that somebody holds.
  wakes :
      (p : ℕ)
      → 0 < s.held p
      → Step s (record s { registry = ref s.registry p; held = update s.held p (s.held p + 1) })
  -- A pointer is released.
  drops :
      (p : ℕ)
      → 0 < s.held p
      → Step s (record s { registry = unref s.registry p; held = update s.held p (s.held p - 1) })
  -- A worker has run a process.
  runs :
      (p : ℕ) (result : ResumeResult)
      → 0 < s.held p
      → Step s (record s {
        registry = after_resume s.registry p (s.pid_of p) result;
        held = update s.held p (kept result (s.held p));
      })

pub data Reach : Owners → Type 0 where
  start : Reach init
  later : {s t : Owners} → Reach s → Step s t → Reach t
