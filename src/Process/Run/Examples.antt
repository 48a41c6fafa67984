-- ===== src/Process/Run/Examples.antt =====
-- The theorems on whole turns of `class Process` at concrete processes.
use stp.Prelude.{ℕ, false, ◌≡◌, refl, none, some, arith, Option, ◌≤◌, List, [], occurs}
use stp.Coroutine.{coroutine_exit, get_value, set_exception, Content, Try}
use stp.Process.{
  Process, Action, Stop, suspends, act_all, stop, settle, switch, resume, sweep_zombies, throw_in,
}
use stp.Process.Places.{places}
use stp.Process.Conserve.{Once, Keeps, Behaves}
use stp.Process.Run.{
  ResumeResult, k_down, is_ready, run_spawned, run_woken, run_round, run, dispatch, resume_process,
  is_empty, is_some, wake_inbox,
}
use stp.Process.Run.Turn.{resume_process-Keeps}
use stp.Process.Caught.{resume-caught}
use stp.Process.Examples.{killed, ends_at_once}

ends_at_once-Behaves : Behaves ends_at_once
ends_at_once-Behaves = record {
  ends = λ co e p. (coroutine_exit, refl);
  sessions = λ co session got p e. absurd (cc e);
  news = λ co c got p h. omega (arith, h);
}

killed-Once : Once killed
unfolding places
killed-Once c = ground arith

abbrev turn : Option (Process ℕ × ResumeResult) → Process ℕ × ResumeResult
turn none = (killed, k_down)
turn (some r) = r

-- The process after the turn, in which 7 runs and ends.
abbrev killed_after : Process ℕ × ResumeResult
killed_after = turn (resume_process ends_at_once 4 killed none)

resume_process-killed : resume_process ends_at_once 4 killed none ≡ some killed_after
unfolding resume_process dispatch run run_round run_spawned run_woken resume switch settle stop
    throw_in sweep_zombies is_ready act_all wake_inbox get_value set_exception is_empty is_some
resume_process-killed = refl

resume_process-Keeps_example : Keeps killed killed_after.0
resume_process-Keeps_example =
    resume_process-Keeps ends_at_once ends_at_once-Behaves 4 killed killed_after.0 none
      killed_after.1 killed-Once resume_process-killed

-- A coroutine that catches what it is told of.
abbrev catches : ℕ → Try (Content ℕ) → Process ℕ → List Action × Stop
catches co got p = ([], suspends)

abbrev interrupted : Process ℕ
interrupted = throw_in killed 12 coroutine_exit

resume-caught_example :
    (1 ≤ occurs 12 (sweep_zombies (resume catches interrupted 12 false).0).destroyed)
    × (1 ≤ occurs 12 (sweep_zombies (resume catches interrupted 12 false).0).suspend_coroutines)
unfolding throw_in set_exception
resume-caught_example = resume-caught catches interrupted 12 false coroutine_exit refl refl
