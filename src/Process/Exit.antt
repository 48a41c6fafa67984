-- ===== src/Process/Exit.antt =====
-- `Process::exit` of src/process.cpp: a process that is killed ends every one of its coroutines.
use mathlib.Core.List.{append-nil}
use stp.Prelude.{
  ℕ, zero, suc, ◌+◌, ◌≤◌, ◌≡◌, refl, sym, ap, subst, ◌∙◌, true, List, [], ◌∷◌, ◌++◌, some, All,
  length, arith,
}
use stp.Coroutine.{coroutine_exit, Content, Result, set_exception, get_value, Try, thrown}
use stp.Process.{
  Process, Action, Stop, finishes, set_result_of, throw_in, sweep_zombies, abandon_spawned, act_all,
  stop, settle, switch, resume, drain, interrupt, exit_loop, exit,
}
use stp.Process.Interrupt.{
  exception_of, Ended, All-map_told, Ended-taken, Ended-trans, waiting, interrupt-Interrupted,
}

module _ {Value : Type 0} (body : ℕ → Try (Content Value) → Process Value → List Action × Stop)
    (leaves : (co : ℕ) (p : Process Value)
      → body co (thrown coroutine_exit) p ≡ ([], finishes coroutine_exit)) where
  got_exit :
      (r : Result Value)
      → r.exception_ptr ≡ some coroutine_exit
      → get_value r ≡ (thrown coroutine_exit, r)
  unfolding get_value
  got_exit r h = ground arith

  -- A coroutine that is told to exit ends, and waits to be swept.
  switch-exit :
      (p : Process Value) (co : ℕ)
      → exception_of p co ≡ some coroutine_exit
      → switch body p co ≡ throw_in (set_result_of p co (p.coroutines co).result) co coroutine_exit
  unfolding switch act_all stop
  switch-exit p co h = rw (got_exit (p.coroutines co).result h, leaves) refl

  resume-exit :
      (p : Process Value) (co : ℕ)
      → exception_of p co ≡ some coroutine_exit
      → Ended p (resume body p co true).0 (co ∷ [])
        × ((resume body p co true).0.wakeup_coroutines ≡ p.wakeup_coroutines)
  unfolding resume settle throw_in set_exception get_value
  resume-exit p co h = rw (switch-exit p co h) (
    record {
      zombies = ground arith;
      spawned = ground arith;
      suspended = ground arith;
      blocked = ground arith;
      freed = ground arith;
      told = λ c k. ground arith;
    },
    ground arith,
  )

  -- The inner loop of `exit` ends all the coroutines of its queue.
  drain-exit :
      (queue : List ℕ) (fuel : ℕ) (p : Process Value)
      → length queue ≤ fuel
      → p.wakeup_coroutines ≡ queue
      → All (λ c. exception_of p c ≡ some coroutine_exit) queue
      → (q : Process Value) × (drain body fuel p queue ≡ some q)
        × Ended p q queue
        × (q.wakeup_coroutines ≡ [])
  unfolding drain
  drain-exit [] fuel p enough w h = (
    p,
    refl,
    record {
      zombies = sym (append-nil p.zombie_coroutines);
      spawned = refl;
      suspended = refl;
      blocked = refl;
      freed = refl;
      told = λ c k. k;
    },
    w,
  )
  drain-exit (co ∷ queue) zero p enough w h = absurd (omega arith)
  drain-exit (co ∷ queue) (suc fuel) p enough w h =
      let taken : Process Value = record p { wakeup_coroutines = queue } in
      let (ended, left) = resume-exit taken co h.0 in
      let (q, done, others, empty_) =
        drain-exit queue fuel (resume body taken co true).0 (omega arith) left
          (All-map_told taken (resume body taken co true).0 (co ∷ []) ended queue h.1) in
      (
        q,
        ap (drain body fuel (resume body taken co true).0) left ∙ done,
        Ended-trans (Ended-taken p queue ended) others,
        empty_,
      )

  -- A round with nothing that waits is the last.
  exit_loop-quiet :
      (fuel : ℕ) (p : Process Value)
      → p.wakeup_coroutines ≡ []
      → waiting p ≡ []
      → exit_loop body (suc fuel) p ≡ some (interrupt p)
  unfolding exit_loop
  exit_loop-quiet fuel p w e =
      let i = interrupt-Interrupted p w in
      let none_queued : (interrupt p).wakeup_coroutines ≡ [] = i.queued ∙ e in ground arith

  -- The rounds of `exit` are over.
  record Stopped (p q : Process Value) : Type 0 where
    zombies : q.zombie_coroutines ≡ p.zombie_coroutines ++ waiting p
    spawned : q.spawn_coroutines ≡ p.spawn_coroutines
    woken : q.wakeup_coroutines ≡ []
    suspended : q.suspend_coroutines ≡ []
    blocked : q.block_sessions ≡ []
    freed : q.destroyed ≡ p.destroyed

  exit_loop-quiet-Stopped :
      (p : Process Value) → p.wakeup_coroutines ≡ [] → waiting p ≡ [] → Stopped p (interrupt p)
  exit_loop-quiet-Stopped p w none_waiting =
      let i = interrupt-Interrupted p w in
      record {
        zombies = i.zombies ∙ sym (rw none_waiting (append-nil p.zombie_coroutines));
        spawned = i.spawned;
        woken = i.queued ∙ none_waiting;
        suspended = i.none_suspended;
        blocked = i.none_blocked;
        freed = i.freed;
      }

  -- One round that wakes somebody: its coroutines are drained, and the next round is quiet.
  exit_loop-round :
      (p q : Process Value) (co : ℕ) (queue : List ℕ) (fuel : ℕ)
      → (interrupt p).wakeup_coroutines ≡ co ∷ queue
      → drain body (suc fuel) (interrupt p) (co ∷ queue) ≡ some q
      → exit_loop body (suc (suc fuel)) p ≡ exit_loop body (suc fuel) q
  unfolding exit_loop
  exit_loop-round p q co queue fuel e d = ground arith

  exit_loop-Stopped :
      (p : Process Value) (l : List ℕ) (fuel : ℕ)
      → p.wakeup_coroutines ≡ []
      → waiting p ≡ l
      → length l ≤ suc fuel
      → (q : Process Value) × (exit_loop body (suc (suc fuel)) p ≡ some q) × Stopped p q
  exit_loop-Stopped p [] fuel w e enough =
      (interrupt p, exit_loop-quiet (suc fuel) p w e, exit_loop-quiet-Stopped p w e)
  exit_loop-Stopped p (co ∷ queue) fuel w e enough =
      let i = interrupt-Interrupted p w in
      let queued : (interrupt p).wakeup_coroutines ≡ co ∷ queue = i.queued ∙ e in
      let (q, done, ended, empty_) =
        drain-exit (co ∷ queue) (suc fuel) (interrupt p) enough queued
          (subst (All (λ c. exception_of (interrupt p) c ≡ some coroutine_exit)) e i.all_told) in
      let s : q.suspend_coroutines ≡ [] = ended.suspended ∙ i.none_suspended in
      let b : q.block_sessions ≡ [] = ended.blocked ∙ i.none_blocked in
      let over : waiting q ≡ [] = ground arith in
      let last = exit_loop-quiet-Stopped q empty_ over in
      (
        interrupt q,
        exit_loop-round p q co queue fuel queued done ∙ exit_loop-quiet fuel q empty_ over,
        record {
          zombies =
              last.zombies
              ∙ ap (◌++◌ q.zombie_coroutines) over
              ∙ append-nil q.zombie_coroutines
              ∙ ended.zombies
              ∙ ap (λ zs. zs ++ (co ∷ queue)) i.zombies
              ∙ sym (ap (◌++◌ p.zombie_coroutines) e);
          spawned = last.spawned ∙ ended.spawned ∙ i.spawned;
          woken = last.woken;
          suspended = last.suspended;
          blocked = last.blocked;
          freed = last.freed ∙ ended.freed ∙ i.freed;
        },
      )

  exit-loop_done :
      (fuel : ℕ) (p q : Process Value)
      → exit_loop body (suc (suc fuel)) p ≡ some q
      → exit body (suc (suc fuel)) p ≡ some (sweep_zombies (abandon_spawned q))
  unfolding exit
  exit-loop_done fuel p q e = rw (e, exit)

  -- A process whose coroutines let the exit exception through, killed while none of them is ready to
  -- run, ends all of them, in a number of steps that its waiting coroutines bound: no queue, set or
  -- map holds a coroutine any more, and the coroutines that are destroyed are, each once and in this
  -- order, those that had ended, those that waited for a response, those that were suspended and
  -- those that had not started.
  pub exit-destroys :
      (p : Process Value) (fuel : ℕ)
      → p.wakeup_coroutines ≡ []
      → length (waiting p) + 2 ≤ fuel
      → (q : Process Value) × (exit body fuel p ≡ some q)
        × (q.spawn_coroutines ≡ [])
        × (q.wakeup_coroutines ≡ [])
        × (q.zombie_coroutines ≡ [])
        × (q.suspend_coroutines ≡ [])
        × (q.block_sessions ≡ [])
        × (q.destroyed ≡ p.destroyed ++ (p.zombie_coroutines ++ waiting p ++ p.spawn_coroutines))
  unfolding sweep_zombies abandon_spawned
  exit-destroys p zero w enough = absurd (omega arith)
  exit-destroys p (suc zero) w enough = absurd (omega arith)
  exit-destroys p (suc (suc fuel)) w enough =
      let (q, done, s) = exit_loop-Stopped p (waiting p) fuel w refl (omega arith) in
      (
        sweep_zombies (abandon_spawned q),
        exit-loop_done fuel p q done,
        refl,
        s.woken,
        refl,
        s.suspended,
        s.blocked,
        cc (s.freed, s.zombies, s.spawned),
      )
