-- ===== src/Process/Run/Whole.antt =====
-- A whole turn of a process of src/process.cpp, from `dispatch` to the message that is handled: no
-- coroutine is lost, destroyed while it waits, or put into two places.
use stp.Prelude.{
  ℕ, zero, suc, ◌+◌, ◌≡◌, refl, sym, ap, subst, inl, inr, Bool, true, false, List, [], ◌∷◌, ◌++◌,
  Option, some, arith, if◌then◌else◌, one_if, occurs, occurs-append, Option-cases,
}
use stp.Dict
use stp.Dict.{find}
use stp.Message.{Message, session_for_response}
use stp.Coroutine.{Content, empty, kill_process, exception, user, Try}
use stp.Process.{
  Process, Action, Stop, throw_in, unblock, sweep_zombies, abandon_spawned, interrupt, resume,
  drain, exit_loop, exit,
}
use stp.Process.Places.{places, Adds, Same, wakeup-Same, interrupt-Same, unblock-places}
use stp.Process.Conserve.{Once, Keeps, Keeps-refl, Keeps-trans, Same-Keeps, Behaves, resume-Keeps}
use stp.Process.Run.{answer, answer_unblocked, handle_response, wake_inbox, run_spawned, run_woken}

module _ {Value : Type 0} where
  pub sweep_zombies-Keeps : (p : Process Value) → Once p → Keeps p (sweep_zombies p)
  unfolding sweep_zombies places
  sweep_zombies-Keeps p once = record {
    kept = λ c. omega (arith, occurs-append c p.destroyed p.zombie_coroutines);
    once = λ c. omega (arith, once c);
  }

  abandon_spawned-Same : (p : Process Value) → Same p (abandon_spawned p)
  unfolding abandon_spawned places
  abandon_spawned-Same p = record {
    count = λ c. omega (arith, occurs-append c p.zombie_coroutines p.spawn_coroutines);
    freed = refl;
  }

  pub wake_inbox-Same : (p : Process Value) → Same p (wake_inbox p)
  unfolding wake_inbox places
  wake_inbox-Same p = elim (Option-cases p.inbox_coroutine) [
    | inl e ↦ record { count = λ c. ground (arith, e); freed = ground (arith, e) }
    | inr (co, e) ↦
        let s = wakeup-Same p co in
        record { count = λ c. ground (arith, e, s.count c); freed = ground (arith, e, s.freed) }
  ]

  answer-Adds :
      (p : Process Value) (co : ℕ) (v : Content Value)
      → Adds p (answer_unblocked (some co, p) v) (one_if co)
  unfolding answer answer_unblocked throw_in places
  answer-Adds p co v = by_content v
    where
      more :
          (c : ℕ)
          → occurs c (p.wakeup_coroutines ++ co ∷ []) ≡ occurs c p.wakeup_coroutines + one_if co c
      more c = omega (arith, occurs-append c p.wakeup_coroutines (co ∷ []))

      by_content : (v : Content Value) → Adds p (answer_unblocked (some co, p) v) (one_if co)
      by_content empty = record { count = λ c. omega (arith, more c); freed = refl }
      by_content kill_process = record { count = λ c. omega (arith, more c); freed = refl }
      by_content (exception e) = record { count = λ c. omega (arith, more c); freed = refl }
      by_content (user t w) = record { count = λ c. omega (arith, more c); freed = refl }

  pub handle_response-Same :
      (p : Process Value) (msg : Message (Content Value)) → Same p (handle_response p msg)
  unfolding handle_response unblock answer_unblocked
  handle_response-Same p msg =
      elim (Option-cases (find (session_for_response msg.session) p.block_sessions)) [
        | inl e ↦ record { count = λ c. ground (arith, e); freed = ground (arith, e) }
        | inr (co, e) ↦
            let session : ℕ = session_for_response msg.session in
            let p' : Process Value = record p {
              block_sessions = Dict.erase session p.block_sessions;
            } in
            let adds = answer-Adds p' co msg.content in
            let same : handle_response p msg ≡ answer_unblocked (some co, p') msg.content =
              rw (e, unblock, handle_response) refl in
            subst (Same p) (sym same) (record {
              count = λ c. omega (arith, adds.count c, unblock-places p session co e c);
              freed = adds.freed;
            })
      ]

module _ {Value : Type 0} (body : ℕ → Try (Content Value) → Process Value → List Action × Stop)
    (behaves : Behaves body) where
  taken_spawned :
      (p : Process Value) (co : ℕ) (queue : List ℕ)
      → p.spawn_coroutines ≡ co ∷ queue
      → (c : ℕ) → places c p ≡ places c (record p { spawn_coroutines = queue }) + one_if co c
  unfolding places
  taken_spawned p co queue e c = omega (arith, ap (occurs c) e)

  taken_woken :
      (p : Process Value) (co : ℕ) (queue : List ℕ)
      → p.wakeup_coroutines ≡ co ∷ queue
      → (c : ℕ) → places c p ≡ places c (record p { wakeup_coroutines = queue }) + one_if co c
  unfolding places
  taken_woken p co queue e c = omega (arith, ap (occurs c) e)

  -- A loop that ends, by an exception or not, or goes on.
  next_state :
      {p : Process Value} (next : Process Value × Bool) (rest : Option (Process Value × Bool))
      (q : Process Value) (throws : Bool)
      → (if next.1 then some (next.0, true) else rest) ≡ some (q, throws)
      → Keeps p next.0
      → (rest ≡ some (q, throws) → Keeps next.0 q)
      → Keeps p q
  next_state {p} (next, true) rest q throws e k go =
      subst (Keeps p) (ap (λ (n : Process Value). n) (cc)) k
  next_state (next, false) rest q throws e k go = Keeps-trans k (go e)

  pub run_spawned-Keeps :
      (fuel : ℕ) (queue : List ℕ) (p q : Process Value) (throws : Bool)
      → p.spawn_coroutines ≡ queue
      → Once p
      → run_spawned body fuel p queue ≡ some (q, throws)
      → Keeps p q
  unfolding run_spawned
  run_spawned-Keeps fuel [] p q throws w once e = subst (Keeps p) (cc) (Keeps-refl p once)
  run_spawned-Keeps zero (co ∷ queue) p q throws w once e = cc
  run_spawned-Keeps (suc fuel) (co ∷ queue) p q throws w once e =
      let taken : Process Value = record p { spawn_coroutines = queue } in
      let next : Process Value × Bool = resume body taken co false in
      let k = resume-Keeps body behaves p taken co false (taken_spawned p co queue w) refl once in
      next_state next (run_spawned body fuel next.0 next.0.spawn_coroutines) q throws e k
        (λ h. run_spawned-Keeps fuel next.0.spawn_coroutines next.0 q throws refl k.once h)

  pub run_woken-Keeps :
      (fuel : ℕ) (queue : List ℕ) (p q : Process Value) (throws : Bool)
      → p.wakeup_coroutines ≡ queue
      → Once p
      → run_woken body fuel p queue ≡ some (q, throws)
      → Keeps p q
  unfolding run_woken
  run_woken-Keeps fuel [] p q throws w once e = subst (Keeps p) (cc) (Keeps-refl p once)
  run_woken-Keeps zero (co ∷ queue) p q throws w once e = cc
  run_woken-Keeps (suc fuel) (co ∷ queue) p q throws w once e =
      let taken : Process Value = record p { wakeup_coroutines = queue } in
      let next : Process Value × Bool = resume body taken co false in
      let k = resume-Keeps body behaves p taken co false (taken_woken p co queue w) refl once in
      next_state next (run_woken body fuel next.0 next.0.wakeup_coroutines) q throws e k
        (λ h. run_woken-Keeps fuel next.0.wakeup_coroutines next.0 q throws refl k.once h)

  drain-Keeps :
      (fuel : ℕ) (queue : List ℕ) (p q : Process Value)
      → p.wakeup_coroutines ≡ queue
      → Once p
      → drain body fuel p queue ≡ some q
      → Keeps p q
  unfolding drain
  drain-Keeps fuel [] p q w once e = subst (Keeps p) (cc) (Keeps-refl p once)
  drain-Keeps zero (co ∷ queue) p q w once e = cc
  drain-Keeps (suc fuel) (co ∷ queue) p q w once e =
      let taken : Process Value = record p { wakeup_coroutines = queue } in
      let next : Process Value = (resume body taken co true).0 in
      let k = resume-Keeps body behaves p taken co true (taken_woken p co queue w) refl once in
      Keeps-trans k (drain-Keeps fuel next.wakeup_coroutines next q refl k.once e)

  exit_loop-Keeps :
      (fuel : ℕ) (p q : Process Value) → Once p → exit_loop body fuel p ≡ some q → Keeps p q
  unfolding exit_loop
  exit_loop-Keeps zero p q once e = cc
  exit_loop-Keeps (suc fuel) p q once e =
      by_queue (interrupt p).wakeup_coroutines refl (λ r. exit_loop-Keeps fuel r q)
    where
      told : Keeps p (interrupt p)
      told = Same-Keeps once (interrupt-Same p)

      by_queue :
          (l : List ℕ)
          → (interrupt p).wakeup_coroutines ≡ l
          → ((r : Process Value) → Once r → exit_loop body fuel r ≡ some q → Keeps r q)
          → Keeps p q
      by_queue [] w again =
          let same : interrupt p ≡ q = ground (arith, w, e) in subst (Keeps p) same told
      by_queue (co ∷ queue) w again =
          elim (Option-cases (drain body fuel (interrupt p) (co ∷ queue))) [
            | inl n ↦ absurd (ground (arith, w, n, e))
            | inr (r, d) ↦
                let k = drain-Keeps fuel (co ∷ queue) (interrupt p) r w told.once d in
                let rest : exit_loop body fuel r ≡ some q = ground (arith, w, d, e) in
                Keeps-trans told (Keeps-trans k (again r k.once rest))
          ]

  pub exit-Keeps : (fuel : ℕ) (p q : Process Value) → Once p → exit body fuel p ≡ some q → Keeps p q
  unfolding exit
  exit-Keeps fuel p q once e = elim (Option-cases (exit_loop body fuel p)) [
    | inl n ↦ absurd (ground (arith, n, e))
    | inr (r, l) ↦
        let k = exit_loop-Keeps fuel p r once l in
        let a = Same-Keeps k.once (abandon_spawned-Same r) in
        let same : sweep_zombies (abandon_spawned r) ≡ q = ground (arith, l, e) in
        subst (Keeps p) same
          (Keeps-trans k (Keeps-trans a (sweep_zombies-Keeps (abandon_spawned r) a.once)))
  ]
