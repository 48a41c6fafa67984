-- ===== src/Process/Caught.antt =====
-- A coroutine of src/process.cpp that catches the exception that it was told of and waits again.
use stp.Prelude.{
  ℕ, ◌≤◌, ◌≡◌, refl, sym, subst, Bool, List, [], ◌∷◌, ◌++◌, some, arith, occurs, occurs-append,
}
use stp.Coroutine.{
  Exception, coroutine_exit, process_exit, aborted_request, process_not_exist, other, Content,
  Result, get_value, Try, thrown,
}
use stp.Process.{
  Process, Action, Stop, suspends, set_result_of, insert, act_all, stop, settle, switch, resume,
  sweep_zombies,
}
use stp.Process.Interrupt.{exception_of}
use stp.Process.Conserve.{got_thrown}
use stp.Process.Places.{act_all-Acts}

insert-occurs : (c : ℕ) (l : List ℕ) → 1 ≤ occurs c (insert c l)
unfolding insert
insert-occurs c [] = ground arith
insert-occurs c (x ∷ l) = ground (arith, insert-occurs c l)

module _ {Value : Type 0} where
  -- In the set, and about to be swept.
  record Both (p : Process Value) (co : ℕ) : Type 0 where
    set : 1 ≤ occurs co p.suspend_coroutines
    zombies : 1 ≤ occurs co p.zombie_coroutines

  settle-Both :
      (p : Process Value) (co : ℕ) (exiting : Bool) (e : Exception)
      → 1 ≤ occurs co p.suspend_coroutines
      → Both (settle p co exiting (thrown e)).0 co
  unfolding settle
  settle-Both p co exiting e h = by_exception e
    where
      both : Both (record p { zombie_coroutines = p.zombie_coroutines ++ co ∷ [] }) co
      both = record {
        set = h;
        zombies = ground (arith, occurs-append co p.zombie_coroutines (co ∷ []));
      }

      by_exception : (e : Exception) → Both (settle p co exiting (thrown e)).0 co
      by_exception process_exit = both
      by_exception coroutine_exit = both
      by_exception aborted_request = both
      by_exception process_not_exist = both
      by_exception (other n) = both

module _ {Value : Type 0}
    (body : ℕ → Try (Content Value) → Process Value → List Action × Stop) where
  -- The switch to it leaves it in the set, with the exception.
  switch-caught :
      (p : Process Value) (co : ℕ) (e : Exception)
      → exception_of p co ≡ some e
      → (body co (thrown e) (set_result_of p co (p.coroutines co).result)).1 ≡ suspends
      → (1 ≤ occurs co (switch body p co).suspend_coroutines)
        × (exception_of (switch body p co) co ≡ some e)
  unfolding switch stop
  switch-caught p co e told catches =
      let r : Result Value = (p.coroutines co).result in
      let p' : Process Value = set_result_of p co r in
      let actions : List Action = (body co (thrown e) p').0 in
      let acts = act_all-Acts actions p' in
      let q : Process Value = act_all p' actions in
      let same : switch body p co ≡ stop q co suspends =
        rw (got_thrown r e told, catches, switch) refl in
      subst (λ s. (1 ≤ occurs co s.suspend_coroutines) × (exception_of s co ≡ some e)) (sym same)
        (insert-occurs co q.suspend_coroutines, rw acts.results (ground (arith, told)))

  -- A coroutine that is told of an exception, catches it and suspends again is taken for one that
  -- ended: when the zombies are swept it is destroyed, and still stands in the set of the suspended
  -- coroutines, from which `wakeup` would resume it.
  pub resume-caught :
      (p : Process Value) (co : ℕ) (exiting : Bool) (e : Exception)
      → exception_of p co ≡ some e
      → (body co (thrown e) (set_result_of p co (p.coroutines co).result)).1 ≡ suspends
      → (1 ≤ occurs co (sweep_zombies (resume body p co exiting).0).destroyed)
        × (1 ≤ occurs co (sweep_zombies (resume body p co exiting).0).suspend_coroutines)
  unfolding sweep_zombies resume
  resume-caught p co exiting e told catches =
      let (set, still) = switch-caught p co e told catches in
      let s : Process Value = switch body p co in
      let r : Result Value = (s.coroutines co).result in
      let both : Both (settle (set_result_of s co (get_value r).1) co exiting (get_value r).0).0
          co =
        subst (λ g. Both (settle (set_result_of s co g.1) co exiting g.0).0 co)
          (sym (got_thrown r e still)) (settle-Both (set_result_of s co r) co exiting e set) in
      let q : Process Value = (resume body p co exiting).0 in
      (omega (arith, both.zombies, occurs-append co q.destroyed q.zombie_coroutines), both.set)
