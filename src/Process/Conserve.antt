-- ===== src/Process/Conserve.antt =====
-- `Process::resume(co)` of src/process.cpp: no coroutine is lost, and none is in two places.
use stp.Prelude.{
  ℕ, ◌+◌, ◌≤◌, ◌≡◌, refl, sym, ap, subst, inl, inr, Bool, List, [], ◌∷◌, ◌++◌, none, some, arith,
  one_if, occurs, occurs-append, Option-cases,
}
use stp.Dict.{find}
use stp.Coroutine.{
  empty, Exception, coroutine_exit, process_exit, aborted_request, process_not_exist, other,
  Content, Result, get_value, set_exception, Try, returned, thrown,
}
use stp.Process.{
  Process, Action, Stop, suspends, blocks, finishes, set_result_of, throw_in, act_all, stop, settle,
  switch, resume,
}
use stp.Process.Interrupt.{exception_of}
use stp.Process.Places.{places, Adds, Same, Adds-trans, spawned, act_all-Acts, stop-Adds}

-- No coroutine is in two places.
abbrev pub Once : {Value : Type 0} → Process Value → Type 0
Once p = (c : ℕ) → places c p ≤ 1

-- From `p` to `q` no coroutine was lost, and none is in two places.
pub record Keeps {Value : Type 0} (p q : Process Value) : Type 0 where
  pub kept : (c : ℕ) → places c p + occurs c p.destroyed ≤ places c q + occurs c q.destroyed
  pub once : Once q

module _ {Value : Type 0} where
  pub Keeps-refl : (p : Process Value) → Once p → Keeps p p
  Keeps-refl p h = record { kept = λ c. omega arith; once = h }

  pub Keeps-trans : {p q r : Process Value} → Keeps p q → Keeps q r → Keeps p r
  Keeps-trans a b = record { kept = λ c. omega (arith, a.kept c, b.kept c); once = b.once }

  pub Same-Keeps : {p q : Process Value} → Once p → Same p q → Keeps p q
  Same-Keeps h s = record {
    kept = λ c. omega (arith, s.count c, ap (occurs c) s.freed);
    once = λ c. omega (arith, s.count c, h c);
  }

  set_result_of-Same :
      (p : Process Value) (co : ℕ) (r : Result Value) → Same p (set_result_of p co r)
  unfolding places
  set_result_of-Same p co r = record { count = λ c. omega arith; freed = refl }

  settle-thrown :
      (p : Process Value) (co : ℕ) (exiting : Bool) (e : Exception)
      → Adds p (settle p co exiting (thrown e)).0 (one_if co)
  unfolding settle places
  settle-thrown p co exiting e = by_exception e
    where
      zombies : Adds p (record p { zombie_coroutines = p.zombie_coroutines ++ co ∷ [] }) (one_if co)
      zombies = record {
        count = λ c. omega (arith, occurs-append c p.zombie_coroutines (co ∷ []));
        freed = refl;
      }

      by_exception : (e : Exception) → Adds p (settle p co exiting (thrown e)).0 (one_if co)
      by_exception process_exit = zombies
      by_exception coroutine_exit = zombies
      by_exception aborted_request = zombies
      by_exception process_not_exist = zombies
      by_exception (other n) = zombies

  -- What `resume` does once the coroutine has stopped.
  abbrev finish : Process Value → ℕ → Bool → Process Value
  finish q co exiting =
      (settle (set_result_of q co (get_value (q.coroutines co).result).1) co exiting
        (get_value (q.coroutines co).result).0).0

  Adds-ext : {p q : Process Value} {n m : ℕ → ℕ} → ((c : ℕ) → n c ≡ m c) → Adds p q n → Adds p q m
  Adds-ext same a = record { count = λ c. omega (arith, a.count c, same c); freed = a.freed }

  pub got_thrown :
      (r : Result Value) (e : Exception) → r.exception_ptr ≡ some e → get_value r ≡ (thrown e, r)
  unfolding get_value
  got_thrown r e h = ground arith

  got_returned :
      (r : Result Value)
      → r.exception_ptr ≡ none
      → get_value r ≡ (returned r.value, record r { value = empty })
  unfolding get_value
  got_returned r h = ground arith

  finish-ended :
      (q : Process Value) (co : ℕ) (exiting : Bool) (e : Exception)
      → exception_of q co ≡ some e
      → Adds q (finish q co exiting) (one_if co)
  finish-ended q co exiting e h =
      let r : Result Value = (q.coroutines co).result in
      subst (λ g. Adds q (settle (set_result_of q co g.1) co exiting g.0).0 (one_if co))
        (sym (got_thrown r e h))
        (Adds-ext (λ c. omega arith)
          (Adds-trans (set_result_of-Same q co r)
            (settle-thrown (set_result_of q co r) co exiting e)))

  finish-waiting :
      (q : Process Value) (co : ℕ) (exiting : Bool)
      → exception_of q co ≡ none
      → Same q (finish q co exiting)
  unfolding settle
  finish-waiting q co exiting h =
      let r : Result Value = (q.coroutines co).result in
      subst (λ g. Same q (settle (set_result_of q co g.1) co exiting g.0).0)
        (sym (got_returned r h)) (set_result_of-Same q co (record r { value = empty }))

  -- A coroutine that was told of an exception ends.
  abbrev EndsTold : Process Value → ℕ → Stop → Type 0
  EndsTold p co suspends = exception_of p co ≡ none
  EndsTold p co (blocks session) =
      (exception_of p co ≡ none) × (find session p.block_sessions ≡ none)
  EndsTold p co (finishes e) = Unit

  not_suspended :
      (p : Process Value) (co : ℕ) → places co p ≡ 0 → occurs co p.suspend_coroutines ≡ 0
  unfolding places
  not_suspended p co h = omega arith

  -- A running coroutine makes its calls and stops: it is in one place again, beside the coroutines
  -- that it spawned.
  stopped-Adds :
      (p : Process Value) (co : ℕ) (exiting : Bool) (actions : List Action) (st : Stop)
      → places co p ≡ 0
      → EndsTold p co st
      → Adds p
          (finish (stop (act_all p actions) co st) co exiting)
          (λ c. one_if co c + occurs c (spawned actions))
  unfolding stop throw_in set_exception
  stopped-Adds p co exiting actions suspends gone h =
      let acts = act_all-Acts actions p in
      let q : Process Value = act_all p actions in
      let ok : occurs co q.suspend_coroutines ≡ 0 =
        omega (arith, acts.suspended co, not_suspended p co gone) in
      Adds-ext (λ c. omega arith)
        (Adds-trans acts.adds (
          Adds-trans (stop-Adds q co suspends ok)
            (finish-waiting (stop q co suspends) co exiting (rw acts.results h))))
  stopped-Adds p co exiting actions (blocks session) gone (h, free) =
      let acts = act_all-Acts actions p in
      let q : Process Value = act_all p actions in
      Adds-ext (λ c. omega arith)
        (Adds-trans acts.adds (
          Adds-trans (stop-Adds q co (blocks session) (rw acts.blocked free))
            (finish-waiting (stop q co (blocks session)) co exiting (rw acts.results h))))
  stopped-Adds p co exiting actions (finishes e) gone h =
      let acts = act_all-Acts actions p in
      let q : Process Value = act_all p actions in
      Adds-ext (λ c. omega arith)
        (Adds-trans acts.adds (
          Adds-trans (stop-Adds q co (finishes e) tt)
            (finish-ended (stop q co (finishes e)) co exiting e (ground arith))))

-- What the code of the coroutines has to do: a coroutine that is told of an exception ends; one that
-- blocks does so on a session that nobody waits for; one that is spawned is new.
pub record Behaves {Value : Type 0}
    (body : ℕ → Try (Content Value) → Process Value → List Action × Stop) : Type 0 where
  pub ends :
      (co : ℕ) (e : Exception) (p : Process Value)
      → (x : Exception) × ((body co (thrown e) p).1 ≡ finishes x)
  pub sessions :
      (co session : ℕ) (got : Try (Content Value)) (p : Process Value)
      → (body co got p).1 ≡ blocks session
      → find session p.block_sessions ≡ none
  pub news :
      (co c : ℕ) (got : Try (Content Value)) (p : Process Value)
      → places c p + one_if co c ≤ 1
      → places c p + one_if co c + occurs c (spawned (body co got p).0) ≤ 1

module _ {Value : Type 0} (body : ℕ → Try (Content Value) → Process Value → List Action × Stop)
    (behaves : Behaves body) where
  ends :
      (p : Process Value) (co : ℕ)
      → EndsTold
          (set_result_of p co (get_value (p.coroutines co).result).1)
          co
          (body co
            (get_value (p.coroutines co).result).0
            (set_result_of p co (get_value (p.coroutines co).result).1)).1
  ends p co = elim (Option-cases (exception_of p co)) [
    | inl e ↦
        let r : Result Value = (p.coroutines co).result in
        let p' : Process Value = set_result_of p co (record r { value = empty }) in
        subst (λ g. EndsTold (set_result_of p co g.1) co (body co g.0 (set_result_of p co g.1)).1)
          (sym (got_returned r e))
          (by_stop (returned r.value) p' (body co (returned r.value) p').1 refl (ground (arith, e)))
    | inr (x, e) ↦
        let r : Result Value = (p.coroutines co).result in
        subst (λ g. EndsTold (set_result_of p co g.1) co (body co g.0 (set_result_of p co g.1)).1)
          (sym (got_thrown r x e)) (rw (behaves.ends co x (set_result_of p co r)).1 tt)
  ]
    where
      by_stop :
          (got : Try (Content Value)) (p' : Process Value) (st : Stop)
          → (body co got p').1 ≡ st
          → exception_of p' co ≡ none
          → EndsTold p' co st
      by_stop got p' suspends e h = h
      by_stop got p' (blocks session) e h = (h, behaves.sessions co session got p' e)
      by_stop got p' (finishes x) e h = tt

  pub resume-Adds :
      (p : Process Value) (co : ℕ) (exiting : Bool)
      → places co p ≡ 0
      → Adds p (resume body p co exiting).0 (λ c.
        one_if co c
        + occurs c (
            spawned
              (body co
                (get_value (p.coroutines co).result).0
                (set_result_of p co (get_value (p.coroutines co).result).1)).0))
  unfolding resume switch
  resume-Adds p co exiting gone =
      let r : Result Value = (get_value (p.coroutines co).result).1 in
      let got : Try (Content Value) = (get_value (p.coroutines co).result).0 in
      let p' : Process Value = set_result_of p co r in
      let same = set_result_of-Same p co r in
      Adds-ext (λ c. omega arith)
        (Adds-trans same (
          stopped-Adds p' co exiting (body co got p').0 (body co got p').1
            (omega (arith, same.count co)) (ends p co)))

  -- A coroutine that was taken out of its place and resumed.
  pub resume-Keeps :
      (p taken : Process Value) (co : ℕ) (exiting : Bool)
      → ((c : ℕ) → places c p ≡ places c taken + one_if co c)
      → taken.destroyed ≡ p.destroyed
      → Once p
      → Keeps p (resume body taken co exiting).0
  resume-Keeps p taken co exiting took freed once =
      let r : Result Value = (get_value (taken.coroutines co).result).1 in
      let got : Try (Content Value) = (get_value (taken.coroutines co).result).0 in
      let p' : Process Value = set_result_of taken co r in
      let same = set_result_of-Same taken co r in
      let adds = resume-Adds taken co exiting (ground (arith, took co, once co)) in
      record {
        kept =
            λ c. omega (arith, adds.count c, took c, ap (occurs c) adds.freed, ap (occurs c) freed);
        once = λ c.
            omega (arith, adds.count c, took c, once c, same.count c, behaves.news co c got p');
      }
