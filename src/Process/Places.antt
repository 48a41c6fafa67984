-- ===== src/Process/Places.antt =====
-- Where the coroutines of a process of src/process.cpp are: how often each stands in the queues, the
-- set and the map of `class Process`, and what the operations do to that.
use stp.Prelude.{
  ℕ, ◌+◌, ◌≤◌, ◌≡◌, refl, ap, ◌∙◌, true, List, [], ◌∷◌, ◌++◌, map, none, some, arith, one_if,
  occurs, occurs-append,
}
use stp.Dict
use stp.Dict.{find, assign}
use stp.Coroutine.{Exception, coroutine_exit}
use stp.Process.{
  Process, Action, spawns, wakes, closes, Stop, suspends, blocks, finishes, insert, erase, contains,
  throw_in, wakeup, interrupt_all, interrupt_block_coroutines, interrupt_suspend_coroutines,
  interrupt, act, act_all, stop, close_request,
}

abbrev pub waiters : List (ℕ × ℕ) → List ℕ
waiters m = map (λ b. b.1) m

occurs-erase :
    (c d : ℕ) (l : List ℕ) → contains c l ≡ true → occurs d l ≡ occurs d (erase c l) + one_if c d
unfolding contains erase
occurs-erase c d [] h = absurd (ground arith)
occurs-erase c d (x ∷ l) h = ground (arith, occurs-erase c d l)

occurs-insert :
    (c d : ℕ) (l : List ℕ) → occurs c l ≡ 0 → occurs d (insert c l) ≡ occurs d l + one_if c d
unfolding insert
occurs-insert c d [] h = omega arith
occurs-insert c d (x ∷ l) h = ground (arith, occurs-insert c d l)

waiters-erase :
    (s c d : ℕ) (m : List (ℕ × ℕ))
    → find s m ≡ some c
    → occurs d (waiters m) ≡ occurs d (waiters (Dict.erase s m)) + one_if c d
unfolding find Dict.erase
waiters-erase s c d [] h = absurd (ground arith)
waiters-erase s c d ((j, x) ∷ m) h = ground (arith, waiters-erase s c d m)

waiters-assign :
    (s c d : ℕ) (m : List (ℕ × ℕ))
    → find s m ≡ none
    → occurs d (waiters (assign s c m)) ≡ occurs d (waiters m) + one_if c d
unfolding find assign
waiters-assign s c d [] h = omega arith
waiters-assign s c d ((j, x) ∷ m) h = ground (arith, waiters-assign s c d m)

-- The coroutines that a list of actions spawns.
abbrev pub spawned : List Action → List ℕ
spawned [] = []
spawned (spawns c ∷ actions) = c ∷ spawned actions
spawned (wakes c ∷ actions) = spawned actions
spawned (closes source session ∷ actions) = spawned actions

spawned-cons :
    (c : ℕ) (a : Action) (actions : List Action)
    → occurs c (spawned (a ∷ actions)) ≡ occurs c (spawned (a ∷ [])) + occurs c (spawned actions)
spawned-cons c (spawns d) actions = omega arith
spawned-cons c (wakes d) actions = omega arith
spawned-cons c (closes source session) actions = omega arith

abbrev pub stopped : ℕ → Stop → ℕ → ℕ
stopped co suspends = one_if co
stopped co (blocks session) = one_if co
stopped co (finishes e) = λ c. 0

module _ {Value : Type 0} where
  -- How often a coroutine waits in a process, to be started, resumed, swept, woken or answered.
  unfoldable pub places : ℕ → Process Value → ℕ
  places c p =
      occurs c p.spawn_coroutines
      + occurs c p.wakeup_coroutines
      + occurs c p.zombie_coroutines
      + occurs c p.suspend_coroutines
      + occurs c (waiters p.block_sessions)

  -- The coroutines of `n` were added, and none was destroyed.
  pub record Adds (p q : Process Value) (n : ℕ → ℕ) : Type 0 where
    pub count : (c : ℕ) → places c q ≡ places c p + n c
    pub freed : q.destroyed ≡ p.destroyed

  abbrev pub Same : Process Value → Process Value → Type 0
  Same p q = Adds p q (λ c. 0)

  pub wakeup-Same : (p : Process Value) (co : ℕ) → Same p (wakeup p co)
  unfolding wakeup places
  wakeup-Same p co = record {
    count = λ c. ground (
      arith,
      occurs-erase co c p.suspend_coroutines,
      occurs-append c p.wakeup_coroutines (co ∷ []),
    );
    freed = ground arith;
  }

  interrupt_all-places :
      (cos : List ℕ) (p : Process Value) (e : Exception)
      → Adds p (interrupt_all p cos e) (λ c. occurs c cos)
        × ((interrupt_all p cos e).suspend_coroutines ≡ p.suspend_coroutines)
        × ((interrupt_all p cos e).block_sessions ≡ p.block_sessions)
  unfolding interrupt_all throw_in places
  interrupt_all-places [] p e = (record { count = λ c. omega arith; freed = refl }, refl, refl)
  interrupt_all-places (co ∷ cos) p e =
      let next : Process Value = record (throw_in p co e) {
        wakeup_coroutines = p.wakeup_coroutines ++ co ∷ [];
      } in
      let (rest, s, b) = interrupt_all-places cos next e in
      (
        record {
          count = λ c. omega (arith, rest.count c, occurs-append c p.wakeup_coroutines (co ∷ []));
          freed = rest.freed;
        },
        s,
        b,
      )

  interrupt_block_coroutines-Same :
      (p : Process Value) (e : Exception) → Same p (interrupt_block_coroutines p e)
  unfolding interrupt_block_coroutines places
  interrupt_block_coroutines-Same p e =
      let (told, s, b) = interrupt_all-places (waiters p.block_sessions) p e in
      record {
        count = λ c. omega (arith, told.count c, ap (λ m. occurs c (waiters m)) b);
        freed = told.freed;
      }

  interrupt_suspend_coroutines-Same :
      (p : Process Value) (e : Exception) → Same p (interrupt_suspend_coroutines p e)
  unfolding interrupt_suspend_coroutines places
  interrupt_suspend_coroutines-Same p e =
      let (told, s, b) = interrupt_all-places p.suspend_coroutines p e in
      record { count = λ c. omega (arith, told.count c, ap (occurs c) s); freed = told.freed }

  pub Adds-trans :
      {p q r : Process Value} {n m : ℕ → ℕ} → Adds p q n → Adds q r m → Adds p r (λ c. n c + m c)
  Adds-trans a b = record {
    count = λ c. omega (arith, a.count c, b.count c);
    freed = b.freed ∙ a.freed;
  }

  pub interrupt-Same : (p : Process Value) → Same p (interrupt p)
  unfolding interrupt
  interrupt-Same p = Adds-trans (interrupt_block_coroutines-Same p coroutine_exit) (
      interrupt_suspend_coroutines-Same (interrupt_block_coroutines p coroutine_exit)
        coroutine_exit)

  -- What the calls of a running coroutine leave as it was.
  pub record Acts (p q : Process Value) (actions : List Action) : Type 0 where
    pub adds : Adds p q (λ c. occurs c (spawned actions))
    pub suspended : (c : ℕ) → occurs c q.suspend_coroutines ≤ occurs c p.suspend_coroutines
    pub blocked : q.block_sessions ≡ p.block_sessions
    pub results : q.coroutines ≡ p.coroutines

  act-Acts : (p : Process Value) (a : Action) → Acts p (act p a) (a ∷ [])
  unfolding act close_request places wakeup
  act-Acts p (spawns c) = record {
    adds = record {
      count = λ d. omega (arith, occurs-append d p.spawn_coroutines (c ∷ []));
      freed = refl;
    };
    suspended = λ d. omega arith;
    blocked = refl;
    results = refl;
  }
  act-Acts p (wakes co) = record {
    adds = wakeup-Same p co;
    suspended = λ d. ground (arith, occurs-erase co d p.suspend_coroutines);
    blocked = ground arith;
    results = ground arith;
  }
  act-Acts p (closes source session) = record {
    adds = record { count = λ d. omega arith; freed = refl };
    suspended = λ d. omega arith;
    blocked = refl;
    results = refl;
  }

  pub act_all-Acts :
      (actions : List Action) (p : Process Value) → Acts p (act_all p actions) actions
  unfolding act_all
  act_all-Acts [] p = record {
    adds = record { count = λ d. omega arith; freed = refl };
    suspended = λ d. omega arith;
    blocked = refl;
    results = refl;
  }
  act_all-Acts (a ∷ actions) p =
      let one = act-Acts p a in
      let rest = act_all-Acts actions (act p a) in
      record {
        adds = record {
          count = λ d. omega (arith, one.adds.count d, rest.adds.count d, spawned-cons d a actions);
          freed = rest.adds.freed ∙ one.adds.freed;
        };
        suspended = λ d. omega (arith, one.suspended d, rest.suspended d);
        blocked = rest.blocked ∙ one.blocked;
        results = rest.results ∙ one.results;
      }

  -- A coroutine can stop so only if it waits for nothing else, and its session has no other waiter.
  abbrev pub CanStop : Process Value → ℕ → Stop → Type 0
  CanStop p co suspends = occurs co p.suspend_coroutines ≡ 0
  CanStop p co (blocks session) = find session p.block_sessions ≡ none
  CanStop p co (finishes e) = Unit

  pub stop-Adds :
      (p : Process Value) (co : ℕ) (st : Stop)
      → CanStop p co st
      → Adds p (stop p co st) (stopped co st)
  unfolding stop places throw_in
  stop-Adds p co suspends h = record {
    count = λ d. omega (arith, occurs-insert co d p.suspend_coroutines h);
    freed = refl;
  }
  stop-Adds p co (blocks session) h = record {
    count = λ d. omega (arith, waiters-assign session co d p.block_sessions h);
    freed = refl;
  }
  stop-Adds p co (finishes e) h = record { count = λ d. omega arith; freed = refl }

  pub unblock-places :
      (p : Process Value) (session co : ℕ)
      → find session p.block_sessions ≡ some co
      → (c : ℕ)
      → places c p
        ≡ places c (record p { block_sessions = Dict.erase session p.block_sessions }) + one_if co c
  unfolding places
  unblock-places p session co h c = omega (arith, waiters-erase session co c p.block_sessions h)
