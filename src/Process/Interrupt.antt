-- ===== src/Process/Interrupt.antt =====
-- The first half of a round of `Process::exit` of src/process.cpp: the coroutines that wait are told
-- to exit and are woken.
use mathlib.Core.List.{append_assoc, append-nil}
use stp.Prelude.{
  ℕ, ◌≡◌, refl, sym, subst, ◌∙◌, ◌⊎◌, inl, inr, List, [], ◌∷◌, ◌++◌, map, Option, some, All,
  All-append, All-mono as All-map, arith,
}
use stp.Coroutine.{Exception, coroutine_exit, set_exception}
use stp.Process.{
  Process, throw_in, interrupt_all, interrupt_block_coroutines, interrupt_suspend_coroutines,
  interrupt,
}

module _ {Value : Type 0} where
  abbrev pub exception_of : Process Value → ℕ → Option Exception
  exception_of p co = (p.coroutines co).result.exception_ptr

  -- `q` is `p` with more coroutines that have to end, and other results.
  pub record Ended (p q : Process Value) (cos : List ℕ) : Type 0 where
    pub zombies : q.zombie_coroutines ≡ p.zombie_coroutines ++ cos
    pub spawned : q.spawn_coroutines ≡ p.spawn_coroutines
    pub suspended : q.suspend_coroutines ≡ p.suspend_coroutines
    pub blocked : q.block_sessions ≡ p.block_sessions
    pub freed : q.destroyed ≡ p.destroyed
    pub told :
        (c : ℕ) → exception_of p c ≡ some coroutine_exit → exception_of q c ≡ some coroutine_exit

  pub All-map_told :
      (p q : Process Value) (cos : List ℕ)
      → Ended p q cos
      → (queue : List ℕ) → All (λ c. exception_of p c ≡ some coroutine_exit) queue
      → All (λ c. exception_of q c ≡ some coroutine_exit) queue
  All-map_told p q cos ended queue h =
      All-map (λ c. exception_of p c ≡ some coroutine_exit)
        (λ c. exception_of q c ≡ some coroutine_exit) ended.told queue h

  pub Ended-taken :
      (p : Process Value) (queue : List ℕ) {q : Process Value} {cos : List ℕ}
      → Ended (record p { wakeup_coroutines = queue }) q cos
      → Ended p q cos
  Ended-taken p queue ended = record {
    zombies = ended.zombies;
    spawned = ended.spawned;
    suspended = ended.suspended;
    blocked = ended.blocked;
    freed = ended.freed;
    told = ended.told;
  }

  pub Ended-trans :
      {p q r : Process Value} {xs ys : List ℕ} → Ended p q xs → Ended q r ys → Ended p r (xs ++ ys)
  Ended-trans {p} {q} {r} {xs} {ys} a b = record {
    zombies = b.zombies ∙ rw a.zombies (append_assoc p.zombie_coroutines xs ys);
    spawned = b.spawned ∙ a.spawned;
    suspended = b.suspended ∙ a.suspended;
    blocked = b.blocked ∙ a.blocked;
    freed = b.freed ∙ a.freed;
    told = λ c h. b.told c (a.told c h);
  }

  throw_in-told :
      (p : Process Value) (co c : ℕ)
      → (exception_of p c ≡ some coroutine_exit) ⊎ (co ≡ c)
      → exception_of (throw_in p co coroutine_exit) c ≡ some coroutine_exit
  unfolding throw_in set_exception
  throw_in-told p co c h = ground arith

  -- The coroutines `cos` were told to exit and put into the queue, and nothing else changed.
  pub record Told (p q : Process Value) (cos : List ℕ) : Type 0 where
    pub woken : q.wakeup_coroutines ≡ p.wakeup_coroutines ++ cos
    pub all_told : All (λ c. exception_of q c ≡ some coroutine_exit) cos
    pub same : Ended p q []

  abbrev woken_up : Process Value → ℕ → Process Value
  woken_up p co = record (throw_in p co coroutine_exit) {
    wakeup_coroutines = p.wakeup_coroutines ++ co ∷ [];
  }

  woken_up-Ended : (p : Process Value) (co : ℕ) → Ended p (woken_up p co) []
  unfolding throw_in
  woken_up-Ended p co = record {
    zombies = sym (append-nil p.zombie_coroutines);
    spawned = refl;
    suspended = refl;
    blocked = refl;
    freed = refl;
    told = λ c h. throw_in-told p co c (inl h);
  }

  interrupt_all-Told :
      (cos : List ℕ) (p : Process Value) → Told p (interrupt_all p cos coroutine_exit) cos
  unfolding interrupt_all
  interrupt_all-Told [] p = record {
    woken = sym (append-nil p.wakeup_coroutines);
    all_told = tt;
    same = record {
      zombies = sym (append-nil p.zombie_coroutines);
      spawned = refl;
      suspended = refl;
      blocked = refl;
      freed = refl;
      told = λ c h. h;
    };
  }
  interrupt_all-Told (co ∷ cos) p =
      let rest = interrupt_all-Told cos (woken_up p co) in
      record {
        woken = rest.woken ∙ append_assoc p.wakeup_coroutines (co ∷ []) cos;
        all_told = (rest.same.told co (throw_in-told p co co (inr refl)), rest.all_told);
        same = Ended-trans (woken_up-Ended p co) rest.same;
      }

  -- All the coroutines that wait, in the order in which `exit` wakes them.
  abbrev pub waiting : Process Value → List ℕ
  waiting p = map (λ b. b.1) p.block_sessions ++ p.suspend_coroutines

  -- `q` is `p` with all the coroutines that waited told to exit and queued.
  pub record Interrupted (p q : Process Value) : Type 0 where
    pub queued : q.wakeup_coroutines ≡ waiting p
    pub all_told : All (λ c. exception_of q c ≡ some coroutine_exit) (waiting p)
    pub none_suspended : q.suspend_coroutines ≡ []
    pub none_blocked : q.block_sessions ≡ []
    pub zombies : q.zombie_coroutines ≡ p.zombie_coroutines
    pub spawned : q.spawn_coroutines ≡ p.spawn_coroutines
    pub freed : q.destroyed ≡ p.destroyed

  pub interrupt-Interrupted :
      (p : Process Value) → p.wakeup_coroutines ≡ [] → Interrupted p (interrupt p)
  unfolding interrupt interrupt_block_coroutines interrupt_suspend_coroutines
  interrupt-Interrupted p w = record {
    queued = suspends.woken ∙ ground (arith, blocks.woken, blocks.same.suspended);
    all_told =
        All-append (λ c. exception_of after c ≡ some coroutine_exit) cos p.suspend_coroutines
          (All-map_told between after [] suspends.same cos blocks.all_told)
          (subst (All (λ c. exception_of after c ≡ some coroutine_exit)) blocks.same.suspended
            suspends.all_told);
    none_suspended = refl;
    none_blocked = suspends.same.blocked;
    zombies = keeps suspends.same.zombies ∙ keeps blocks.same.zombies;
    spawned = suspends.same.spawned ∙ blocks.same.spawned;
    freed = suspends.same.freed ∙ blocks.same.freed;
  }
    where
      cos : List ℕ
      cos = map (λ b. b.1) p.block_sessions

      between : Process Value
      between = interrupt_block_coroutines p coroutine_exit

      after : Process Value
      after = interrupt_all between between.suspend_coroutines coroutine_exit

      blocks : Told p (interrupt_all p cos coroutine_exit) cos
      blocks = interrupt_all-Told cos p

      suspends : Told between after between.suspend_coroutines
      suspends = interrupt_all-Told between.suspend_coroutines between

      keeps : {xs ys : List ℕ} → xs ≡ ys ++ [] → xs ≡ ys
      keeps {ys} e = e ∙ append-nil ys
