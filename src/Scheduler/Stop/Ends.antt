-- ===== src/Scheduler/Stop/Ends.antt =====
-- The workers of src/process.cpp can all end once the scheduler is stopped.
use stp.Prelude.{
  ℕ, zero, suc, ◌+◌, ◌-◌, ◌≤◌, ◌<◌, ◌≡◌, refl, ap, ◌∙◌, inl, inr, true, false, arith, ◌==◌, ==_refl,
  update, Option-cases,
}
use stp.Wild.{AppendList}
use stp.Scheduler.{Scheduler, take}
use stp.Scheduler.Stop.{
  Place, tests, locks, waits, runs, ended, System, tested, taken, Step, reads_stop, takes, goes_on,
  has_run, resumes, sends, stops, signals, Reach, later, Steps, done, first,
}
use stp.Scheduler.Stop.Workers.{Reach-signalled}

-- The first `n` workers have ended.
abbrev pub AllEnded : ℕ → (ℕ → Place) → Type 0
AllEnded zero place = Unit
AllEnded (suc n) place = AllEnded n place × (place n ≡ ended)

AllEnded-other :
    (k : ℕ) (place after : ℕ → Place)
    → ((j : ℕ) → j < k → after j ≡ place j)
    → AllEnded k place
    → AllEnded k after
AllEnded-other zero place after same e = tt
AllEnded-other (suc k) place after same (es, e) =
    (AllEnded-other k place after (λ j lt. same j (omega (arith, lt))) es, same k (omega arith) ∙ e)

module _ {A : Type 0} (L : AppendList A) (n : ℕ) where
  abbrev other_step : {s t : System L n} → Step L n s t → ℕ
  other_step (reads_stop i lt at) = 0
  other_step (takes i lt at) = 0
  other_step (goes_on i lt at h) = 0
  other_step (has_run i lt at) = 0
  other_step (resumes p) = 1
  other_step (sends h) = 1
  other_step (stops code) = 1
  other_step (signals k left) = 1

  -- How many steps of a run are not those of workers.
  abbrev pub other_steps : {s t : System L n} → Steps L n s t → ℕ
  other_steps done = 0
  other_steps (first step run) = other_step step + other_steps run

  -- A run of steps of one worker up to its end.
  record Ends (s : System L n) (i : ℕ) : Type 0 where
    after : System L n
    run : Steps L n s after
    alone : other_steps run ≡ 0
    reached : Reach L n after
    here : after.place i ≡ ended
    others : (j : ℕ) → (i == j) ≡ false → after.place j ≡ s.place j
    stopping : after.stopping ≡ s.stopping

  moves : System L n → Scheduler A L.Queue → ℕ → Place → System L n
  moves s sched i p = record s { scheduler = sched; place = update s.place i p }

  -- A step of this worker, and the rest.
  step-Ends :
      (s : System L n) (sched : Scheduler A L.Queue) (i : ℕ) (p : Place)
      → (step : Step L n s (moves s sched i p)) → other_step step ≡ 0
      → Ends (moves s sched i p) i
      → Ends s i
  unfolding moves
  step-Ends s sched i p step own e = record {
    after = e.after;
    run = first step e.run;
    alone = omega (arith, own, e.alone);
    reached = e.reached;
    here = e.here;
    others = λ j ne. e.others j ne ∙ rw ne refl;
    stopping = e.stopping;
  }

  moved :
      (s : System L n) (sched : Scheduler A L.Queue) (i : ℕ) (p : Place)
      → (moves s sched i p).place i ≡ p
  unfolding moves
  moved s sched i p = rw (==_refl i) refl

  module _ (i : ℕ) (lt : i < n) where
    tests-Ends :
        (s : System L n) → Reach L n s → s.stopping.is_stopped ≡ true → s.place i ≡ tests → Ends s i
    unfolding moves
    tests-Ends s r stopped at =
        let step = reads_stop i lt at in
        record {
          after = moves s s.scheduler i (tested L n s.stopping.is_stopped);
          run = first step done;
          alone = refl;
          reached = later r step;
          here = moved s s.scheduler i (tested L n s.stopping.is_stopped) ∙ ap (tested L n) stopped;
          others = λ j ne. rw ne refl;
          stopping = refl;
        }

    waits-Ends :
        (s : System L n)
        → Reach L n s
        → s.stopping.is_stopped ≡ true
        → s.stopping.to_send ≡ 0
        → s.place i ≡ waits
        → Ends s i
    unfolding moves
    waits-Ends s r stopped sent at =
        let sched : Scheduler A L.Queue = record s.scheduler {
          signals = s.scheduler.signals - 1;
        } in
        let step : Step L n s (moves s sched i tests) =
          goes_on i lt at (Reach-signalled L n i r stopped sent lt at) in
        step-Ends s sched i tests step refl
          (tests-Ends (moves s sched i tests) (later r step) stopped (moved s sched i tests))

    runs-Ends :
        (s : System L n) → Reach L n s → s.stopping.is_stopped ≡ true → s.place i ≡ runs → Ends s i
    unfolding moves
    runs-Ends s r stopped at =
        let step : Step L n s (moves s s.scheduler i tests) = has_run i lt at in
        step-Ends s s.scheduler i tests step refl (
          tests-Ends (moves s s.scheduler i tests) (later r step) stopped
            (moved s s.scheduler i tests))

    locks-Ends :
        (s : System L n)
        → Reach L n s
        → s.stopping.is_stopped ≡ true
        → s.stopping.to_send ≡ 0
        → s.place i ≡ locks
        → Ends s i
    unfolding moves
    locks-Ends s r stopped sent at =
        let sched : Scheduler A L.Queue = (take L s.scheduler).1 in
        let p : Place = taken L n (take L s.scheduler).0 in
        let step : Step L n s (moves s sched i p) = takes i lt at in
        step-Ends s sched i p step refl (elim (Option-cases (take L s.scheduler).0) [
          | inl e ↦
              waits-Ends (moves s sched i p) (later r step) stopped sent
                (moved s sched i p ∙ ap (taken L n) e)
          | inr (a, e) ↦
              runs-Ends (moves s sched i p) (later r step) stopped
                (moved s sched i p ∙ ap (taken L n) e)
        ])

    worker-Ends :
        (s : System L n)
        → Reach L n s
        → s.stopping.is_stopped ≡ true
        → s.stopping.to_send ≡ 0
        → Ends s i
    worker-Ends s r stopped sent = at (s.place i) refl
      where
        at : (p : Place) → s.place i ≡ p → Ends s i
        at tests e = tests-Ends s r stopped e
        at locks e = locks-Ends s r stopped sent e
        at waits e = waits-Ends s r stopped sent e
        at runs e = runs-Ends s r stopped e
        at ended e = record {
          after = s;
          run = done;
          alone = refl;
          reached = r;
          here = e;
          others = λ j ne. refl;
          stopping = refl;
        }

  append_steps : {s t u : System L n} → Steps L n s t → Steps L n t u → Steps L n s u
  append_steps done run = run
  append_steps (first step rest) run = first step (append_steps rest run)

  other_steps-append_steps :
      {s t u : System L n} (run : Steps L n s t) (rest : Steps L n t u)
      → other_steps run ≡ 0
      → other_steps rest ≡ 0
      → other_steps (append_steps run rest) ≡ 0
  unfolding append_steps
  other_steps-append_steps done rest e f = f
  other_steps-append_steps (first step run) rest e f =
      omega (arith, e, other_steps-append_steps run rest (omega (arith, e)) f)

  first-AllEnded :
      (k : ℕ) (s : System L n)
      → k ≤ n
      → Reach L n s
      → s.stopping.is_stopped ≡ true
      → s.stopping.to_send ≡ 0
      → (t : System L n) × (run : Steps L n s t) × (other_steps run ≡ 0)
        × Reach L n t
        × AllEnded k t.place
        × (t.stopping ≡ s.stopping)
  first-AllEnded zero s le r stopped sent = (s, done, refl, r, tt, refl)
  first-AllEnded (suc k) s le r stopped sent =
      let (t, run, alone, reached, es, same) =
        first-AllEnded k s (omega (arith, le)) r stopped sent in
      let e : Ends t k =
        worker-Ends k (omega (arith, le)) t reached (rw same stopped) (rw same sent) in
      (
        e.after,
        append_steps run e.run,
        other_steps-append_steps run e.run alone e.alone,
        e.reached,
        (
          AllEnded-other k t.place e.after.place (λ j lt. e.others j (ground (arith, lt))) es,
          e.here,
        ),
        e.stopping ∙ same,
      )

  -- From every reachable state in which `stop` has sent its signals there is a run of the workers alone
  -- in which all of them end: each that waits has a signal to go on with, reads `_stop` and leaves its loop.
  pub Reach-AllEnded :
      {s : System L n}
      → Reach L n s
      → s.stopping.is_stopped ≡ true
      → s.stopping.to_send ≡ 0
      → (t : System L n) × (run : Steps L n s t) × (other_steps run ≡ 0) × AllEnded n t.place
  Reach-AllEnded {s} r stopped sent =
      let (t, run, alone, reached, es, same) = first-AllEnded n s (omega arith) r stopped sent in
      (t, run, alone, es)
