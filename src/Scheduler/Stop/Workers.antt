-- ===== src/Scheduler/Stop/Workers.antt =====
-- Once the scheduler of src/process.cpp is stopped, every worker ends.
use stp.Prelude.{
  ℕ, zero, suc, ◌+◌, ◌-◌, ◌≤◌, ◌<◌, ◌≡◌, refl, sym, ap, inl, inr, true, false, List, [], ◌∷◌, ◌++◌,
  Option, none, some, arith, total, total-update, update, if◌then◌else◌, Bool-cases, ◌==◌, ==→eq,
  ◌∙◌, subst,
}
use stp.Wild.{AppendList}
use stp.Scheduler.{Scheduler, resume_locked, send_signal, take_refilled, take_from, take}
use stp.Scheduler.Stop.{
  Place, tests, locks, waits, runs, ended, Stopping, stop, System, tested, taken, Step, reads_stop,
  takes, goes_on, has_run, resumes, sends, stops, signals, Reach, start, later,
}

-- A worker that waits, or that may since it has read `_stop`.
abbrev may_wait : Place → ℕ
may_wait tests = 0
may_wait locks = 1
may_wait waits = 1
may_wait runs = 0
may_wait ended = 0

total-le : (n : ℕ) (f : ℕ → ℕ) → ((i : ℕ) → f i ≤ 1) → total n f ≤ n
unfolding total
total-le zero f h = omega arith
total-le (suc n) f h = omega (arith, total-le n f h, h n)

le-total : (n i : ℕ) (f : ℕ → ℕ) → i < n → f i ≤ total n f
unfolding total
le-total zero i f lt = absurd (omega arith)
le-total (suc n) i f lt = elim (Bool-cases (i == n)) [
  | inl e ↦ omega (arith, ap f (==→eq i n e))
  | inr e ↦ omega (arith, le-total n i f (ground (arith, lt, e)))
]

may_wait-le : (p : Place) → may_wait p ≤ 1
may_wait-le tests = omega arith
may_wait-le locks = omega arith
may_wait-le waits = omega arith
may_wait-le runs = omega arith
may_wait-le ended = omega arith

module _ {A : Type 0} (L : AppendList A) where
  signals-take : (s : Scheduler A L.Queue) → (take L s).1.signals ≡ s.signals
  unfolding take take_from take_refilled
  signals-take s = by_runq s.runq
    where
      by_refill :
          (r : Scheduler A L.Queue) (l : List A) → (take_refilled L r l).1.signals ≡ r.signals
      by_refill r [] = refl
      by_refill r (p ∷ rest) = refl

      by_runq : (l : List A) → (take_from L s l).1.signals ≡ s.signals
      by_runq [] = by_refill (record s { resumeq = (L.clear s.resumeq).1 }) (L.clear s.resumeq).0
      by_runq (p ∷ rest) = refl

  signals-resume_locked :
      (s : Scheduler A L.Queue) (p : A) → (resume_locked L s p).1.signals ≡ s.signals
  unfolding resume_locked
  signals-resume_locked s p = ground arith

abbrev pub first_of : List ℕ → Option ℕ
first_of [] = none
first_of (c ∷ codes) = some c

abbrev pub code_of : Stopping → Option ℕ
code_of s = if s.is_stopped then some s.exitcode else none

first_of-append :
    (codes : List ℕ) (c code : ℕ) → first_of codes ≡ some c → first_of (codes ++ code ∷ []) ≡ some c
first_of-append [] c code e = absurd (cc e)
first_of-append (x ∷ codes) c code e = e

first_of-none :
    (codes : List ℕ) (code : ℕ) → first_of codes ≡ none → first_of (codes ++ code ∷ []) ≡ some code
first_of-none [] code e = refl
first_of-none (x ∷ codes) code e = absurd (cc e)

code_of-stopped : (s : Stopping) → s.is_stopped ≡ true → code_of s ≡ some s.exitcode
code_of-stopped s e = ground (arith, e)

stop_again : (n code : ℕ) (s : Stopping) → s.stop_fired ≡ true → stop n code s ≡ s
unfolding stop
stop_again n code s e =
    ap
      (λ b.
        if b
        then s
        else record { stop_fired = true; is_stopped = true; exitcode = code; to_send = n })
      e

stop_first :
    (n code : ℕ) (s : Stopping)
    → s.stop_fired ≡ false
    → stop n code s ≡ record { stop_fired = true; is_stopped = true; exitcode = code; to_send = n }
unfolding stop
stop_first n code s e = rw e refl

module _ {A : Type 0} (L : AppendList A) (n : ℕ) where
  abbrev waiting : (ℕ → Place) → ℕ
  waiting place = total n (λ i. may_wait (place i))

  record Inv (s : System L n) : Type 0 where
    same : s.stopping.stop_fired ≡ s.stopping.is_stopped
    enough :
        s.stopping.is_stopped ≡ true → waiting s.place ≤ s.scheduler.signals + s.stopping.to_send
    first : first_of s.codes ≡ code_of s.stopping

  -- A worker goes to a place where it may wait no more than before.
  place-Inv :
      {s : System L n} (i : ℕ) (p : Place) (sched : Scheduler A L.Queue)
      → i < n
      → Inv s
      → (s.stopping.is_stopped ≡ true
          → s.scheduler.signals + may_wait p ≤ sched.signals + may_wait (s.place i))
      → Inv (record s { scheduler = sched; place = update s.place i p })
  place-Inv {s} i p sched lt inv h = record {
    same = inv.same;
    enough = λ e. omega (arith, inv.enough e, h e, total-update n i may_wait s.place p lt);
    first = inv.first;
  }

  tested-Inv :
      {s : System L n} (i : ℕ)
      → i < n
      → s.place i ≡ tests
      → Inv s
      → Inv (record s { place = update s.place i (tested L n s.stopping.is_stopped) })
  tested-Inv {s} i lt at inv =
      place-Inv i (tested L n s.stopping.is_stopped) s.scheduler lt inv
        (λ e. rw (e, tested) (omega (arith, ap may_wait at)))

  may_wait-taken : (o : Option A) → may_wait (taken L n o) ≤ 1
  may_wait-taken none = omega arith
  may_wait-taken (some p) = omega arith

  stop-Inv :
      {s : System L n} (code : ℕ)
      → Inv s
      → Inv (record s { stopping = stop n code s.stopping; codes = s.codes ++ code ∷ [] })
  stop-Inv {s} code inv = elim (Bool-cases s.stopping.stop_fired) [
    | inl e ↦
        subst (λ x. Inv (record s { stopping = x; codes = s.codes ++ code ∷ [] }))
          (sym (stop_again n code s.stopping e))
          (record {
            same = inv.same;
            enough = inv.enough;
            first =
                first_of-append s.codes s.stopping.exitcode code
                  (inv.first ∙ code_of-stopped s.stopping (sym inv.same ∙ e))
                ∙ sym (code_of-stopped s.stopping (sym inv.same ∙ e));
          })
    | inr e ↦
        subst (λ x. Inv (record s { stopping = x; codes = s.codes ++ code ∷ [] }))
          (sym (stop_first n code s.stopping e))
          (record {
            same = refl;
            enough = λ x.
                omega
                  (arith, total-le n (λ i. may_wait (s.place i)) (λ i. may_wait-le (s.place i)));
            first = first_of-none s.codes code (ground (arith, inv.first, inv.same, e));
          })
  ]

  Step-Inv : {s t : System L n} → Step L n s t → Inv s → Inv t
  unfolding send_signal
  Step-Inv {s} (reads_stop i lt at) inv = tested-Inv i lt at inv
  Step-Inv {s} (takes i lt at) inv =
      place-Inv i (taken L n (take L s.scheduler).0) (take L s.scheduler).1 lt inv (λ e.
        omega (
          arith,
          signals-take L s.scheduler,
          may_wait-taken (take L s.scheduler).0,
          ap may_wait at,
        ))
  Step-Inv {s} (goes_on i lt at some_signal) inv =
      place-Inv i tests (record s.scheduler { signals = s.scheduler.signals - 1 }) lt inv
        (λ e. omega (arith, some_signal, ap may_wait at))
  Step-Inv {s} (has_run i lt at) inv = place-Inv i tests s.scheduler lt inv (λ e. omega arith)
  Step-Inv {s} (resumes p) inv = record {
    same = inv.same;
    enough = λ e. omega (arith, inv.enough e, signals-resume_locked L s.scheduler p);
    first = inv.first;
  }
  Step-Inv {s} (sends h) inv = record {
    same = inv.same;
    enough = λ e. omega (arith, inv.enough e);
    first = inv.first;
  }
  Step-Inv {s} (stops code) inv = stop-Inv code inv
  Step-Inv {s} (signals k left) inv = record {
    same = inv.same;
    enough = λ e. omega (arith, inv.enough e, left);
    first = inv.first;
  }

  Reach-Inv : {s : System L n} → Reach L n s → Inv s
  Reach-Inv start = record { same = refl; enough = λ e. absurd (cc e); first = refl }
  Reach-Inv (later r step) = Step-Inv step (Reach-Inv r)

  -- Once `stop` has sent its signals, a worker that waits has a signal to go on with.
  pub Reach-signalled :
      {s : System L n} (i : ℕ)
      → Reach L n s
      → s.stopping.is_stopped ≡ true
      → s.stopping.to_send ≡ 0
      → i < n
      → s.place i ≡ waits
      → 0 < s.scheduler.signals
  Reach-signalled {s} i r stopped sent lt at = omega (
    arith,
    (Reach-Inv r).enough stopped,
    sent,
    le-total n i (λ j. may_wait (s.place j)) lt,
    ap may_wait at,
  )

  -- The exit code is that of the first call of `stop`, whatever calls follow.
  pub Reach-exitcode : {s : System L n} → Reach L n s → first_of s.codes ≡ code_of s.stopping
  Reach-exitcode r = (Reach-Inv r).first
