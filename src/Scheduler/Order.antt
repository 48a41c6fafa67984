-- ===== src/Scheduler/Order.antt =====
-- Workers and callers of `resume` of `class Scheduler` of src/process.cpp, interleaved.
--
-- A step is a section under the locks, a signal that a caller of `resume` sends after its section, or
-- one that a waiting worker receives.
use mathlib.Core.List.{append_assoc, append-nil}
use stp.Prelude.{
  ℕ, zero, suc, ◌+◌, ◌-◌, ◌<◌, ◌≤◌, ◌≡◌, ◌≢◌, refl, sym, ap, ◌∙◌, ◌⊎◌, inl, inr, Bool, true, false,
  List, [], ◌∷◌, ◌++◌, Option, none, some, arith, ◌==◌, if◌then◌else◌,
}
use stp.Wild.{AppendList}
use stp.Scheduler.{
  Scheduler, new_scheduler, resume_locked, one_if_sends, send_signal, take, take_from,
  take_refilled,
}

pub record Workers (A Queue : Type 0) : Type 0 where
  pub scheduler : Scheduler A Queue
  -- the workers in `_signaler.wait`
  pub waiting : ℕ
  -- the callers of `resume` that have left the lock and have yet to send a signal
  pub sending : ℕ
  -- all that was resumed and all that was taken, in order
  pub resumed : List A
  pub taken : List A

signal_or_awake : (w i s n : ℕ) → 0 < n → w ≡ i + s → (i ≡ 0) ⊎ (0 < s) → (w < n) ⊎ (0 < s)
signal_or_awake w i zero n pos e (inl h) = inl (omega arith)
signal_or_awake w i (suc s) n pos e (inl h) = inr (omega arith)
signal_or_awake w i s n pos e (inr h) = inr h

signal_or_sender : (a b : ℕ) → 0 < a + b → (0 < a) ⊎ (0 < b)
signal_or_sender zero b h = inr (omega (arith, h))
signal_or_sender (suc a) b h = inl (omega arith)

module _ {A : Type 0} (L : AppendList A) (n : ℕ) where
  abbrev pub Sys : Type 0
  Sys = Workers A L.Queue

  abbrev pub init : Sys
  init = record { scheduler = new_scheduler L; waiting = 0; sending = 0; resumed = []; taken = [] }

  abbrev pub pending : Scheduler A L.Queue → List A
  pending s = s.runq ++ L.contents s.resumeq

  -- `n` is the number of workers.
  pub data Step (s : Sys) : Sys → Type 0 where
    resumes :
        (p : A)
        → Step s (record s {
          scheduler = (resume_locked L s.scheduler p).1;
          sending = s.sending + one_if_sends (resume_locked L s.scheduler p).0;
          resumed = s.resumed ++ p ∷ [];
        })
    sends :
        0 < s.sending
        → Step s (record s { scheduler = send_signal L s.scheduler; sending = s.sending - 1 })
    takes :
        (p : A)
        → s.waiting < n
        → (take L s.scheduler).0 ≡ some p
        → Step s (record s { scheduler = (take L s.scheduler).1; taken = s.taken ++ p ∷ [] })
    waits :
        s.waiting < n
        → (take L s.scheduler).0 ≡ none
        → Step s (record s { scheduler = (take L s.scheduler).1; waiting = s.waiting + 1 })
    wakes :
        0 < s.waiting
        → 0 < s.scheduler.signals
        → Step s (record s {
          scheduler = record s.scheduler { signals = s.scheduler.signals - 1 };
          waiting = s.waiting - 1;
        })

  pub data Reach : Sys → Type 0 where
    start : Reach init
    later : {s t : Sys} → Reach s → Step s t → Reach t

  -- What a round of a worker does.
  abbrev Takes : Scheduler A L.Queue → Option A → Scheduler A L.Queue → Type 0
  Takes s none t =
      (pending s ≡ []) × (pending t ≡ []) × (t.idle ≡ s.idle + 1) × (t.signals ≡ s.signals)
  Takes s (some p) t = (pending s ≡ p ∷ pending t) × (t.idle ≡ s.idle) × (t.signals ≡ s.signals)

  take-Takes : (s : Scheduler A L.Queue) → Takes s (take L s).0 (take L s).1
  unfolding take take_from take_refilled
  take-Takes s = from s.runq refl
    where
      refilled :
          (l : List A)
          → (L.clear s.resumeq).0 ≡ l
          → s.runq ≡ []
          → Takes s
              (take_refilled L (record s { resumeq = (L.clear s.resumeq).1 }) l).0
              (take_refilled L (record s { resumeq = (L.clear s.resumeq).1 }) l).1
      refilled [] e r = (rw (r, ← L.clear_all s.resumeq) e, L.contents-clear s.resumeq, refl, refl)
      refilled (a ∷ l) e r = (
        rw (r, ← L.clear_all s.resumeq, L.contents-clear s.resumeq) (e ∙ rw (append-nil l)),
        refl,
        refl,
      )

      from : (l : List A) → s.runq ≡ l → Takes s (take_from L s l).0 (take_from L s l).1
      from [] e = refilled (L.clear s.resumeq).0 refl e
      from (a ∷ l) e = (rw e, refl, refl)

  -- A resumed process is behind those that wait, and a waiting worker that has no signal will get one.
  record Resumes (s : Scheduler A L.Queue) (p : A) (r : Bool × Scheduler A L.Queue) : Type 0 where
    order : pending r.1 ≡ pending s ++ p ∷ []
    sum : r.1.idle + one_if_sends r.0 ≡ s.idle
    same : r.1.signals ≡ s.signals
    signalled : (r.1.idle ≡ 0) ⊎ (0 < one_if_sends r.0)

  resume-Resumes : (s : Scheduler A L.Queue) (p : A) → Resumes s p (resume_locked L s p)
  unfolding resume_locked
  resume-Resumes s p = by_idle (s.idle == 0) refl
    where
      order_lem : s.runq ++ L.contents (L.push s.resumeq p) ≡ pending s ++ p ∷ []
      order_lem =
          rw (L.contents-push s.resumeq p)
            (sym (append_assoc s.runq (L.contents s.resumeq) (p ∷ [])))

      by_idle :
          (b : Bool)
          → (s.idle == 0) ≡ b
          → Resumes s p (
              if b
              then (false, record s { resumeq = L.push s.resumeq p })
              else (true, record s { resumeq = L.push s.resumeq p; idle = s.idle - 1 }))
      by_idle true e = record {
        order = order_lem;
        sum = omega arith;
        same = refl;
        signalled = inl (ground arith);
      }
      by_idle false e = record {
        order = order_lem;
        sum = ground arith;
        same = refl;
        signalled = inr (omega arith);
      }

  record Inv (s : Sys) : Type 0 where
    order : s.resumed ≡ s.taken ++ pending s.scheduler
    sum : s.waiting ≡ s.scheduler.idle + (s.scheduler.signals + s.sending)
    bound : s.waiting ≤ n
    awake : (pending s.scheduler ≡ []) ⊎ ((s.waiting < n) ⊎ (0 < s.scheduler.signals + s.sending))

  init-Inv : Inv init
  unfolding new_scheduler
  init-Inv = record {
    order = rw L.contents-empty;
    sum = omega arith;
    bound = omega arith;
    awake = inl L.contents-empty;
  }

  Step-Inv : 0 < n → {s t : Sys} → Step s t → Inv s → Inv t
  unfolding send_signal
  Step-Inv pos {s} (resumes p) inv =
      let r = resume-Resumes s.scheduler p in
      record {
        order =
            ap (λ l. l ++ p ∷ []) inv.order
            ∙ append_assoc s.taken (pending s.scheduler) (p ∷ [])
            ∙ ap (◌++◌ s.taken) (sym r.order);
        sum = omega (arith, inv.sum, r.sum, r.same);
        bound = inv.bound;
        awake = inr (
            signal_or_awake s.waiting (resume_locked L s.scheduler p).1.idle
              ((resume_locked L s.scheduler p).1.signals
                + (s.sending + one_if_sends (resume_locked L s.scheduler p).0))
              n pos (omega (arith, inv.sum, r.sum, r.same)) (more r.signalled));
      }
    where
      more :
          ((resume_locked L s.scheduler p).1.idle ≡ 0)
            ⊎ (0 < one_if_sends (resume_locked L s.scheduler p).0)
          → ((resume_locked L s.scheduler p).1.idle ≡ 0)
            ⊎ (0
                < (resume_locked L s.scheduler p).1.signals
                  + (s.sending + one_if_sends (resume_locked L s.scheduler p).0))
      more (inl h) = inl h
      more (inr h) = inr (omega (arith, h))
  Step-Inv pos {s} (sends h) inv = record {
    order = inv.order;
    sum = omega (arith, inv.sum, h);
    bound = inv.bound;
    awake = inr (
        signal_or_awake s.waiting s.scheduler.idle (s.scheduler.signals + 1 + (s.sending - 1)) n pos
          (omega (arith, inv.sum, h)) (inr (omega arith)));
  }
  Step-Inv pos {s} (takes p h e) inv =
      let took : Takes s.scheduler (some p) (take L s.scheduler).1 =
        rw e at (take-Takes s.scheduler) in
      let (front, same_idle, same_signals) = took in
      record {
        order =
            rw (append_assoc s.taken (p ∷ []) (pending (take L s.scheduler).1))
              (rw (← front) inv.order);
        sum = omega (arith, inv.sum, same_idle, same_signals);
        bound = inv.bound;
        awake = inr (inl h);
      }
  Step-Inv pos {s} (waits h e) inv =
      let slept : Takes s.scheduler none (take L s.scheduler).1 =
        rw e at (take-Takes s.scheduler) in
      let (before, after, more_idle, same_signals) = slept in
      record {
        order = inv.order ∙ ap (◌++◌ s.taken) (before ∙ sym after);
        sum = omega (arith, inv.sum, more_idle, same_signals);
        bound = omega arith;
        awake = inl after;
      }
  Step-Inv pos {s} (wakes h k) inv = record {
    order = inv.order;
    sum = omega (arith, inv.sum);
    bound = omega (arith, inv.bound);
    awake = inr (inl (omega (arith, inv.bound)));
  }

  Reach-Inv : 0 < n → {s : Sys} → Reach s → Inv s
  Reach-Inv pos start = init-Inv
  Reach-Inv pos (later r step) = Step-Inv pos step (Reach-Inv pos r)

  -- With at least one worker, in every reachable state the processes that workers have taken,
  -- followed by those that are ready, are all that were resumed, in the order of the lock.
  pub Reach-fifo : 0 < n → {s : Sys} → Reach s → s.resumed ≡ s.taken ++ pending s.scheduler
  Reach-fifo pos r = (Reach-Inv pos r).order

  -- With at least one worker, in every reachable state in which a process is ready, some worker
  -- does not wait, a waiting worker has a signal, or a caller of `resume` is about to send one.
  pub Reach-awake :
      0 < n
      → {s : Sys} → Reach s
      → pending s.scheduler ≢ []
      → (s.waiting < n) ⊎ ((0 < s.scheduler.signals) ⊎ (0 < s.sending))
  Reach-awake pos {s} r ne = by_awake (Reach-Inv pos r).awake
    where
      by_awake :
          (pending s.scheduler ≡ []) ⊎ ((s.waiting < n) ⊎ (0 < s.scheduler.signals + s.sending))
          → (s.waiting < n) ⊎ ((0 < s.scheduler.signals) ⊎ (0 < s.sending))
      by_awake (inl e) = absurd (ne e)
      by_awake (inr (inl h)) = inl h
      by_awake (inr (inr h)) = inr (signal_or_sender s.scheduler.signals s.sending h)
