-- ===== src/Fd/Epoll/Segments/One.antt =====
-- All threads of src/fd_epoll.cpp get the same segment, and none is lost.
use stp.Prelude.{
  ℕ, ◌+◌, ◌<◌, ◌≡◌, refl, ap, inl, inr, some, arith, ltb, if◌then◌else◌, update, total,
  total-update, total-eq_zero, Option-cases, update_all,
}
use stp.Fd.Epoll.Segments.{
  Place, outside, holds, has, State, load, exchange, Step, loads, exchanges, leaves, begin, Reach,
  start, later, held, in_slot, places,
}

module _ (n : ℕ) where
  -- A segment that was made is in one place; one that was not, in none. Who is behind has the segment
  -- of the table.
  pub record One (s : State) : Type 0 where
    pub once : (x : ℕ) → places n x s ≡ (if ltb x s.made then 1 else 0)
    pub same : (thread fds : ℕ) → s.threads thread ≡ has fds → s.slot ≡ some fds

  begin-One : One (begin n)
  begin-One = record {
    once = λ x. ground (arith, total-eq_zero n (λ t. 0) (λ i. refl));
    same = λ thread fds e. absurd (cc e);
  }

  module _ (s : State) (h : One s) (thread : ℕ) (lt : thread < n) where
    moved :
        (x : ℕ) (p : Place)
        → total n (λ t. held n x (update s.threads thread p t)) + held n x (s.threads thread)
          ≡ total n (λ t. held n x (s.threads t)) + held n x p
    moved x p = total-update n thread (held n x) s.threads p lt

    load-One : s.threads thread ≡ outside → One (load s thread)
    unfolding load
    load-One at = elim (Option-cases s.slot) [
      | inl e ↦
          rw (e, load)
            (record {
              once = λ x. ground (arith, moved x (holds s.made), ap (held n x) at, h.once x);
              same =
                  update_all (λ t p. (fds : ℕ) → p ≡ has fds → s.slot ≡ some fds) s.threads thread
                    (holds s.made) h.same (λ fds q. absurd (cc q));
            })
      | inr (fds, e) ↦
          rw (e, load)
            (record {
              once = λ x. omega (arith, moved x (has fds), ap (held n x) at, h.once x);
              same =
                  update_all (λ t p. (fds : ℕ) → p ≡ has fds → s.slot ≡ some fds) s.threads thread
                    (has fds) h.same (λ k q. cc (q, e));
            })
    ]

    exchange-One :
        (new_fds : ℕ) → s.threads thread ≡ holds new_fds → One (exchange s thread new_fds)
    unfolding exchange
    exchange-One new_fds at = elim (Option-cases s.slot) [
      | inl e ↦
          rw (e, exchange)
            (record {
              once = λ x.
                  omega
                    (arith, moved x (has new_fds), ap (held n x) at, ap (in_slot n x) e, h.once x);
              same =
                  update_all (λ t p. (fds : ℕ) → p ≡ has fds → some new_fds ≡ some fds) s.threads
                    thread (has new_fds)
                    (λ t fds q. absurd (let f : s.slot ≡ some fds = h.same t fds q in cc (e, f)))
                    (λ k q. cc q);
            })
      | inr (fds, e) ↦
          rw (e, exchange)
            (record {
              once = λ x. omega (arith, moved x (has fds), ap (held n x) at, h.once x);
              same =
                  update_all (λ t p. (fds : ℕ) → p ≡ has fds → s.slot ≡ some fds) s.threads thread
                    (has fds) h.same (λ k q. cc (q, e));
            })
    ]

    leaves-One :
        (fds : ℕ)
        → s.threads thread ≡ has fds
        → One (record s { threads = update s.threads thread outside })
    leaves-One fds at = record {
      once = λ x. omega (arith, moved x outside, ap (held n x) at, h.once x);
      same =
          update_all (λ t p. (fds : ℕ) → p ≡ has fds → s.slot ≡ some fds) s.threads thread outside
            h.same (λ k q. absurd (cc q));
    }

  Step-One : {s t : State} → One s → Step n s t → One t
  Step-One {s} h (loads thread lt at) = load-One s h thread lt at
  Step-One {s} h (exchanges thread new_fds lt at) = exchange-One s h thread lt new_fds at
  Step-One {s} h (leaves thread fds lt at) = leaves-One s h thread lt fds at

  -- In every interleaving of threads that look for a filter of one segment, whoever has passed the
  -- exchange has the segment of the table, the same for all, which is never deleted; and each segment that
  -- was allocated is in one place: in the table, with a thread before its exchange, or deleted once.
  pub Reach-One : {s : State} → Reach n s → One s
  Reach-One start = begin-One
  Reach-One (later r step) = Step-One (Reach-One r) step
