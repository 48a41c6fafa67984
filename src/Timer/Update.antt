-- ===== src/Timer/Update.antt =====
-- `_update` and `_timeout` of src/time.cpp: an update sends the nodes whose deadline is over, in the
-- order of their deadlines, and a timeout is sent by the update that passes it.
use stp.Prelude.{
  ℕ, zero, suc, ◌+◌, ◌-◌, ◌%◌, ◌^◌, ◌≤◌, ◌<◌, ◌≡◌, inl, inr, some, none, List, [], ◌∷◌, ◌++◌, All,
  arith, weight, weight-nil, weight-append, weight-eq_zero, total-eq_zero, ltb, lt→ltb, ltb→lt,
  ltb→le, Bool-cases,
}
use stp.Timer.{TimerNode, Timer, due, update_time, update_timer, queue, timeout}
use stp.Timer.Slots.{span, lt_of_div-lt}
use stp.Timer.Invariant.{IsNear, IsFar, Inv, slots_weight, pending}
use stp.Timer.Queue.{Queued, queue-Queued}
use stp.Timer.Tick.{Ticked, tick-Ticked}

-- The deadlines of a list do not fall, and start no earlier than `from`.
abbrev pub Ordered : ℕ → List TimerNode → Type 0
Ordered from [] = Unit
Ordered from (n ∷ ns) = (from ≤ n.expire) × Ordered n.expire ns

pub Ordered-later : (a b : ℕ) (ns : List TimerNode) → a ≤ b → Ordered b ns → Ordered a ns
Ordered-later a b [] h o = tt
Ordered-later a b (n ∷ ns) h o = (omega arith, o.1)

Ordered-append :
    (now : ℕ) (xs ys : List TimerNode)
    → All (λ n. n.expire ≡ now) xs
    → Ordered now ys
    → Ordered now (xs ++ ys)
Ordered-append now [] ys h o = o
Ordered-append now (x ∷ xs) ys h o = (omega arith, rw h.0 (Ordered-append now xs ys h.1 o))

-- The timer `t` was brought to `time`, is now `t'`, and sent the nodes `sent`.
pub record Updated (t : Timer) (time : ℕ) (t' : Timer) (sent : List TimerNode) : Type 0 where
  pub inv : Inv t'
  pub reached : t'.time ≡ time
  pub over : All (λ n. n.expire < time) sent
  pub ordered : Ordered t.time sent
  pub kept : (w : TimerNode → ℕ) → pending w t ≡ weight w sent + pending w t'

over_append :
    (now time : ℕ) (xs ys : List TimerNode)
    → now < time
    → All (λ n. n.expire ≡ now) xs
    → All (λ n. n.expire < time) ys
    → All (λ n. n.expire < time) (xs ++ ys)
over_append now time [] ys h p q = q
over_append now time (x ∷ xs) ys h p q = (omega arith, over_append now time xs ys h p.1 q)

Ticked-Updated :
    {t t₁ t₂ : Timer} {time : ℕ} {sent rest : List TimerNode}
    → t.time < time
    → Ticked t t₁ sent
    → Updated t₁ time t₂ rest
    → Updated t time t₂ (sent ++ rest)
Ticked-Updated {t} {t₁} {t₂} {time} {sent} {rest} lt a b = record {
  inv = b.inv;
  reached = b.reached;
  over = over_append t.time time sent rest lt a.on_time b.over;
  ordered =
      Ordered-append t.time sent rest a.on_time
        (Ordered-later t.time t₁.time rest (omega (arith, a.time)) b.ordered);
  kept = λ w. omega (arith, a.kept w, b.kept w, weight-append w sent rest);
}

update_time-Updated :
    (fuel : ℕ) (t : Timer) (time : ℕ)
    → Inv t
    → t.time ≤ time
    → time < t.time + fuel
    → time < 2 ^ 64
    → (t' : Timer) × (sent : List TimerNode) × (update_time fuel t time ≡ some (sent, t'))
      × Updated t time t' sent
unfolding update_time
update_time-Updated zero t time inv le enough fits = absurd (omega arith)
update_time-Updated (suc fuel) t time inv le enough fits = elim (Bool-cases (ltb t.time time)) [
  | inl more ↦
      let lt : t.time < time = ltb→lt t.time time more in
      let (t₁, e₁, ticked) = tick-Ticked t inv (omega arith) in
      let (t₂, rest, e₂, updated) =
        update_time-Updated fuel t₁ time ticked.inv (omega (arith, ticked.time))
          (omega (arith, ticked.time)) fits in
      (t₂, due t ++ rest, rw (more, e₁, e₂), Ticked-Updated lt ticked updated)
  | inr done ↦
      let same : t.time ≡ time = omega (arith, ltb→le t.time time done) in
      (
        t,
        [],
        rw done,
        record {
          inv = inv;
          reached = same;
          over = tt;
          ordered = tt;
          kept = λ w. omega (arith, weight-nil w);
        },
      )
]

-- An update to a time that is not in the past ends there, with no failed assertion. It sends nodes
-- whose deadline lies before that time, in the order of the deadlines, loses and invents none, and
-- keeps the timer well formed, so that each node left has its deadline at that time or later.
pub update_timer-Updated :
    (t : Timer) (time : ℕ)
    → Inv t
    → t.time ≤ time
    → time < 2 ^ 64
    → (t' : Timer) × (sent : List TimerNode) × (update_timer t time ≡ some (sent, t'))
      × Updated t time t' sent
unfolding update_timer
update_timer-Updated t time inv le fits =
    update_time-Updated (time - t.time + 1) t time inv le (omega arith) fits

-- Nothing that waits is over.
pub pending-eq_zero :
    (w : TimerNode → ℕ) (t : Timer)
    → Inv t
    → ((n : TimerNode) → t.time ≤ n.expire → w n ≡ 0)
    → pending w t ≡ 0
unfolding pending
pending-eq_zero w t inv none_later = omega (
  arith,
  total-eq_zero (2 ^ 14) (λ i. weight w (t.least i))
      (λ i.
        weight-eq_zero w (IsNear t.time i) (λ n h. none_later n h.later) (t.least i) (inv.near i)),
  total-eq_zero 5 (λ l. slots_weight w (t.level l))
      (λ l.
        total-eq_zero 1023 (λ v. weight w (t.level l v))
          (λ v.
            weight-eq_zero w (IsFar t.time l v)
              (λ n h. none_later n (omega (arith, lt_of_div-lt (span l) t.time n.expire h.ahead)))
              (t.level l v) (inv.far l v))),
)

abbrev pub node_at : (expire source session : ℕ) → TimerNode
node_at expire source session = record { expire = expire; source = source; session = session }

pub timeout-Queued :
    (t : Timer) (source session msecs : ℕ)
    → Inv t
    → t.time + msecs < 2 ^ 64
    → (t' : Timer) × (timeout t source session msecs ≡ some t')
      × Queued t (node_at (t.time + msecs) source session) t'
unfolding timeout
timeout-Queued t source session msecs inv fits =
    let wraps : (t.time + msecs) % 2 ^ 64 ≡ t.time + msecs = omega arith in
    rw wraps
      (queue-Queued t (node_at (t.time + msecs) source session) inv (omega arith) (omega arith))

-- A timeout whose deadline fits the clock is accepted, and the first update to a time after the
-- deadline sends it: of the nodes with deadlines before that time the update sends all that waited
-- and the new one, each as often as it was there.
pub timeout-update :
    (t : Timer) (source session msecs time : ℕ) (w : TimerNode → ℕ)
    → Inv t
    → t.time + msecs < time
    → time < 2 ^ 64
    → ((n : TimerNode) → time ≤ n.expire → w n ≡ 0)
    → (t₁ t₂ : Timer) × (sent : List TimerNode) × (timeout t source session msecs ≡ some t₁)
      × (update_timer t₁ time ≡ some (sent, t₂))
      × (weight w sent ≡ pending w t + w (node_at (t.time + msecs) source session))
timeout-update t source session msecs time w inv lt fits later =
    let (t₁, e₁, queued) = timeout-Queued t source session msecs inv (omega arith) in
    let (t₂, sent, e₂, updated) =
      update_timer-Updated t₁ time queued.inv (omega (arith, queued.time)) fits in
    let nothing_over : pending w t₂ ≡ 0 =
      pending-eq_zero w t₂ updated.inv (λ n h. later n (omega (arith, updated.reached))) in
    (t₁, t₂, sent, e₁, e₂, omega (arith, queued.added w, updated.kept w, nothing_over))

-- A deadline beyond the last value of the clock wraps into the past, and the assertion of `_queue`
-- fails.
pub timeout_overflow :
    (t : Timer) (source session msecs : ℕ)
    → t.time < 2 ^ 64
    → msecs < 2 ^ 64
    → 2 ^ 64 ≤ t.time + msecs
    → timeout t source session msecs ≡ none
unfolding timeout queue
timeout_overflow t source session msecs p q r =
    rw (lt→ltb ((t.time + msecs) % 2 ^ 64) t.time (omega arith))
