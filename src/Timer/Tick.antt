-- ===== src/Timer/Tick.antt =====
-- `_tick` of src/time.cpp: one tick sends the nodes whose deadline is the current time, all of them
-- and no other, and moves the time on by 1.
use Prim.Native.Nat.{bit_and}
use native.Mathlib.Decide.{ℕ_discrete}
use stp.Prelude.{
  ℕ, ◌+◌, ◌-◌, ◌/◌, ◌%◌, ◌^◌, ◌≤◌, ◌<◌, ◌≡◌, ◌≢◌, ◌∙◌, inl, inr, some, List, [], All, arith,
  All-mono, total-update, weight, weight-nil, ==→eq, ◌==◌, Bool-cases, subst, if◌then◌else◌,
}
use stp.Bits.{bit_and-ones}
use stp.Timer.{TimerNode, Timer, set_level, due, advance, cascade, requeue, tick, cascade_level}
use stp.Timer.Slots.{
  span, span_pos, suc-div-lt, suc-div-le, shared_suc, span-multiple, le_of_div-le, IsTurn,
  IsTurn-only, cascade_level_lem,
}
use stp.Timer.Invariant.{IsNear, IsFar, Inv, pending}
use stp.Timer.Queue.{level_weight-set, queue_list_lem}

-- One tick took `t` to `t'` and sent the nodes `sent`.
pub record Ticked (t t' : Timer) (sent : List TimerNode) : Type 0 where
  pub inv : Inv t'
  pub time : t'.time ≡ t.time + 1
  pub on_time : All (λ n. n.expire ≡ t.time) sent
  pub kept : (w : TimerNode → ℕ) → pending w t ≡ weight w sent + pending w t'

module _ (t : Timer) (inv : Inv t) (more : t.time + 1 < 2 ^ 64) where
  abbrev index : ℕ
  index = bit_and t.time (2 ^ 14 - 1)

  index_eq : index ≡ t.time % 2 ^ 14
  index_eq = bit_and-ones 14 t.time

  advance_time : (advance t).time ≡ t.time + 1
  unfolding advance
  advance_time = omega arith

  due_on_time : All (λ n. n.expire ≡ t.time) (due t)
  unfolding due
  due_on_time =
      All-mono (IsNear t.time index) (λ n. n.expire ≡ t.time) (λ n h. omega (arith, h, index_eq))
        (t.least index) (inv.near index)

  advance-IsNear : (i : ℕ) → All (IsNear (t.time + 1) i) ((advance t).least i)
  unfolding advance
  advance-IsNear i = elim (Bool-cases (index == i)) [
    | inl e ↦ rw (e, if◌then◌else◌) tt
    | inr e ↦
        rw (e, if◌then◌else◌)
          (All-mono (IsNear t.time i) (IsNear (t.time + 1) i) (λ n h. ground (arith, index_eq))
            (t.least i) (inv.near i))
  ]

  -- A far node stays ahead unless its slot begins at the new time.
  IsFar-suc :
      (l v : ℕ) (n : TimerNode)
      → ((t.time + 1) % span l ≡ 0 → (t.time + 1) / span l % 1024 ≢ v + 1)
      → IsFar t.time l v n
      → IsFar (t.time + 1) l v n
  IsFar-suc l v n other h = record {
    fits = h.fits;
    in_range = h.in_range;
    slot = h.slot;
    ahead =
        suc-div-lt t.time n.expire (span l) (span_pos l) h.ahead
          (λ begins e. other begins (rw e h.slot));
    shared = shared_suc t.time n.expire (span l) (span_pos l) h.ahead h.shared;
  }

  advance-pending : (w : TimerNode → ℕ) → pending w t ≡ weight w (due t) + pending w (advance t)
  unfolding pending due advance
  advance-pending w = omega (
    arith,
    total-update (2 ^ 14) index (weight w) t.least [] (omega (arith, index_eq)),
    weight-nil w,
  )

  -- The nodes of a slot stay ahead unless the slot begins at the new time.
  slot_suc :
      (l v : ℕ)
      → ((t.time + 1) % span l ≡ 0 → (t.time + 1) / span l % 1024 ≢ v + 1)
      → All (IsFar (t.time + 1) l v) (t.level l v)
  slot_suc l v other =
      All-mono (IsFar t.time l v) (IsFar (t.time + 1) l v) (λ n. IsFar-suc l v n other)
        (t.level l v) (inv.far l v)

  advance-IsFar :
      (t.time + 1) % 2 ^ 14 ≢ 0 → (l v : ℕ) → All (IsFar (t.time + 1) l v) ((advance t).level l v)
  unfolding advance
  advance-IsFar inside l v =
      slot_suc l v (λ begins. absurd (inside (span-multiple l (t.time + 1) begins)))

  -- No slot begins: the levels stay as they are.
  advance-Inv : (t.time + 1) % 2 ^ 14 ≢ 0 → Inv (advance t)
  advance-Inv inside = record {
    fits = rw advance_time more;
    near = rw advance_time advance-IsNear;
    far = rw advance_time (advance-IsFar inside);
  }

  -- The slot that begins is emptied.
  module _ (l value : ℕ) (turn : IsTurn (t.time + 1) l value) where
    abbrev emptied : Timer
    emptied = set_level (advance t) l (value - 1) []

    -- Any other slot does not begin.
    other-slot : (k v : ℕ) → (k ≡ l → value ≢ v + 1) → All (IsFar (t.time + 1) k v) (t.level k v)
    other-slot k v other = slot_suc k v (λ begins digit.
        let same : k ≡ l = IsTurn-only (t.time + 1) turn k begins (rw digit (omega arith)) in
        other same (turn.digit ∙ subst (λ j. (t.time + 1) / span j % 1024 ≡ v + 1) same digit))

    emptied-IsFar : (k v : ℕ) → All (IsFar (t.time + 1) k v) (emptied.level k v)
    unfolding advance
    emptied-IsFar k v = elim (Bool-cases (l == k)) [
      | inr e ↦ rw (e, if◌then◌else◌) (other-slot k v (ground arith))
      | inl e ↦
          rw (e, if◌then◌else◌)
            (elim (Bool-cases (value - 1 == v)) [
              | inl f ↦ rw (f, if◌then◌else◌) tt
              | inr f ↦
                  rw (f, if◌then◌else◌, ==→eq l k e)
                    (other-slot k v (λ same. ground (arith, turn.pos)))
            ])
    ]

    emptied-Inv : Inv emptied
    emptied-Inv = record {
      fits = rw advance_time more;
      near = rw advance_time advance-IsNear;
      far = rw advance_time emptied-IsFar;
    }

    -- Its nodes are not over.
    turn-later : All (λ n. (t.time + 1 ≤ n.expire) × (n.expire < 2 ^ 64)) (t.level l (value - 1))
    turn-later =
        All-mono (IsFar t.time l (value - 1)) _ (λ n h. (later n h, h.fits)) (t.level l (value - 1))
          (inv.far l (value - 1))
      where
        later : (n : TimerNode) → IsFar t.time l (value - 1) n → t.time + 1 ≤ n.expire
        later n h =
            le_of_div-le (span l) (t.time + 1) n.expire turn.starts
              (suc-div-le t.time n.expire (span l) (span_pos l) h.ahead)

    -- The slot's nodes are queued again, for the new time.
    requeue_lem :
        (t' : Timer) × (requeue (advance t) (l, value) ≡ some t')
        × Inv t'
        × (t'.time ≡ (advance t).time)
        × ((w : TimerNode → ℕ)
            → pending w t' ≡ pending w emptied + weight w (t.level l (value - 1)))
    unfolding requeue advance
    requeue_lem =
        queue_list_lem emptied (t.level l (value - 1)) emptied-Inv (rw advance_time turn-later)

    emptied-pending :
        (w : TimerNode → ℕ)
        → pending w emptied + weight w (t.level l (value - 1)) ≡ pending w (advance t)
    unfolding pending advance
    emptied-pending w = omega (
      arith,
      level_weight-set w (advance t) l (value - 1) [] turn.in_range
          (omega (arith, turn.digit, turn.pos)),
      weight-nil w,
    )

    cascade_turn :
        (t.time + 1) % 2 ^ 14 ≡ 0
        → cascade_level 5 0 ((t.time + 1) / 2 ^ 14) ≡ some (l, value)
        → cascade (advance t) ≡ requeue (advance t) (l, value)
    unfolding cascade
    cascade_turn begins scan =
        rw (advance_time, bit_and-ones 14 (t.time + 1), begins, scan) (ground arith)

    tick_turn :
        (t.time + 1) % 2 ^ 14 ≡ 0
        → cascade_level 5 0 ((t.time + 1) / 2 ^ 14) ≡ some (l, value)
        → (t' : Timer) × (tick t ≡ some (due t, t')) × Ticked t t' (due t)
    unfolding tick
    tick_turn begins scan =
        let (t', done, inv', time', added) = requeue_lem in
        (
          t',
          rw (cascade_turn begins scan, done),
          record {
            inv = inv';
            time = time' ∙ advance_time;
            on_time = due_on_time;
            kept = λ w. omega (arith, advance-pending w, emptied-pending w, added w);
          },
        )

-- A tick before the last value of the clock meets no failed assertion, sends exactly the nodes
-- whose deadline is the time that ends, moves the time on by 1, loses and invents no node, and
-- keeps the timer well formed.
pub tick-Ticked :
    (t : Timer)
    → Inv t
    → t.time + 1 < 2 ^ 64
    → (t' : Timer) × (tick t ≡ some (due t, t')) × Ticked t t' (due t)
unfolding tick cascade
tick-Ticked t inv more = elim (ℕ_discrete ((t.time + 1) % 2 ^ 14) 0) [
  | no inside ↦ (
    advance t,
    rw (advance_time t inv more, bit_and-ones 14 (t.time + 1)) (ground arith),
    record {
      inv = advance-Inv t inv more inside;
      time = advance_time t inv more;
      on_time = due_on_time t inv more;
      kept = advance-pending t inv more;
    },
  )
  | yes begins ↦
      let (l, value, scan, turn) = cascade_level_lem (t.time + 1) more (omega arith) begins in
      tick_turn t inv more l value turn begins scan
]
