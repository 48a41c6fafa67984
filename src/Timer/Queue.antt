-- ===== src/Timer/Queue.antt =====
-- `_queue` and `_queue_list` of src/time.cpp: a deadline that is not over is always accepted, goes
-- to a slot inside the arrays, and nothing else changes.
use Prim.Native.Nat.{bit_and}
use native.Mathlib.Decide.{dec_lt}
use stp.Prelude.{
  ℕ, ◌+◌, ◌-◌, ◌/◌, ◌%◌, ◌^◌, ◌≤◌, ◌<◌, ◌≡◌, refl, ◌∙◌, some, List, [], ◌∷◌, ◌++◌, All, arith,
  All-append, update_all, total-update, update, weight, weight-nil, weight-cons, weight-append,
  lt→ltb, le→ltb,
}
use stp.Bits.{bit_and-ones}
use stp.Timer.{
  TimerNode, Timer, set_level, append_least, append_level, queue, queue_list, level_value,
}
use stp.Timer.Slots.{span, digit_pos, IsLevel, queue_level_lem, level_value_lem}
use stp.Timer.Invariant.{IsNear, IsFar, Inv, level_weight, slots_weight, pending}

-- Node `n` was added to `t`, and the result is `t'`.
pub record Queued (t : Timer) (n : TimerNode) (t' : Timer) : Type 0 where
  pub inv : Inv t'
  pub time : t'.time ≡ t.time
  pub added : (w : TimerNode → ℕ) → pending w t' ≡ pending w t + w n

weight_last :
    (w : TimerNode → ℕ) (l : List TimerNode) (n : TimerNode)
    → weight w (l ++ n ∷ []) ≡ weight w l + w n
weight_last w l n = omega (arith, weight-append w l (n ∷ []), weight-cons w n [], weight-nil w)

-- The list of a slot is replaced.
pub level_weight-set :
    (w : TimerNode → ℕ) (t : Timer) (l v : ℕ) (list : List TimerNode)
    → l < 5
    → v < 1023
    → level_weight w (set_level t l v list).level + weight w (t.level l v)
      ≡ level_weight w t.level + weight w list
level_weight-set w t l v list p q = omega (
  arith,
  total-update 5 l (slots_weight w) t.level (update (t.level l) v list) p,
  total-update 1023 v (weight w) (t.level l) list q,
)

append_least-Queued :
    (t : Timer) (n : TimerNode)
    → Inv t
    → t.time ≤ n.expire
    → n.expire < 2 ^ 64
    → n.expire < t.time + 2 ^ 14
    → Queued t n (append_least t n)
unfolding append_least pending
append_least-Queued t n inv le fits soon = record {
  inv = record {
    fits = inv.fits;
    near =
        update_all (λ i l. All (IsNear t.time i) l) t.least index (t.least index ++ n ∷ []) inv.near
          (All-append (IsNear t.time index) (t.least index) (n ∷ []) (inv.near index) (here, tt));
    far = inv.far;
  };
  time = refl;
  added = λ w. omega (
    arith,
    total-update (2 ^ 14) index (weight w) t.least (t.least index ++ n ∷ [])
        (omega (arith, index_eq)),
    weight_last w (t.least index) n,
  );
}
  where
    index : ℕ
    index = bit_and n.expire (2 ^ 14 - 1)

    index_eq : index ≡ n.expire % 2 ^ 14
    index_eq = bit_and-ones 14 n.expire

    here : IsNear t.time index n
    here = record { fits = fits; slot = omega (arith, index_eq); later = le; soon = soon }

set_level-Inv :
    (t : Timer) (l v : ℕ) (list : List TimerNode)
    → Inv t
    → All (IsFar t.time l v) list
    → Inv (set_level t l v list)
set_level-Inv t l v list inv h = record {
  fits = inv.fits;
  near = inv.near;
  far =
      update_all (λ k slots. (i : ℕ) → All (IsFar t.time k i) (slots i)) t.level l
        (update (t.level l) v list) inv.far
        (update_all (λ i l'. All (IsFar t.time l i) l') (t.level l) v list (inv.far l) h);
}

append_level-Queued :
    (t : Timer) (n : TimerNode) (l : ℕ)
    → Inv t
    → n.expire < 2 ^ 64
    → IsLevel n.expire t.time l
    → (t' : Timer) × (append_level t n l ≡ some t') × Queued t n t'
unfolding append_level pending
append_level-Queued t n l inv fits lev = (
  set_level t l v list,
  ground (arith, value_eq, pos),
  record {
    inv =
        set_level-Inv t l v list inv
          (All-append (IsFar t.time l v) (t.level l v) (n ∷ []) (inv.far l v) (here, tt));
    time = refl;
    added = λ w. omega (
      arith,
      level_weight-set w t l v list lev.in_range (omega (arith, value_eq, pos)),
      weight_last w (t.level l v) n,
    );
  },
)
  where
    value : ℕ
    value = level_value l n.expire

    v : ℕ
    v = value - 1

    list : List TimerNode
    list = t.level l v ++ n ∷ []

    value_eq : value ≡ n.expire / span l % 1024
    value_eq = level_value_lem l n.expire lev.in_range

    pos : 0 < n.expire / span l % 1024
    pos = digit_pos t.time n.expire (span l) lev.ahead lev.shared

    here : IsFar t.time l v n
    here = record {
      fits = fits;
      in_range = lev.in_range;
      slot = omega (arith, value_eq, pos);
      ahead = lev.ahead;
      shared = lev.shared;
    }

-- `_queue` accepts every deadline that is not over, and keeps the timer well formed.
pub queue-Queued :
    (t : Timer) (n : TimerNode)
    → Inv t
    → t.time ≤ n.expire
    → n.expire < 2 ^ 64
    → (t' : Timer) × (queue t n ≡ some t') × Queued t n t'
unfolding queue
queue-Queued t n inv le fits = elim (dec_lt n.expire (t.time + 2 ^ 14)) [
  | yes soon ↦ (
    append_least t n,
    rw (le→ltb n.expire t.time le, lt→ltb (n.expire - t.time) (2 ^ 14) (omega arith)),
    append_least-Queued t n inv le fits soon,
  )
  | no late ↦
      let (l, scan, lev) = queue_level_lem n.expire t.time fits inv.fits (omega arith) in
      rw (le→ltb n.expire t.time le, le→ltb (n.expire - t.time) (2 ^ 14) (omega arith), scan)
        (append_level-Queued t n l inv fits lev)
]

-- Every node of a list of deadlines that are not over is queued, in order.
pub queue_list_lem :
    (t : Timer) (ns : List TimerNode)
    → Inv t
    → All (λ n. (t.time ≤ n.expire) × (n.expire < 2 ^ 64)) ns
    → (t' : Timer) × (queue_list t ns ≡ some t')
      × Inv t'
      × (t'.time ≡ t.time)
      × ((w : TimerNode → ℕ) → pending w t' ≡ pending w t + weight w ns)
unfolding queue_list
queue_list_lem t [] inv h = (t, refl, inv, refl, λ w. omega (arith, weight-nil w))
queue_list_lem t (n ∷ ns) inv h =
    let (t₁, e₁, q) = queue-Queued t n inv h.0.0 h.0.1 in
    let (t₂, e₂, inv₂, time₂, more) = queue_list_lem t₁ ns q.inv (rw q.time h.1) in
    (t₂, rw e₁ e₂, inv₂, time₂ ∙ q.time, λ w. omega (arith, more w, q.added w, weight-cons w n ns))
