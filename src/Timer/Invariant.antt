-- ===== src/Timer/Invariant.antt =====
-- The invariant of the timer wheel of src/time.cpp, and the nodes that wait in it, counted with an
-- arbitrary weight.
use stp.Prelude.{ℕ, ◌+◌, ◌*◌, ◌/◌, ◌%◌, ◌^◌, ◌≤◌, ◌<◌, ◌≡◌, All, arith, total, weight, List}
use stp.Timer.{TimerNode, Timer, empty}
use stp.Timer.Slots.{span}

-- A node in the list `index` of `least` fires within one turn of that wheel.
pub record IsNear (time index : ℕ) (n : TimerNode) : Type 0 where
  pub fits : n.expire < 2 ^ 64
  pub slot : n.expire % 2 ^ 14 ≡ index
  pub later : time ≤ n.expire
  pub soon : n.expire < time + 2 ^ 14

-- A node in a slot of a level shares the higher digits of the time, and its own digit, which is
-- the slot's, is still ahead.
pub record IsFar (time level index : ℕ) (n : TimerNode) : Type 0 where
  pub fits : n.expire < 2 ^ 64
  pub in_range : level < 5
  pub slot : n.expire / span level % 1024 ≡ index + 1
  pub ahead : time / span level < n.expire / span level
  pub shared : n.expire / (span level * 1024) ≡ time / (span level * 1024)

pub record Inv (t : Timer) : Type 0 where
  pub fits : t.time < 2 ^ 64
  pub near : (i : ℕ) → All (IsNear t.time i) (t.least i)
  pub far : (l v : ℕ) → All (IsFar t.time l v) (t.level l v)

pub empty-Inv : Inv empty
unfolding empty
empty-Inv = record { fits = omega arith; near = λ i. tt; far = λ l v. tt }

abbrev pub least_weight : (TimerNode → ℕ) → (ℕ → List TimerNode) → ℕ
least_weight w least = total (2 ^ 14) (λ i. weight w (least i))

abbrev pub slots_weight : (TimerNode → ℕ) → (ℕ → List TimerNode) → ℕ
slots_weight w slots = total 1023 (λ v. weight w (slots v))

abbrev pub level_weight : (TimerNode → ℕ) → (ℕ → ℕ → List TimerNode) → ℕ
level_weight w level = total 5 (λ l. slots_weight w (level l))

-- The sum of a weight over all the nodes in the arrays of the timer. With the weight that is 1 at
-- one node and 0 elsewhere it says how often that node waits.
unfoldable pub pending : (TimerNode → ℕ) → Timer → ℕ
pending w t = least_weight w t.least + level_weight w t.level
