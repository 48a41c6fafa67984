-- ===== src/Timer.antt =====
-- src/time.cpp, the timer service: a wheel of 16384 lists for the near future and five levels of
-- 1023 lists for the rest.
--
-- A list of nodes is the sequence that its links hold; the links, and the free list that a node that
-- has been sent goes back to, are in Nodes. A failed `assert`, and an index outside an
-- array, is `none`. Numbers are uint64, with the wrap-around written out.
pub mod Service
pub mod Slots
pub mod Invariant
pub mod Queue
pub mod Tick
pub mod Update
pub mod Nodes
mod Examples
use Prim.Native.Nat.{bit_and, bit_or}
use stp.Prelude.{
  ℕ, zero, suc, ◌+◌, ◌-◌, ◌*◌, ◌/◌, ◌%◌, ◌^◌, ◌<◌, Bool, List, [], ◌∷◌, ◌++◌, map, Option, none,
  some, ◌>>=◌, ltb, ◌==◌, if◌then◌else◌, update,
}

abbrev pub time_least_shift : ℕ
time_least_shift = 14

abbrev pub time_least_value : ℕ
time_least_value = 2 ^ time_least_shift

abbrev pub time_least_mask : ℕ
time_least_mask = time_least_value - 1

abbrev pub time_level_shift : ℕ
time_level_shift = 10

abbrev pub time_level_value : ℕ
time_level_value = 2 ^ time_level_shift

abbrev pub time_level_mask : ℕ
time_level_mask = time_level_value - 1

abbrev pub time_level_count : ℕ
time_level_count = (64 - time_least_shift) / time_level_shift

abbrev uint64_mod : ℕ
uint64_mod = 2 ^ 64

pub record TimerNode : Type 0 where
  pub expire : ℕ
  pub source : ℕ
  pub session : ℕ

pub record Timer : Type 0 where
  pub time : ℕ
  pub least : ℕ → List TimerNode
  pub level : ℕ → ℕ → List TimerNode

pub empty : Timer
empty = record { time = 0; least = λ i. []; level = λ l i. [] }

abbrev pub list_append : List TimerNode → TimerNode → List TimerNode
list_append l n = l ++ n ∷ []

-- The `do … while` of `_queue`: the first level at whose next power of two `expire` and `time`
-- have the same high bits. `rounds` counts the levels left.
pub queue_level : (rounds level exp2 expire time : ℕ) → Option ℕ
queue_level zero level exp2 expire time = none
queue_level (suc rounds) level exp2 expire time =
    let exp2' : ℕ = (exp2 * 2 ^ time_level_shift) % uint64_mod in
    let mask : ℕ = (exp2' + uint64_mod - 1) % uint64_mod in
    let rest : Option ℕ = queue_level rounds (level + 1) exp2' expire time in
    if bit_or expire mask == bit_or time mask then some level else rest

pub append_least : Timer → TimerNode → Timer
append_least t n =
    let index : ℕ = bit_and n.expire time_least_mask in
    record t { least = update t.least index (list_append (t.least index) n) }

abbrev pub level_value : ℕ → ℕ → ℕ
level_value level expire =
    bit_and (expire / 2 ^ (time_least_shift + level * time_level_shift)) time_level_mask

abbrev set_level : Timer → (level index : ℕ) → List TimerNode → Timer
set_level t level index l = record t {
  level = update t.level level (update (t.level level) index l);
}

-- `_list_append(&t->level[level][value-1], node)`.
pub append_level : Timer → TimerNode → ℕ → Option Timer
append_level t n level =
    let value : ℕ = level_value level n.expire in
    if value == 0
    then none
    else some (set_level t level (value - 1) (list_append (t.level level (value - 1)) n))

pub queue : Timer → TimerNode → Option Timer
queue t n =
    if ltb n.expire t.time
    then none
    else (if ltb (n.expire - t.time) time_least_value
        then some (append_least t n)
        else (queue_level time_level_count 0 (2 ^ time_least_shift) n.expire t.time >>= λ level.
            append_level t n level))

pub queue_list : Timer → List TimerNode → Option Timer
queue_list t [] = some t
queue_list t (n ∷ list) = queue t n >>= λ t'. queue_list t' list

-- The `do … while` of `_tick`: the lowest level whose digit of the time is not 0, and that digit.
pub cascade_level : (rounds level time : ℕ) → Option (ℕ × ℕ)
cascade_level zero level time = none
cascade_level (suc rounds) level time =
    let value : ℕ = bit_and time time_level_mask in
    let rest : Option (ℕ × ℕ) = cascade_level rounds (level + 1) (time / 2 ^ time_level_shift) in
    if value == 0 then rest else some (level, value)

-- `_queue_list(t, _list_clear(&t->level[level][value-1]))`.
pub requeue : Timer → ℕ × ℕ → Option Timer
requeue t (level, value) = queue_list (set_level t level (value - 1) []) (t.level level (value - 1))

-- What `_list_clear(&t->least[index])` takes out.
pub due : Timer → List TimerNode
due t = t.least (bit_and t.time time_least_mask)

-- The timer with that list cleared, and `++t->time`.
pub advance : Timer → Timer
advance t = record t {
  time = (t.time + 1) % uint64_mod;
  least = update t.least (bit_and t.time time_least_mask) [];
}

-- The rest of `_tick`, from the test of the new time on.
pub cascade : Timer → Option Timer
cascade t =
    if bit_and t.time time_least_mask == 0
    then (if t.time == 0
        then none
        else (cascade_level time_level_count 0 (t.time / 2 ^ time_least_shift) >>= λ slot.
            requeue t slot))
    else some t

-- The nodes come out in the order in which `_send_list` sends them.
pub tick : Timer → Option (List TimerNode × Timer)
tick t = cascade (advance t) >>= λ t'. some (due t, t')

-- The loop of `_update` with fuel.
pub update_time : (fuel : ℕ) → Timer → ℕ → Option (List TimerNode × Timer)
update_time zero t time = none
update_time (suc fuel) t time =
    let step : Option (List TimerNode × Timer) =
      tick t >>= λ r. update_time fuel r.1 time >>= λ s. some (r.0 ++ s.0, s.1) in
    if ltb t.time time then step else some ([], t)

-- `_update`: each round adds 1 to the time, so the distance bounds the rounds.
pub update_timer : Timer → ℕ → Option (List TimerNode × Timer)
update_timer t time = update_time (time - t.time + 1) t time

pub timeout : Timer → (source session msecs : ℕ) → Option Timer
timeout t source session msecs =
    queue t (record { expire = (t.time + msecs) % uint64_mod; source = source; session = session })
