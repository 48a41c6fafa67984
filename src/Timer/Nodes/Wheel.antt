-- ===== src/Timer/Nodes/Wheel.antt =====
-- The operations of the timer of src/time.cpp on its lists in memory: what `Timer` says of sequences
-- of nodes, done with pointers.
--
-- `heap` gives the addresses that `new timer_node` would return, one for each request. The loops over
-- a list run on fuel, since the links could form a circle.
pub mod Lists
pub mod Refines
pub mod Queue
pub mod Tick
pub mod Serve
pub mod Run
mod Examples
use Prim.Native.Nat.{bit_and}
use stp.Prelude.{
  ℕ, zero, suc, ◌+◌, ◌-◌, ◌/◌, ◌%◌, ◌^◌, List, [], ◌∷◌, ◌++◌, Option, none, some, ◌==◌, ltb,
  if◌then◌else◌, ◌>>=◌, update,
}
use stp.Wild.{FreeList}
use stp.Timer.{
  TimerNode, time_least_shift, time_least_value, time_least_mask, time_level_shift,
  time_level_count, uint64_mod, queue_level, level_value, cascade_level,
}
use stp.Timer.Service.{ServiceMessage, timeout_request, update_message}
use stp.Timer.Nodes.{
  TimerList, least_list, level_list, Slot, first_of, next_of, Memory, list_append, list_clear,
  new_node, send_list,
}

-- The list to which `_queue` appends a node, if its assertions hold.
pub target : (time expire : ℕ) → Option TimerList
target time expire =
    if ltb expire time
    then none
    else (if ltb (expire - time) time_least_value
        then some (least_list (bit_and expire time_least_mask))
        else (queue_level time_level_count 0 (2 ^ time_least_shift) expire time >>= λ level.
            if level_value level expire == 0
            then none
            else some (level_list level (level_value level expire - 1))))

module _ (fl : FreeList) (link heap : ℕ → ℕ) where
  pub record Wheel : Type 0 where
    pub time : ℕ
    pub made : ℕ
    pub memory : Memory fl link

  -- No node is made or free, and each list ends in itself, as its initialiser says; the pointers
  -- hold anything.
  pub constructed : (cells : Slot → ℕ) (payload : ℕ → TimerNode) → Wheel
  constructed cells payload = record {
    time = 0;
    made = 0;
    memory = record { cells = cells; last = first_of; payload = payload; frees = fl.no_frees };
  }

  -- `_queue`.
  pub queue_node : Wheel → (node : ℕ) → Option Wheel
  queue_node w node = target w.time (w.memory.payload node).expire >>= λ list.
      some (record w { memory = list_append fl link w.memory list node })

  -- `_queue_list`.
  pub queue_nodes : (fuel : ℕ) → Wheel → (list : ℕ) → Option Wheel
  queue_nodes zero w list = none
  queue_nodes (suc fuel) w list =
      let next : ℕ = w.memory.cells (next_of list) in
      let rest : Option Wheel = queue_node w list >>= λ w'. queue_nodes fuel w' next in
      if list == 0 then some w else rest

  -- `_queue_list(t, _list_clear(&t->level[level][value-1]))`.
  pub requeue_nodes : (fuel : ℕ) → Wheel → ℕ × ℕ → Option Wheel
  requeue_nodes fuel w (level, value) =
      let (list, memory) = list_clear fl link w.memory (level_list level (value - 1)) in
      queue_nodes fuel (record w { memory = memory }) list

  -- The rest of `_tick`, from the test of the new time on.
  pub cascade_nodes : (fuel : ℕ) → Wheel → Option Wheel
  cascade_nodes fuel w =
      if bit_and w.time time_least_mask == 0
      then (if w.time == 0
          then none
          else (cascade_level time_level_count 0 (w.time / 2 ^ time_least_shift) >>= λ slot.
              requeue_nodes fuel w slot))
      else some w

  -- `_send_list(t, _list_clear(&t->least[index]))`.
  pub send_due : (fuel : ℕ) → Wheel → Option (List TimerNode × Memory fl link)
  send_due fuel w =
      let (list, memory) =
        list_clear fl link w.memory (least_list (bit_and w.time time_least_mask)) in
      send_list fl link fuel memory list

  -- `_tick`: what is sent, and the timer.
  pub tick_nodes : (fuel : ℕ) → Wheel → Option (List TimerNode × Wheel)
  tick_nodes fuel w = send_due fuel w >>= λ r.
      cascade_nodes fuel (record w { time = (w.time + 1) % uint64_mod; memory = r.1 }) >>= λ w'.
      some (r.0, w')

  -- The loop of `_update`, a number of rounds at most.
  pub update_nodes : (rounds fuel : ℕ) → Wheel → ℕ → Option (List TimerNode × Wheel)
  update_nodes zero fuel w time = none
  update_nodes (suc rounds) fuel w time =
      let step : Option (List TimerNode × Wheel) = tick_nodes fuel w >>= λ r.
      update_nodes rounds fuel r.1 time >>= λ s. some (r.0 ++ s.0, s.1) in
      if ltb w.time time then step else some ([], w)

  -- `_timeout`.
  pub timeout_node : Wheel → (source session timeout : ℕ) → Option Wheel
  timeout_node w source session timeout =
      let (node, memory) = new_node fl link w.memory (heap w.made) in
      let content : TimerNode = record {
        expire = (w.time + timeout) % uint64_mod;
        source = source;
        session = session;
      } in
      queue_node
        (record w {
          made = w.made + 1;
          memory = record memory { payload = update memory.payload node content };
        })
        node

  -- The callbacks of `_main`.
  pub serve_nodes : (fuel : ℕ) → Wheel → ServiceMessage → Option (List TimerNode × Wheel)
  serve_nodes fuel w (timeout_request source session msecs) =
      timeout_node w source session msecs >>= λ w'. some ([], w')
  serve_nodes fuel w (update_message timestamp) =
      update_nodes (timestamp - w.time + 1) fuel w timestamp

  pub serve_all_nodes :
      (fuel : ℕ) → Wheel → List ServiceMessage → Option (List (List TimerNode) × Wheel)
  serve_all_nodes fuel w [] = some ([], w)
  serve_all_nodes fuel w (x ∷ xs) =
      serve_nodes fuel w x >>= λ r. serve_all_nodes fuel r.1 xs >>= λ s. some (r.0 ∷ s.0, s.1)
