-- ===== src/Timer/Examples.antt =====
-- Tests of the timer model, and the theorems at concrete timers.
use stp.Prelude.{
  ℕ, ◌+◌, ◌-◌, ◌^◌, ◌>>=◌, ◌≡◌, refl, some, none, List, [], ◌∷◌, All, arith, update, update_all,
  ◌==◌, if◌then◌else◌, Option,
}
use stp.Timer.{
  TimerNode, Timer, due, queue, append_least, tick, update_timer, update_time, timeout, advance,
  cascade, cascade_level, requeue, queue_list,
}
use stp.Timer.Invariant.{IsFar, Inv}
use stp.Timer.Update.{Updated, node_at, update_timer-Updated}

abbrev node : TimerNode
node = node_at (2 ^ 14 + 5) 7 1

-- The near wheel is about to turn, and a node waits in the first slot of level 0.
abbrev busy : Timer
busy = record {
  time = 2 ^ 14 - 1;
  least = λ i. [];
  level = update (λ l i. []) 0 (update (λ i. []) 0 (node ∷ []));
}

busy-Inv : Inv busy
busy-Inv = record {
  fits = omega arith;
  near = λ i. tt;
  far =
      update_all (λ l slots. (v : ℕ) → All (IsFar (2 ^ 14 - 1) l v) (slots v)) (λ l i. []) 0
        (update (λ i. []) 0 (node ∷ [])) (λ l v. tt)
        (update_all (λ v list. All (IsFar (2 ^ 14 - 1) 0 v) list) (λ i. []) 0 (node ∷ []) (λ v. tt)
          (
            record {
              fits = omega arith;
              in_range = omega arith;
              slot = refl;
              ahead = omega arith;
              shared = refl;
            },
            tt,
          ));
}

update_timer-Updated_example :
    (t' : Timer) × (sent : List TimerNode) × (update_timer busy (2 ^ 14 + 9) ≡ some (sent, t'))
    × Updated busy (2 ^ 14 + 9) t' sent
update_timer-Updated_example =
    update_timer-Updated busy (2 ^ 14 + 9) busy-Inv (omega arith) (omega arith)

abbrev for_process : ℕ → TimerNode → ℕ
for_process source n = if n.expire == 2 ^ 14 + 5 then (if n.source == source then 1 else 0) else 0

-- The two nodes come out when their time is over, the one that was queued first behind the other:
-- of equal deadlines the list in `least` that a node is put in first decides.
abbrev sent_by : Option (List TimerNode × Timer) → List TimerNode
sent_by none = []
sent_by (some (sent, t)) = sent

sends_both :
    sent_by (timeout busy 7 3 6 >>= λ t. update_timer t (2 ^ 14 + 6))
    ≡ node_at (2 ^ 14 + 5) 7 3 ∷ node ∷ []
unfolding timeout queue append_least update_timer update_time tick due advance cascade cascade_level
    requeue queue_list
sends_both = refl
