-- ===== src/Timer/Nodes/Wheel/Examples.antt =====
-- The theorem on the timer of src/time.cpp in memory at a run: a timeout that is near, one that is far,
-- and the updates at which they fire.
use stp.Prelude.{ℕ, ◌+◌, ◌*◌, ◌≡◌, List, [], ◌∷◌, some, arith}
use stp.Wild.{list_frees}
use stp.Timer.{TimerNode}
use stp.Timer.Service.{ServiceMessage, timeout_request, update_message}
use stp.Timer.Service.Bag.{AllSends, bag_all}
use stp.Timer.Nodes.{Slot}
use stp.Timer.Nodes.Wheel.{Wheel, constructed, serve_all_nodes}
use stp.Timer.Nodes.Wheel.Refines.{IsHeap}
use stp.Timer.Nodes.Wheel.Run.{serve_all_nodes-AllSends}

abbrev messages : List ServiceMessage
messages =
    timeout_request 3 4 20000
    ∷ timeout_request 3 5 7
    ∷ update_message 10
    ∷ timeout_request 6 7 0
    ∷ update_message 20001
    ∷ []

-- The nodes are 32 bytes apart.
abbrev heap : ℕ → ℕ
heap k = 4096 + 32 * k

heap-IsHeap : IsHeap heap
heap-IsHeap = record {
  ne = λ k e. absurd (omega (arith, e));
  injective = λ j k e. omega (arith, e);
}

abbrev cells : Slot → ℕ
cells s = 77

abbrev payload : ℕ → TimerNode
payload n = record { expire = n; source = 1; session = 1 }

serve_all_nodes-AllSends_example :
    (enough : ℕ) × (sents : List (List TimerNode)) × (after : Wheel list_frees (λ n. n) heap)
    × ((more : ℕ)
        → serve_all_nodes list_frees
            (λ n. n)
            heap
            (enough + more)
            (constructed list_frees (λ n. n) heap cells payload)
            messages
          ≡ some (sents, after))
    × AllSends sents (bag_all (record { time = 0; nodes = [] }) messages)
serve_all_nodes-AllSends_example =
    serve_all_nodes-AllSends list_frees (λ n. n) heap cells payload messages heap-IsHeap
      (
        omega arith,
        (
          omega arith,
          ((omega arith, omega arith), (omega arith, ((omega arith, omega arith), tt))),
        ),
      )
