-- ===== src/Timer/Nodes/Wheel/Lists.antt =====
-- The lists of the timer of src/time.cpp as sequences of nodes, and the list that `_queue` chooses.
use stp.Prelude.{
  ℕ, ◌-◌, ◌^◌, ◌≡◌, refl, ap, inl, inr, List, [], map, some, ◌==◌, ==→eq, ltb, if◌then◌else◌, ◌>>=◌,
  update, Bool-cases, Option-cases,
}
use stp.Timer.{
  TimerNode, Timer, empty, list_append, append_least, append_level, set_level, queue, queue_level,
  level_value, time_level_count, time_least_shift, time_least_value,
}
use stp.Timer.Nodes.{TimerList, least_list, level_list, same_list, update_at}
use stp.Timer.Nodes.Wheel.{target}

abbrev pub lists : Timer → TimerList → List TimerNode
lists t (least_list i) = t.least i
lists t (level_list l v) = t.level l v

-- A timer with one list replaced.
abbrev pub set_list : Timer → TimerList → List TimerNode → Timer
set_list t (least_list i) l = record t { least = update t.least i l }
set_list t (level_list level v) l = set_level t level v l

pub lists-set_list :
    (t : Timer) (l : TimerList) (list : List TimerNode) (k : TimerList)
    → lists (set_list t l list) k ≡ update_at (lists t) l list k
lists-set_list t (least_list i) list (least_list j) = refl
lists-set_list t (least_list i) list (level_list k w) = refl
lists-set_list t (level_list l v) list (least_list j) = refl
lists-set_list t (level_list l v) list (level_list k w) = elim (Bool-cases (l == k)) [
  | inl e ↦ rw e (ap (λ j. if v == w then list else t.level j w) (==→eq l k e))
  | inr e ↦ rw e refl
]

pub time-set_list :
    (t : Timer) (l : TimerList) (list : List TimerNode) → (set_list t l list).time ≡ t.time
time-set_list t (least_list i) list = refl
time-set_list t (level_list l v) list = refl

pub lists-empty : (l : TimerList) → lists empty l ≡ []
unfolding empty
lists-empty (least_list i) = refl
lists-empty (level_list l v) = refl

-- Lists of nodes that stand for those of a timer, with one replaced on both sides.
pub map-update_at :
    (payload : ℕ → TimerNode) (content : TimerList → List ℕ) (t : Timer)
    → ((l : TimerList) → map payload (content l) ≡ lists t l)
    → (l : TimerList) (ns : List ℕ) (list : List TimerNode) → map payload ns ≡ list
    → (k : TimerList) → map payload (update_at content l ns k) ≡ lists (set_list t l list) k
map-update_at payload content t same l ns list e k =
    rw (lists-set_list t l list k)
      (elim (Bool-cases (same_list l k)) [ inl q ↦ rw q e | inr q ↦ rw q (same k) ])

pub queue-target :
    (t : Timer) (n : TimerNode)
    → queue t n ≡ (target t.time n.expire >>= λ l. some (set_list t l (list_append (lists t l) n)))
unfolding queue target append_least append_level
queue-target t n = elim (Bool-cases (ltb n.expire t.time)) [
  | inl e ↦ rw e refl
  | inr e ↦ elim (Bool-cases (ltb (n.expire - t.time) time_least_value)) [
    | inl e' ↦ rw (e, e') refl
    | inr e' ↦
        elim (Option-cases
          (queue_level time_level_count 0 (2 ^ time_least_shift) n.expire t.time)) [
            | inl q ↦ rw (e, e', q) refl
            | inr (level, q) ↦ elim (Bool-cases (level_value level n.expire == 0)) [
              | inl z ↦ rw (e, e', q, z) refl
              | inr z ↦ rw (e, e', q, z) refl
            ]
          ]
  ]
]
