-- ===== src/Timer/Nodes/Wheel/Tick.antt =====
-- `_tick` of src/time.cpp in memory does what it does to the sequences.
use Prim.Native.Nat.{bit_and}
use stp.Prelude.{
  ℕ, ◌+◌, ◌-◌, ◌/◌, ◌%◌, ◌^◌, ◌≤◌, ◌<◌, ◌≡◌, refl, sym, ap, subst, ◌∙◌, inl, inr, true, false, List,
  [], map, length, Option, none, some, ◌>>=◌, bind-some, arith, ◌==◌, Bool-cases,
}
use stp.Wild.{FreeList}
use stp.Timer.{
  TimerNode, Timer, queue_list, cascade, cascade_level, requeue, advance, due, tick,
  time_least_mask, time_least_shift, time_level_count,
}
use stp.Timer.Nodes.{
  TimerList, least_list, level_list, update_at, Memory, store, list_init, list_clear, send_list,
}
use stp.Timer.Nodes.Frame.{list_clear-Holds}
use stp.Timer.Nodes.Loose.{list_clear-Loose, list_clear-freed}
use stp.Timer.Nodes.Walk.{Sends, send_list-Sends}
use stp.Timer.Nodes.Wheel.{Wheel, requeue_nodes, cascade_nodes, send_due, tick_nodes}
use stp.Timer.Nodes.Wheel.Lists.{lists, set_list, map-update_at}
use stp.Timer.Nodes.Wheel.Refines.{Refines, clear-Refines}
use stp.Timer.Nodes.Wheel.Queue.{Requeued, queue_nodes-Requeued}

-- With enough fuel a run has a result, whose lists are those of a timer.
pub record Runs {fl : FreeList} {link heap : ℕ → ℕ} {B : Type 0} (run : ℕ → Option B)
    (result : Wheel fl link heap → B) (t' : Timer) : Type 0 where
  pub enough : ℕ
  pub after : Wheel fl link heap
  pub content : TimerList → List ℕ
  pub runs : (fuel : ℕ) → enough ≤ fuel → run fuel ≡ some (result after)
  pub refines : Refines after content t'

module _ {fl : FreeList} {link heap : ℕ → ℕ} (w : Wheel fl link heap) (content : TimerList → List ℕ)
    (t : Timer) (r : Refines w content t) where
  clear-shown :
      (l : TimerList)
      → queue_list (set_list t l []) (map (list_clear fl link w.memory l).1.payload (content l))
        ≡ queue_list (set_list t l []) (lists t l)
  unfolding list_clear list_init store
  clear-shown l = ap (queue_list (set_list t l [])) (r.shows l)

  clear-Requeued :
      (l : TimerList) (t' : Timer)
      → queue_list (set_list t l []) (lists t l) ≡ some t'
      → Requeued
          (record w { memory = (list_clear fl link w.memory l).1 })
          (list_clear fl link w.memory l).0
          (content l)
          t'
  clear-Requeued l t' e =
      queue_nodes-Requeued (record w { memory = (list_clear fl link w.memory l).1 })
        (update_at content l []) (set_list t l []) t' (list_clear fl link w.memory l).0 (content l)
        (clear-Refines w content t r l) (list_clear-Holds r.holds l).1 (r.holds.distinct l)
        (list_clear-freed w.memory content r.holds l) (λ k p. (r.unused k p).unheld l)
        (clear-shown l ∙ e)

  requeue-Runs :
      (slot : ℕ × ℕ) (t' : Timer)
      → requeue t slot ≡ some t'
      → Runs {fl = fl} {link = link} {heap = heap}
          (λ fuel. requeue_nodes fl link heap fuel w slot)
          (λ x. x)
          t'
  unfolding requeue requeue_nodes
  requeue-Runs (level, value) t' e =
      let l : TimerList = level_list level (value - 1) in
      let q = clear-Requeued l t' e in
      record {
        enough = length (content l) + 1;
        after = record w { memory = q.after };
        content = q.content;
        runs = λ fuel le. q.runs fuel (omega (arith, le));
        refines = q.refines;
      }

  -- Nothing is done in memory.
  stay-Runs :
      (t' : Timer)
      → t ≡ t'
      → Runs {fl = fl} {link = link} {heap = heap} (λ fuel. some w) (λ x. x) t'
  stay-Runs t' e = record {
    enough = 0;
    after = w;
    content = content;
    runs = λ fuel le. refl;
    refines = subst (λ x. Refines w content x) e r;
  }

  pub cascade-Runs :
      (t' : Timer)
      → cascade t ≡ some t'
      → Runs {fl = fl} {link = link} {heap = heap}
          (λ fuel. cascade_nodes fl link heap fuel w)
          (λ x. x)
          t'
  unfolding cascade cascade_nodes
  cascade-Runs t' e = elim (Bool-cases (bit_and t.time time_least_mask == 0)) [
    | inl turn ↦ elim (Bool-cases (t.time == 0)) [
      | inl z ↦ absurd (let f : cascade t ≡ none = rw (turn, z) refl in cc (e, f))
      | inr z ↦
          let f : cascade t ≡ (
              cascade_level time_level_count 0 (t.time / 2 ^ time_least_shift) >>= λ slot.
              requeue t slot) =
            rw (turn, z) refl in
          let (slot, found, done) =
            bind-some (cascade_level time_level_count 0 (t.time / 2 ^ time_least_shift))
              (λ slot. requeue t slot) t' (sym f ∙ e) in
          let turn' : (bit_and w.time time_least_mask == 0) ≡ true = rw r.time turn in
          let z' : (w.time == 0) ≡ false = rw r.time z in
          let found' : cascade_level time_level_count 0 (w.time / 2 ^ time_least_shift)
              ≡ some slot =
            rw r.time found in
          rw (turn', z', found') (requeue-Runs slot t' done)
    ]
    | inr turn ↦
        let f : cascade t ≡ some t = rw turn refl in
        let turn' : (bit_and w.time time_least_mask == 0) ≡ false = rw r.time turn in
        rw turn' (stay-Runs t' (cc (e, f)))
  ]

-- The list that a tick sends, and the timer in between.
abbrev due_list : Timer → TimerList
due_list t = least_list (bit_and t.time time_least_mask)

lists-advance :
    (t : Timer) (k : TimerList) → lists (advance t) k ≡ lists (set_list t (due_list t) []) k
unfolding advance
lists-advance t (least_list i) = refl
lists-advance t (level_list l v) = refl

module _ {fl : FreeList} {link heap : ℕ → ℕ} (w : Wheel fl link heap) (content : TimerList → List ℕ)
    (t : Timer) (r : Refines w content t) where
  abbrev cleared : ℕ × Memory fl link
  cleared = list_clear fl link w.memory (due_list t)

  abbrev left : TimerList → List ℕ
  left = update_at content (due_list t) []

  cleared-Sends : Sends cleared.1 left cleared.0 (content (due_list t))
  cleared-Sends =
      send_list-Sends cleared.1 left cleared.0 (content (due_list t))
        (list_clear-Holds r.holds (due_list t)).0 (list_clear-Holds r.holds (due_list t)).1
        (r.holds.distinct (due_list t)) (list_clear-freed w.memory content r.holds (due_list t))

  -- The timer in memory when the nodes are sent.
  abbrev advanced : Wheel fl link heap
  advanced = record w { time = (w.time + 1) % 2 ^ 64; memory = cleared-Sends.after }

  advanced-Refines : Refines advanced left (advance t)
  unfolding advance list_clear list_init store
  advanced-Refines = record {
    holds = cleared-Sends.holds;
    time = ap (λ x. (x + 1) % 2 ^ 64) r.time;
    shows = λ k.
        subst (λ f. map f (left k) ≡ lists (advance t) k) (sym cleared-Sends.payload_same)
          (map-update_at w.memory.payload content t r.shows (due_list t) [] [] refl k
            ∙ sym (lists-advance t k));
    unused = λ k le.
        cleared-Sends.loose (heap k) ((r.unused k le).unheld (due_list t))
          (list_clear-Loose w.memory content (due_list t) (heap k) (r.unused k le));
  }

  send_due-due :
      (fuel : ℕ)
      → length (content (due_list t)) < fuel
      → send_due fl link heap fuel w ≡ some (due t, cleared-Sends.after)
  unfolding send_due due list_clear list_init store
  send_due-due fuel le =
      subst
        (λ x.
          send_list fl link fuel
            (list_clear fl link w.memory (least_list (bit_and x time_least_mask))).1
            (list_clear fl link w.memory (least_list (bit_and x time_least_mask))).0
          ≡ some (due t, cleared-Sends.after))
        (sym r.time)
        (cleared-Sends.runs fuel le
          ∙ ap (λ x. some (x, cleared-Sends.after)) (r.shows (due_list t)))

  pub tick-Runs :
      (sent : List TimerNode) (t' : Timer)
      → tick t ≡ some (sent, t')
      → Runs {fl = fl} {link = link} {heap = heap}
          (λ fuel. tick_nodes fl link heap fuel w)
          (λ x. (sent, x))
          t'
  unfolding tick tick_nodes
  tick-Runs sent t' e =
      let (t₁, done, same) = bind-some (cascade (advance t)) (λ x. some (due t, x)) (sent, t') e in
      let c = cascade-Runs advanced left (advance t) advanced-Refines t₁ done in
      let outputs : due t ≡ sent = cc same in
      record {
        enough = length (content (due_list t)) + 1 + c.enough;
        after = c.after;
        content = c.content;
        runs = λ fuel le.
            rw (send_due-due fuel (omega (arith, le)), c.runs fuel (omega (arith, le)), outputs)
              refl;
        refines = subst (λ x. Refines c.after c.content x) (cc same) c.refines;
      }
