-- ===== src/Timer/Nodes/Wheel/Queue.antt =====
-- `_queue` and `_queue_list` of src/time.cpp in memory do what they do to the sequences.
use stp.Prelude.{
  ℕ, zero, suc, ◌≤◌, ◌<◌, ◌≡◌, ◌≢◌, refl, sym, subst, ◌∙◌, false, List, [], ◌∷◌, ◌++◌, map, length,
  Option, some, bind-some, arith, ◌==◌, occurs,
}
use stp.Wild.{FreeList}
use stp.Timer.{Timer, queue, queue_list}
use stp.Timer.Nodes.{TimerList, update_at, next_of, Memory, store, list_append}
use stp.Timer.Nodes.Chain.{occurs-other, Distinct, Linked, Linked-frame}
use stp.Timer.Nodes.Frame.{Loose}
use stp.Timer.Nodes.Loose.{list_append-Loose, last-Outside}
use stp.Timer.Nodes.Wheel.{Wheel, target, queue_node, queue_nodes}
use stp.Timer.Nodes.Wheel.Lists.{lists, set_list, queue-target}
use stp.Timer.Nodes.Wheel.Refines.{Refines, append-Refines}

module _ {fl : FreeList} {link heap : ℕ → ℕ} where
  abbrev pub appended : Wheel fl link heap → TimerList → ℕ → Wheel fl link heap
  appended w l n = record w { memory = list_append fl link w.memory l n }

  -- Both append to the same list.
  pub queue_node-target :
      (w : Wheel fl link heap) (n : ℕ) (t t' : Timer)
      → w.time ≡ t.time
      → queue t (w.memory.payload n) ≡ some t'
      → (l : TimerList) × (queue_node fl link heap w n ≡ some (appended w l n))
        × (set_list t l (lists t l ++ w.memory.payload n ∷ []) ≡ t')
  unfolding queue_node
  queue_node-target w n t t' same e =
      let (l, chosen, made) =
        bind-some (target t.time (w.memory.payload n).expire)
          (λ l. some (set_list t l (lists t l ++ w.memory.payload n ∷ []))) t'
          (sym (queue-target t (w.memory.payload n)) ∙ e) in
      (
        l,
        (let there : target w.time (w.memory.payload n).expire ≡ some l = rw same chosen in
            rw there refl),
        cc made,
      )

  -- The nodes are put back, and the lists stand for what the sequences say.
  pub record Requeued (w : Wheel fl link heap) (p : ℕ) (nodes : List ℕ) (t' : Timer) : Type 0 where
    pub after : Memory fl link
    pub content : TimerList → List ℕ
    pub runs :
        (fuel : ℕ)
        → length nodes < fuel
        → queue_nodes fl link heap fuel w p ≡ some (record w { memory = after })
    pub refines : Refines (record w { memory = after }) content t'

  queue_nodes-next :
      (w w' : Wheel fl link heap) (p n : ℕ) (ns : List ℕ) (result : Option (Wheel fl link heap))
      → p ≡ n
      → n ≢ 0
      → queue_node fl link heap w n ≡ some w'
      → ((fuel : ℕ)
          → length ns < fuel
          → queue_nodes fl link heap fuel w' (w.memory.cells (next_of n)) ≡ result)
      → (fuel : ℕ) → length (n ∷ ns) < fuel
      → queue_nodes fl link heap fuel w p ≡ result
  unfolding queue_nodes
  queue_nodes-next w w' p n ns result here ne e rest zero le = absurd (omega (arith, le))
  queue_nodes-next w w' p n ns result here ne e rest (suc fuel) le =
      subst (λ q. queue_nodes fl link heap (suc fuel) w q ≡ result) (sym here)
        (let nz : (n == 0) ≡ false = ground (arith, ne) in
          rw (nz, e) (rest fuel (omega (arith, le))))

  appended-Linked :
      (w : Wheel fl link heap) (content : TimerList → List ℕ) (t : Timer)
      → Refines w content t
      → (l : TimerList) (n p : ℕ) (ns : List ℕ)
      → ((x : ℕ) → 1 ≤ occurs x ns → Loose w.memory content x)
      → Linked w.memory.cells p ns
      → Linked (appended w l n).memory.cells p ns
  unfolding list_append store
  appended-Linked w content t r l n p ns loose =
      Linked-frame w.memory.cells (appended w l n).memory.cells (w.memory.last l) p ns
        (λ y e. rw e refl)
        (last-Outside w.memory content r.holds l ns (λ x q. (loose x q).unheld l))

  queue_nodes-nil :
      (w : Wheel fl link heap) (fuel : ℕ) → 0 < fuel → queue_nodes fl link heap fuel w 0 ≡ some w
  unfolding queue_nodes
  queue_nodes-nil w zero le = absurd (omega (arith, le))
  queue_nodes-nil w (suc fuel) le = refl

  pub queue_nodes-Requeued :
      (w : Wheel fl link heap) (content : TimerList → List ℕ) (t t' : Timer) (p : ℕ)
      (nodes : List ℕ)
      → Refines w content t
      → Linked w.memory.cells p nodes
      → Distinct nodes
      → ((x : ℕ) → 1 ≤ occurs x nodes → Loose w.memory content x)
      → ((k : ℕ) → w.made ≤ k → occurs (heap k) nodes ≡ 0)
      → queue_list t (map w.memory.payload nodes) ≡ some t'
      → Requeued w p nodes t'
  unfolding queue_list list_append store
  queue_nodes-Requeued w content t t' p [] r c d loose other e = record {
    after = w.memory;
    content = content;
    runs = rw c (queue_nodes-nil w);
    refines = subst (λ x. Refines w content x) (cc e) r;
  }
  queue_nodes-Requeued w content t t' p (n ∷ ns) r (here, ne, c) (new, d) loose other e =
      let (t₁, first, rest) =
        bind-some (queue t (w.memory.payload n)) (λ x. queue_list x (map w.memory.payload ns)) t'
          e in
      let (l, chosen, same) = queue_node-target w n t t₁ r.time first in
      let others : (x : ℕ) → 1 ≤ occurs x ns → Loose w.memory content x =
        λ x q. loose x (omega (arith, q)) in
      let r₁ : Refines (appended w l n) (update_at content l (content l ++ n ∷ [])) t₁ =
        subst (λ x. Refines (appended w l n) (update_at content l (content l ++ n ∷ [])) x) same
          (append-Refines w content t r l n (loose n (ground arith))
            (λ k q. omega (arith, other k q))) in
      let q : Requeued (appended w l n) (w.memory.cells (next_of n)) ns t' =
        queue_nodes-Requeued (appended w l n) (update_at content l (content l ++ n ∷ [])) t₁ t'
          (w.memory.cells (next_of n)) ns r₁
          (appended-Linked w content t r l n (w.memory.cells (next_of n)) ns others c) d
          (λ x k.
            list_append-Loose w.memory content l n x (ground (arith, occurs-other n x ns new k))
              (others x k))
          (λ k j. omega (arith, other k j)) rest in
      record {
        after = q.after;
        content = q.content;
        runs =
            queue_nodes-next w (appended w l n) p n ns (some (record w { memory = q.after })) here
              ne chosen q.runs;
        refines = q.refines;
      }
