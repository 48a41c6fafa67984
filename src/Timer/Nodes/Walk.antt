-- ===== src/Timer/Nodes/Walk.antt =====
-- The walk of `_send_list` in src/time.cpp over a list that was cleared.
use stp.Prelude.{
  ℕ, zero, suc, ◌≤◌, ◌<◌, ◌≡◌, ◌≢◌, refl, sym, ap, subst, false, List, [], ◌∷◌, map, length, some,
  arith, ◌==◌, occurs,
}
use stp.Wild.{FreeList}
use stp.Timer.Nodes.{TimerList, next_of, Memory, store, free_node, send_list}
use stp.Timer.Nodes.Chain.{occurs-other, Distinct, Linked, Linked-frame}
use stp.Timer.Nodes.Frame.{Holds, Loose}
use stp.Timer.Nodes.Frees.{free_node-Holds}

-- The walk ends, and what it sends and leaves.
pub record Sends {fl : FreeList} {link : ℕ → ℕ} (m : Memory fl link) (content : TimerList → List ℕ)
    (p : ℕ) (nodes : List ℕ) : Type 0 where
  pub after : Memory fl link
  pub runs :
      (fuel : ℕ)
      → length nodes < fuel
      → send_list fl link fuel m p ≡ some (map m.payload nodes, after)
  pub holds : Holds after content
  pub payload_same : after.payload ≡ m.payload
  pub loose : (x : ℕ) → occurs x nodes ≡ 0 → Loose m content x → Loose after content x

free_node-Loose :
    {fl : FreeList} {link : ℕ → ℕ} (m : Memory fl link) (content : TimerList → List ℕ) (n x : ℕ)
    → (n == x) ≡ false
    → Loose m content x
    → Loose (free_node fl link m n) content x
unfolding free_node store
free_node-Loose {fl} m content n x e l = record {
  ne = l.ne;
  unheld = l.unheld;
  unfree = ground (arith, ap (occurs x) (fl.contents-push m.frees n), l.unfree, e);
}

free_node-next :
    {fl : FreeList} {link : ℕ → ℕ} (m : Memory fl link) (n : ℕ) (ns : List ℕ)
    → occurs n ns ≡ 0
    → Linked m.cells (m.cells (next_of n)) ns
    → Linked (free_node fl link m n).cells (m.cells (next_of n)) ns
unfolding free_node store
free_node-next {fl} {link} m n ns new c =
    Linked-frame m.cells (free_node fl link m n).cells (next_of n) (m.cells (next_of n)) ns
      (λ y e. rw e refl) new c

send_list-node :
    {fl : FreeList} {link : ℕ → ℕ} (m after : Memory fl link) (p n : ℕ) (ns : List ℕ)
    → p ≡ n
    → n ≢ 0
    → ((fuel : ℕ)
        → length ns < fuel
        → send_list fl link fuel (free_node fl link m n) (m.cells (next_of n))
          ≡ some (map (free_node fl link m n).payload ns, after))
    → (fuel : ℕ) → length (n ∷ ns) < fuel
    → send_list fl link fuel m p ≡ some (map m.payload (n ∷ ns), after)
unfolding send_list free_node store
send_list-node {fl} {link} m after p n ns here ne e zero le = absurd (omega (arith, le))
send_list-node {fl} {link} m after p n ns here ne e (suc fuel) le =
    subst (λ q. send_list fl link (suc fuel) m q ≡ some (map m.payload (n ∷ ns), after)) (sym here)
      (let nz : (n == 0) ≡ false = ground (arith, ne) in rw (nz, e fuel (omega (arith, le))) refl)

send_list-nil :
    {fl : FreeList} {link : ℕ → ℕ} (m : Memory fl link) (fuel : ℕ)
    → 0 < fuel
    → send_list fl link fuel m 0 ≡ some ([], m)
unfolding send_list
send_list-nil m zero le = absurd (omega (arith, le))
send_list-nil m (suc fuel) le = refl

pub send_list-Sends :
    {fl : FreeList} {link : ℕ → ℕ} (m : Memory fl link) (content : TimerList → List ℕ) (p : ℕ)
    (nodes : List ℕ)
    → Holds m content
    → Linked m.cells p nodes
    → Distinct nodes
    → ((x : ℕ) → 1 ≤ occurs x nodes → Loose m content x)
    → Sends m content p nodes
unfolding free_node store
send_list-Sends m content p [] h e d loose = record {
  after = m;
  runs = rw e (send_list-nil m);
  holds = h;
  payload_same = refl;
  loose = λ x o l. l;
}
send_list-Sends {fl} {link} m content p (n ∷ ns) h (here, ne, c) (new, d) loose =
    let l : Loose m content n = loose n (ground arith) in
    let r : Sends (free_node fl link m n) content (m.cells (next_of n)) ns =
      send_list-Sends (free_node fl link m n) content (m.cells (next_of n)) ns
        (free_node-Holds h n l) (free_node-next m n ns new c) d
        (λ x q.
          free_node-Loose m content n x (occurs-other n x ns new q)
            (loose x (ground (arith, q)))) in
    record {
      after = r.after;
      runs = send_list-node m r.after p n ns here ne r.runs;
      holds = r.holds;
      payload_same = r.payload_same;
      loose = λ x o q.
          r.loose x (omega (arith, o)) (free_node-Loose m content n x (ground (arith, o)) q);
    }
