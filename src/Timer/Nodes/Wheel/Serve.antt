-- ===== src/Timer/Nodes/Wheel/Serve.antt =====
-- A message to the timer of src/time.cpp, in memory and on the sequences.
use stp.Prelude.{
  ℕ, zero, suc, ◌+◌, ◌-◌, ◌%◌, ◌^◌, ◌≤◌, ◌≡◌, ◌≢◌, refl, sym, subst, ◌∙◌, inl, inr, true, false,
  List, [], ◌∷◌, ◌++◌, map, Option, none, some, ◌>>=◌, bind-some, arith, ==_refl, ltb, update,
  Bool-cases, Option-cases,
}
use stp.Wild.{FreeList}
use stp.Timer.{TimerNode, Timer, queue, timeout, tick, update_time, update_timer}
use stp.Timer.Service.{ServiceMessage, timeout_request, update_message, serve}
use stp.Timer.Nodes.{TimerList, update_at, Memory, new_node}
use stp.Timer.Nodes.Frame.{Loose}
use stp.Timer.Nodes.Frees.{
  new_node-Holds, Holds-payload, Loose-payload, new_node-payload, map-update,
}
use stp.Timer.Nodes.Wheel.{Wheel, queue_node, update_nodes, timeout_node, serve_nodes}
use stp.Timer.Nodes.Wheel.Lists.{lists}
use stp.Timer.Nodes.Wheel.Refines.{Refines, IsHeap, append-Refines}
use stp.Timer.Nodes.Wheel.Queue.{queue_node-target, appended}
use stp.Timer.Nodes.Wheel.Tick.{Runs, tick-Runs}

module _ {fl : FreeList} {link heap : ℕ → ℕ} where
  pub update_nodes-Runs :
      (rounds : ℕ) (w : Wheel fl link heap) (content : TimerList → List ℕ) (t : Timer)
      → Refines w content t
      → (time : ℕ) (sent : List TimerNode) (t' : Timer)
      → update_time rounds t time ≡ some (sent, t')
      → Runs {fl = fl} {link = link} {heap = heap}
          (λ fuel. update_nodes fl link heap rounds fuel w time)
          (λ x. (sent, x))
          t'
  unfolding update_time update_nodes
  update_nodes-Runs zero w content t r time sent t' e = absurd (cc e)
  update_nodes-Runs (suc rounds) w content t r time sent t' e =
      elim (Bool-cases (ltb t.time time)) [
        | inl more ↦
            let step : update_time (suc rounds) t time
                ≡ (tick t >>= λ r. update_time rounds r.1 time >>= λ s. some (r.0 ++ s.0, s.1)) =
              rw more refl in
            let (a, first, rest) =
              bind-some (tick t) (λ r. update_time rounds r.1 time >>= λ s. some (r.0 ++ s.0, s.1))
                (sent, t') (sym step ∙ e) in
            let (b, second, same) =
              bind-some (update_time rounds a.1 time) (λ s. some (a.0 ++ s.0, s.1)) (sent, t')
                rest in
            let p = tick-Runs w content t r a.0 a.1 first in
            let q = update_nodes-Runs rounds p.after p.content a.1 p.refines time b.0 b.1 second in
            let more' : ltb w.time time ≡ true = rw r.time more in
            let outputs : a.0 ++ b.0 ≡ sent = cc same in
            record {
              enough = p.enough + q.enough;
              after = q.after;
              content = q.content;
              runs = λ fuel le.
                  rw
                    (
                      more',
                      p.runs fuel (omega (arith, le)),
                      q.runs fuel (omega (arith, le)),
                      outputs,
                    )
                    refl;
              refines = subst (λ x. Refines q.after q.content x) (cc same) q.refines;
            }
        | inr over ↦
            let stop : update_time (suc rounds) t time ≡ some ([], t) = rw over refl in
            let over' : ltb w.time time ≡ false = rw r.time over in
            let outputs : [] ≡ sent = cc (e, stop) in
            record {
              enough = 0;
              after = w;
              content = content;
              runs = λ fuel le. rw (over', outputs) refl;
              refines = subst (λ x. Refines w content x) (cc (e, stop)) r;
            }
      ]

  -- A node is made and filled.
  module _ (h : IsHeap heap) (w : Wheel fl link heap) (content : TimerList → List ℕ) (t : Timer)
      (r : Refines w content t) (n : TimerNode) where
    abbrev made_node : ℕ × Memory fl link
    made_node = new_node fl link w.memory (heap w.made)

    abbrev filled : Wheel fl link heap
    filled = record w {
      made = w.made + 1;
      memory = record made_node.1 { payload = update made_node.1.payload made_node.0 n };
    }

    made_node-Loose : Loose filled.memory content made_node.0
    made_node-Loose =
        Loose-payload made_node.1 content filled.memory.payload made_node.0
          (new_node-Holds r.holds (heap w.made) (r.unused w.made (omega arith))).1

    other_node :
        (k : ℕ) → w.made + 1 ≤ k → (heap k ≢ made_node.0) × Loose made_node.1 content (heap k)
    other_node k le =
        (new_node-Holds r.holds (heap w.made) (r.unused w.made (omega arith))).2 (heap k)
          (λ e. absurd (omega (arith, le, h.injective k w.made e))) (r.unused k (omega (arith, le)))

    filled-Refines : Refines filled content t
    filled-Refines = record {
      holds =
          Holds-payload made_node.1 content filled.memory.payload
            (new_node-Holds r.holds (heap w.made) (r.unused w.made (omega arith))).0;
      time = r.time;
      shows = λ l.
          map-update made_node.1.payload made_node.0 n (content l) (made_node-Loose.unheld l)
          ∙ subst (λ f. map f (content l) ≡ lists t l)
              (sym (new_node-payload fl link w.memory (heap w.made))) (r.shows l);
      unused = λ k le.
          Loose-payload made_node.1 content filled.memory.payload (heap k) (other_node k le).1;
    }

    -- `_timeout` queues it.
    queue-filled :
        (t' : Timer)
        → queue t n ≡ some t'
        → (l : TimerList) × (queue_node fl link heap filled made_node.0
            ≡ some (appended filled l made_node.0))
          × Refines
              (appended filled l made_node.0)
              (update_at content l (content l ++ made_node.0 ∷ []))
              t'
    queue-filled t' e =
        let stored : filled.memory.payload made_node.0 ≡ n = rw (==_refl made_node.0) refl in
        let (l, runs, same) =
          queue_node-target filled made_node.0 t t' r.time
            (subst (λ x. queue t x ≡ some t') (sym stored) e) in
        (
          l,
          runs,
          subst
              (λ x.
                Refines (appended filled l made_node.0)
                  (update_at content l (content l ++ made_node.0 ∷ [])) x)
              same
              (append-Refines filled content t filled-Refines l made_node.0 made_node-Loose
                (λ k le. let o = (other_node k le).0 in ground (arith, o))),
        )

  pub serve_nodes-Runs :
      IsHeap heap
      → (w : Wheel fl link heap) (content : TimerList → List ℕ) (t : Timer) → Refines w content t
      → (x : ServiceMessage) (sent : List TimerNode) (t' : Timer) → serve t x ≡ some (sent, t')
      → Runs {fl = fl} {link = link} {heap = heap}
          (λ fuel. serve_nodes fl link heap fuel w x)
          (λ x. (sent, x))
          t'
  unfolding serve serve_nodes timeout timeout_node update_timer
  serve_nodes-Runs h w content t r (timeout_request source session msecs) sent t' e =
      let n : TimerNode = record {
        expire = (t.time + msecs) % 2 ^ 64;
        source = source;
        session = session;
      } in
      elim (Option-cases (queue t n)) [
        | inl bad ↦ absurd (
            let f : serve t (timeout_request source session msecs) ≡ none = rw (bad, serve) refl in
            cc (e, f))
        | inr (t₁, good) ↦
            let f : serve t (timeout_request source session msecs) ≡ some ([], t₁) =
              rw (good, serve) refl in
            let outputs : [] ≡ sent = cc (e, f) in
            let put : Wheel fl link heap → Option (List TimerNode × Wheel fl link heap) =
              λ x. some ([], x) in
            let (l, runs, refines) = queue-filled h w content t r n t₁ good in
            record {
              enough = 0;
              after = appended (filled h w content t r n) l (made_node h w content t r n).0;
              content = update_at content l (content l ++ (made_node h w content t r n).0 ∷ []);
              runs = λ fuel le.
                  subst
                    (λ x.
                      (queue_node fl link heap
                          (filled h w content t r (record {
                            expire = (x + msecs) % 2 ^ 64;
                            source = source;
                            session = session;
                          }))
                          (made_node h w content t r n).0
                        >>= put)
                      ≡ some (
                        sent,
                        appended (filled h w content t r n) l (made_node h w content t r n).0,
                      ))
                    (sym r.time) (rw (runs, outputs) refl);
              refines =
                  subst
                    (λ x.
                      Refines
                        (appended (filled h w content t r n) l (made_node h w content t r n).0)
                        (update_at content l (content l ++ (made_node h w content t r n).0 ∷ [])) x)
                    (cc (e, f)) refines;
            }
      ]
  serve_nodes-Runs h w content t r (update_message timestamp) sent t' e =
      subst
        (λ x.
          Runs {fl = fl} {link = link} {heap = heap}
            (λ fuel. update_nodes fl link heap (timestamp - x + 1) fuel w timestamp)
            (λ x. (sent, x)) t')
        (sym r.time) (update_nodes-Runs (timestamp - t.time + 1) w content t r timestamp sent t' e)
