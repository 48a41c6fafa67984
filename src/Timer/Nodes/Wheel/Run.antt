-- ===== src/Timer/Nodes/Wheel/Run.antt =====
-- The whole timer of src/time.cpp in memory, from its construction on: it sends what the sequences say.
use stp.Prelude.{ℕ, ◌+◌, ◌≡◌, refl, subst, List, [], ◌∷◌, some, ◌>>=◌, bind-some, arith}
use stp.Wild.{FreeList}
use stp.Timer.{TimerNode, Timer, empty}
use stp.Timer.Service.{ServiceMessage, serve}
use stp.Timer.Service.Bag.{
  serve_all, serve_all-AllSends, AllFit, AllSends, bag_all, empty-Simulates,
}
use stp.Timer.Nodes.{TimerList, Slot}
use stp.Timer.Nodes.Wheel.{Wheel, constructed, serve_all_nodes}
use stp.Timer.Nodes.Wheel.Refines.{Refines, IsHeap, constructed-Refines}
use stp.Timer.Nodes.Wheel.Tick.{Runs}
use stp.Timer.Nodes.Wheel.Serve.{serve_nodes-Runs}

module _ {fl : FreeList} {link heap : ℕ → ℕ} where
  pub serve_all_nodes-Runs :
      IsHeap heap
      → (xs : List ServiceMessage) (w : Wheel fl link heap) (content : TimerList → List ℕ)
        (t : Timer)
      → Refines w content t
      → (sents : List (List TimerNode)) (t' : Timer) → serve_all t xs ≡ some (sents, t')
      → Runs {fl = fl} {link = link} {heap = heap}
          (λ fuel. serve_all_nodes fl link heap fuel w xs)
          (λ x. (sents, x))
          t'
  unfolding serve_all serve_all_nodes
  serve_all_nodes-Runs h [] w content t r sents t' e =
      let outputs : [] ≡ sents = cc e in
      record {
        enough = 0;
        after = w;
        content = content;
        runs = λ fuel le. rw outputs refl;
        refines = subst (λ x. Refines w content x) (cc e) r;
      }
  serve_all_nodes-Runs h (x ∷ xs) w content t r sents t' e =
      let (a, first, rest) =
        bind-some (serve t x) (λ r. serve_all r.1 xs >>= λ q. some (r.0 ∷ q.0, q.1)) (sents, t')
          e in
      let (b, second, same) =
        bind-some (serve_all a.1 xs) (λ q. some (a.0 ∷ q.0, q.1)) (sents, t') rest in
      let p = serve_nodes-Runs h w content t r x a.0 a.1 first in
      let q = serve_all_nodes-Runs h xs p.after p.content a.1 p.refines b.0 b.1 second in
      let outputs : a.0 ∷ b.0 ≡ sents = cc same in
      record {
        enough = p.enough + q.enough;
        after = q.after;
        content = q.content;
        runs = λ fuel le.
            rw (p.runs fuel (omega (arith, le)), q.runs fuel (omega (arith, le)), outputs) refl;
        refines = subst (λ x. Refines q.after q.content x) (cc same) q.refines;
      }

-- From the constructed timer on, whatever its pointers hold and wherever `new` puts the nodes, at different addresses, the
-- messages whose deadlines fit the clock and whose times do not fall are served in memory with no failed
-- assertion: with enough fuel every walk over a list ends, and what is sent is what the specification
-- takes out of its bag, each node as often, in the order of the deadlines.
pub serve_all_nodes-AllSends :
    (fl : FreeList) (link heap : ℕ → ℕ) (cells : Slot → ℕ) (payload : ℕ → TimerNode)
    (ms : List ServiceMessage)
    → IsHeap heap
    → AllFit (record { time = 0; nodes = [] }) ms
    → (enough : ℕ) × (sents : List (List TimerNode)) × (after : Wheel fl link heap) × ((more : ℕ)
        → serve_all_nodes fl link heap (enough + more) (constructed fl link heap cells payload) ms
          ≡ some (sents, after))
      × AllSends sents (bag_all (record { time = 0; nodes = [] }) ms)
serve_all_nodes-AllSends fl link heap cells payload ms h fits =
    let (sents, t', e, sends) =
      serve_all-AllSends ms empty (record { time = 0; nodes = [] }) empty-Simulates fits in
    let r =
      serve_all_nodes-Runs h ms (constructed fl link heap cells payload) (λ l. []) empty
        (constructed-Refines cells payload h) sents t' e in
    (r.enough, sents, r.after, λ more. r.runs (r.enough + more) (omega arith), sends)
