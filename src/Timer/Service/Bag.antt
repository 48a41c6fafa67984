-- ===== src/Timer/Service/Bag.antt =====
-- The timer service of src/time.cpp against its specification: a time and a bag of deadlines, of which
-- an update takes out those that are over.
use stp.Prelude.{
  ℕ, ◌+◌, ◌^◌, ◌≤◌, ◌<◌, ◌≡◌, refl, ap, List, [], ◌∷◌, All, Option, some, arith, ◌>>=◌, ltb,
  if◌then◌else◌, weight, weight-nil, weight-cons, total, total-eq_zero,
}
use stp.Timer.{TimerNode, Timer, empty}
use stp.Timer.Invariant.{Inv, empty-Inv, pending}
use stp.Timer.Update.{
  node_at, Updated, update_timer-Updated, timeout-Queued, pending-eq_zero, Ordered, Ordered-later,
}
use stp.Timer.Service.{ServiceMessage, timeout_request, update_message, serve}

-- The specification.
pub record Bag : Type 0 where
  pub time : ℕ
  pub nodes : List TimerNode

-- The nodes with deadlines before a time, and the others.
abbrev pub over : ℕ → List TimerNode → List TimerNode
over time [] = []
over time (n ∷ ns) = if ltb n.expire time then n ∷ over time ns else over time ns

abbrev pub left : ℕ → List TimerNode → List TimerNode
left time [] = []
left time (n ∷ ns) = if ltb n.expire time then left time ns else n ∷ left time ns

abbrev pub serve_bag : Bag → ServiceMessage → List TimerNode × Bag
serve_bag b (timeout_request source session msecs) =
    ([], record b { nodes = node_at (b.time + msecs) source session ∷ b.nodes })
serve_bag b (update_message timestamp) =
    (over timestamp b.nodes, record { time = timestamp; nodes = left timestamp b.nodes })

-- A message that the service can take: a deadline that fits the clock, a time that is not in the past.
abbrev pub Fits : Bag → ServiceMessage → Type 0
Fits b (timeout_request source session msecs) = b.time + msecs < 2 ^ 64
Fits b (update_message timestamp) = (b.time ≤ timestamp) × (timestamp < 2 ^ 64)

-- The nodes of the specification, each as often, in the order of their deadlines.
pub record Sends (sent spec : List TimerNode) : Type 0 where
  pub same : (w : TimerNode → ℕ) → weight w sent ≡ weight w spec
  pub ordered : Ordered 0 sent

pub record Simulates (t : Timer) (b : Bag) : Type 0 where
  pub inv : Inv t
  pub time : t.time ≡ b.time
  pub nodes : (w : TimerNode → ℕ) → pending w t ≡ weight w b.nodes

-- A weight that counts only the nodes that are over.
abbrev if_over : (time : ℕ) → (TimerNode → ℕ) → TimerNode → ℕ
if_over time w n = if ltb n.expire time then w n else 0

weight-over :
    (time : ℕ) (w : TimerNode → ℕ) (ns : List TimerNode)
    → weight (if_over time w) ns ≡ weight w (over time ns)
weight-over time w [] = omega (arith, weight-nil (if_over time w), weight-nil w)
weight-over time w (n ∷ ns) = ground (
  arith,
  weight-over time w ns,
  weight-cons (if_over time w) n ns,
  weight-cons w n (over time ns),
)

-- Nodes that are all over count in full.
weight-all_over :
    (time : ℕ) (w : TimerNode → ℕ) (ns : List TimerNode)
    → All (λ n. n.expire < time) ns
    → weight (if_over time w) ns ≡ weight w ns
weight-all_over time w [] h = omega (arith, weight-nil (if_over time w), weight-nil w)
weight-all_over time w (n ∷ ns) (h, hs) =
    ground (
      arith,
      h,
      weight-all_over time w ns hs,
      weight-cons (if_over time w) n ns,
      weight-cons w n ns,
    )

over-left :
    (time : ℕ) (w : TimerNode → ℕ) (ns : List TimerNode)
    → weight w (over time ns) + weight w (left time ns) ≡ weight w ns
over-left time w [] = omega (arith, weight-nil w)
over-left time w (n ∷ ns) = ground (
  arith,
  over-left time w ns,
  weight-cons w n ns,
  weight-cons w n (over time ns),
  weight-cons w n (left time ns),
)

-- An update sends what the bag gives out, and leaves what the bag keeps.
update-Simulates :
    {t t' : Timer} {b : Bag} {timestamp : ℕ} {sent : List TimerNode}
    → Simulates t b
    → Updated t timestamp t' sent
    → ((w : TimerNode → ℕ) → weight w sent ≡ weight w (over timestamp b.nodes))
      × ((w : TimerNode → ℕ) → pending w t' ≡ weight w (left timestamp b.nodes))
update-Simulates {t} {t'} {b} {timestamp} {sent} sim updated =
    (sends, λ w. omega (arith, sends w, sim.nodes w, updated.kept w, over-left timestamp w b.nodes))
  where
    none_left : (w : TimerNode → ℕ) → pending (if_over timestamp w) t' ≡ 0
    none_left w =
        pending-eq_zero (if_over timestamp w) t' updated.inv
          (λ n h. ground (arith, h, updated.reached))

    sends : (w : TimerNode → ℕ) → weight w sent ≡ weight w (over timestamp b.nodes)
    sends w = omega (
      arith,
      sim.nodes (if_over timestamp w),
      updated.kept (if_over timestamp w),
      none_left w,
      weight-over timestamp w b.nodes,
      weight-all_over timestamp w sent updated.over,
    )

-- One message: the service takes it, sends the nodes of the specification in the order of their
-- deadlines, and stays in step.
pub serve-Simulates :
    (t : Timer) (b : Bag) (m : ServiceMessage)
    → Simulates t b
    → Fits b m
    → (t' : Timer) × (sent : List TimerNode) × (serve t m ≡ some (sent, t'))
      × Sends sent (serve_bag b m).0
      × Simulates t' (serve_bag b m).1
unfolding serve
serve-Simulates t b (timeout_request source session msecs) sim fits =
    let (t', e, queued) =
      timeout-Queued t source session msecs sim.inv (omega (arith, fits, sim.time)) in
    (
      t',
      [],
      rw (e, serve) refl,
      record { same = λ w. refl; ordered = tt },
      record {
        inv = queued.inv;
        time = omega (arith, queued.time, sim.time);
        nodes = λ w. omega (
          arith,
          queued.added w,
          sim.nodes w,
          weight-cons w (node_at (b.time + msecs) source session) b.nodes,
          ap (λ (x : ℕ). w (node_at (x + msecs) source session)) sim.time,
        );
      },
    )
serve-Simulates t b (update_message timestamp) sim (later, fits) =
    let (t', sent, e, updated) =
      update_timer-Updated t timestamp sim.inv (omega (arith, later, sim.time)) fits in
    let (sends, keeps) = update-Simulates sim updated in
    (
      t',
      sent,
      e,
      record { same = sends; ordered = Ordered-later 0 t.time sent (omega arith) updated.ordered },
      record { inv = updated.inv; time = updated.reached; nodes = keeps },
    )

-- A run of the service: what each message makes it send.
unfoldable pub serve_all : Timer → List ServiceMessage → Option (List (List TimerNode) × Timer)
serve_all t [] = some ([], t)
serve_all t (m ∷ ms) = serve t m >>= λ r. serve_all r.1 ms >>= λ q. some (r.0 ∷ q.0, q.1)

pub bag_all : Bag → List ServiceMessage → List (List TimerNode)
bag_all b [] = []
bag_all b (m ∷ ms) = (serve_bag b m).0 ∷ bag_all (serve_bag b m).1 ms

abbrev pub AllFit : Bag → List ServiceMessage → Type 0
AllFit b [] = Unit
AllFit b (m ∷ ms) = Fits b m × AllFit (serve_bag b m).1 ms

abbrev pub AllSends : (sents specs : List (List TimerNode)) → Type 0
AllSends [] [] = Unit
AllSends [] (y ∷ ys) = ⊥
AllSends (x ∷ xs) [] = ⊥
AllSends (x ∷ xs) (y ∷ ys) = Sends x y × AllSends xs ys

-- From a timer that simulates a bag, the service takes every sequence of messages whose deadlines fit
-- the clock and whose times do not fall, with no failed assertion, and each update sends the nodes whose
-- deadline it passes, which the specification takes out of its bag, each as often, in the order of their
-- deadlines.
pub serve_all-AllSends :
    (ms : List ServiceMessage) (t : Timer) (b : Bag)
    → Simulates t b
    → AllFit b ms
    → (sents : List (List TimerNode)) × (t' : Timer) × (serve_all t ms ≡ some (sents, t'))
      × AllSends sents (bag_all b ms)
unfolding serve_all bag_all
serve_all-AllSends [] t b sim h = ([], t, refl, tt)
serve_all-AllSends (m ∷ ms) t b sim (fits, h) =
    let (t₁, sent, e, sends, sim₁) = serve-Simulates t b m sim fits in
    let (sents, t₂, e₂, rest) = serve_all-AllSends ms t₁ (serve_bag b m).1 sim₁ h in
    (sent ∷ sents, t₂, rw (e, e₂) refl, (sends, rest))

-- The timer that `_main` starts with.
pub empty-Simulates : Simulates empty (record { time = 0; nodes = [] })
unfolding empty pending
empty-Simulates = record {
  inv = empty-Inv;
  time = refl;
  nodes = λ w. omega (
    arith,
    weight-nil w,
    total-eq_zero (2 ^ 14) (λ i. weight w []) (λ i. weight-nil w),
    total-eq_zero 5 (λ l. total 1023 (λ v. weight w []))
        (λ l. total-eq_zero 1023 (λ v. weight w []) (λ v. weight-nil w)),
  );
}
