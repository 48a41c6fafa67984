-- ===== src/Timer/Service/Thread.antt =====
-- The thread of src/time.cpp that reads the clock, and the messages that reach the timer service: its
-- updates, and the timeouts that processes request by `sleep`, in the order of the mailbox.
use stp.Prelude.{
  ℕ, ◌+◌, ◌-◌, ◌^◌, ◌≤◌, ◌<◌, ◌≡◌, ◌⊎◌, subst, refl, inl, inr, true, List, [], ◌∷◌, Option, none,
  some, arith, ◌>>=◌, ltb, if◌then◌else◌, Bool-cases,
}
use stp.Timer.{TimerNode, Timer, empty}
use stp.Timer.Service.{Clock, init, tick_round, ServiceMessage, timeout_request, update_message}
use stp.Timer.Service.Bag.{
  Bag, serve_bag, AllFit, AllSends, bag_all, serve_all, serve_all-AllSends, empty-Simulates,
}

-- A round of the thread, in which `_gettime` returns `now`, or a request for a timeout.
pub data Event : Type 0 where
  ticks : (now : ℕ) → Event
  sleeps : (source session msecs : ℕ) → Event

-- `process::send(timer, UpdateMessage{time})`, where a round sends one.
abbrev pub update_of : Option ℕ → List ServiceMessage → List ServiceMessage
update_of none ms = ms
update_of (some timestamp) ms = update_message timestamp ∷ ms

-- All that reaches the mailbox of the service; `none` is the failed assertion.
pub messages : Clock → List Event → Option (List ServiceMessage)
messages c [] = some []
messages c (ticks now ∷ events) =
    tick_round c now >>= λ r. messages r.1 events >>= λ ms. some (update_of r.0 ms)
messages c (sleeps source session msecs ∷ events) =
    messages c events >>= λ ms. some (timeout_request source session msecs ∷ ms)

-- The clock after a round.
abbrev pub moved : Clock → (now : ℕ) → Clock
moved c now = if ltb c.time (now - c.starttime) then record c { time = now - c.starttime } else c

-- std::chrono::steady_clock is not before the start, the times fit uint64, and so do the deadlines.
abbrev pub Steady : Clock → List Event → Type 0
Steady c [] = Unit
Steady c (ticks now ∷ events) = (c.starttime ≤ now) × (now < 2 ^ 64) × Steady (moved c now) events
Steady c (sleeps source session msecs ∷ events) = (c.time + msecs < 2 ^ 64) × Steady c events

tick_round_lem :
    (c : Clock) (now : ℕ)
    → c.starttime ≤ now
    → ((ltb c.time (now - c.starttime) ≡ true)
        × (tick_round c now ≡ some (some (now - c.starttime), moved c now)))
      ⊎ ((tick_round c now ≡ some (none, c)) × (moved c now ≡ c))
unfolding tick_round
tick_round_lem c now h = elim (Bool-cases (ltb c.time (now - c.starttime))) [
  | inl e ↦ inl (e, ground (arith, h, e))
  | inr e ↦ inr (ground (arith, h, e), ground (arith, e))
]

messages-AllFit :
    (events : List Event) (c : Clock) (b : Bag)
    → b.time ≡ c.time
    → Steady c events
    → (ms : List ServiceMessage) × (messages c events ≡ some ms) × AllFit b ms
unfolding messages
messages-AllFit [] c b same h = ([], refl, tt)
messages-AllFit (ticks now ∷ events) c b same (from, fits, h) = elim (tick_round_lem c now from) [
  | inl (e, sends) ↦
      let time : ℕ = now - c.starttime in
      let (ms, runs, fit) =
        messages-AllFit events (moved c now) (serve_bag b (update_message time)).1
          (ground (arith, e)) h in
      (
        update_message time ∷ ms,
        rw (sends, runs) refl,
        ((ground (arith, e, same), omega (arith, fits, from)), fit),
      )
  | inr (quiet, still) ↦
      let (ms, runs, fit) =
        messages-AllFit events c b same (subst (λ x. Steady x events) still h) in
      (ms, rw (quiet, runs) refl, fit)
]
messages-AllFit (sleeps source session msecs ∷ events) c b same (fits, h) =
    let (ms, e, fit) =
      messages-AllFit events c (serve_bag b (timeout_request source session msecs)).1 same h in
    (
      timeout_request source session msecs ∷ ms,
      rw (e, messages) refl,
      (omega (arith, same, fits), fit),
    )

-- From the start of the program on, whatever rounds of the thread and requests reach the service in
-- whatever order, with a clock that does not go back before the start and deadlines that fit it: no
-- assertion fails, in the thread or in the service, and each update sends exactly the timeouts whose
-- deadlines it passes, in the order of the deadlines.
pub messages-AllSends :
    (now realtime : ℕ) (events : List Event)
    → Steady (init now realtime) events
    → (ms : List ServiceMessage) × (sents : List (List TimerNode)) × (t : Timer) × (messages
          (init now realtime)
          events
        ≡ some ms)
      × (serve_all empty ms ≡ some (sents, t))
      × AllSends sents (bag_all (record { time = 0; nodes = [] }) ms)
unfolding init
messages-AllSends now realtime events h =
    let start : Bag = record { time = 0; nodes = [] } in
    let (ms, sent, fit) = messages-AllFit events (init now realtime) start refl h in
    let (sents, t, served, sends) = serve_all-AllSends ms empty start empty-Simulates fit in
    (ms, sents, t, sent, served, sends)
