-- ===== src/Fd/Kqueue.antt =====
-- src/fd_kqueue.cpp, on a 64 bit machine: a waiting session as the user data of an event, `wait` and
-- the thread of the poller. What the calls of kevent return are arguments.
use Prim.Native.Nat.{bit_or}
use stp.Prelude.{
  ℕ, ◌*◌, ◌/◌, ◌%◌, ◌^◌, ◌<◌, ◌≡◌, refl, ◌∙◌, Bool, true, false, List, [], ◌∷◌, ◌++◌, map,
  map-append, All, Option, none, some, arith, if◌then◌else◌,
}
use stp.Bits.{bit_or-fields}
use stp.Fd.{Event, read, write, Response, backwards}

-- `uintptr(pid) | (uintptr(sid) << 32)`, of two uint32 values.
unfoldable pub user_data : (pid sid : ℕ) → ℕ
user_data pid sid = bit_or pid (sid * 2 ^ 32 % 2 ^ 64)

-- What `kqueue_poll` answers to an event.
unfoldable pub response_of : (udata : ℕ) → Response
response_of udata = record { source = udata % 2 ^ 32; session = udata / 2 ^ 32 % 2 ^ 32 }

-- An event is answered to the process and the session that wait for it, whose ids are uint32 values.
pub response_of-user_data :
    (pid sid : ℕ)
    → pid < 2 ^ 32
    → sid < 2 ^ 32
    → response_of (user_data pid sid) ≡ record { source = pid; session = sid }
unfolding user_data response_of
response_of-user_data pid sid p q =
    let e : sid * 2 ^ 32 % 2 ^ 64 ≡ sid * 2 ^ 32 = omega arith in
    rw (e, bit_or-fields 32 pid sid p) (ground arith)

-- `wait`, up to its block: the filter and the user data of the event that is added, and whether kevent
-- takes it; if not, it throws.
pub data Filter : Type 0 where
  evfilt_read evfilt_write : Filter

pub wait : Event → (pid sid : ℕ) → (kevent : Bool) → Option (Filter × ℕ)
wait event pid sid kevent =
    let filter : Filter = elim event [ read ↦ evfilt_read | write ↦ evfilt_write ] in
    if kevent then some (filter, user_data pid sid) else none

-- What kevent returns to the poller: an error, which is EINTR or not, or the user data of events.
pub data Outcome : Type 0 where
  fails : (eintr : Bool) → Outcome
  returns : (events : List ℕ) → Outcome

-- The loop of `kqueue_poll`: what it answers, and whether it has returned.
pub kqueue_poll : List Outcome → List Response × Bool
kqueue_poll [] = ([], false)
kqueue_poll (fails true ∷ rest) = kqueue_poll rest
kqueue_poll (fails false ∷ rest) = ([], true)
kqueue_poll (returns events ∷ rest) =
    let (responses, returned) = kqueue_poll rest in
    (map response_of (backwards events) ++ responses, returned)

-- A call of `wait` that was taken.
abbrev pub udata_of : Response → ℕ
udata_of w = user_data w.source w.session

-- What kevent returns for calls of `wait`: interrupts (`none`), or some of those that wait.
abbrev pub as_outcome : Option (List Response) → Outcome
as_outcome none = fails true
as_outcome (some ws) = returns (map udata_of ws)

abbrev pub AreIds : Option (List Response) → Type 0
AreIds none = Unit
AreIds (some ws) = All (λ w. (w.source < 2 ^ 32) × (w.session < 2 ^ 32)) ws

abbrev pub in_turn : List (Option (List Response)) → List Response
in_turn [] = []
in_turn (none ∷ rest) = in_turn rest
in_turn (some ws ∷ rest) = backwards ws ++ in_turn rest

map-response_of :
    (ws : List Response)
    → All (λ w. (w.source < 2 ^ 32) × (w.session < 2 ^ 32)) ws
    → map response_of (backwards (map udata_of ws)) ≡ backwards ws
unfolding backwards
map-response_of [] h = refl
map-response_of (w ∷ ws) ((p, q), h) =
    map-append response_of (backwards (map udata_of ws)) (udata_of w ∷ [])
    ∙ rw (map-response_of ws h, response_of-user_data w.source w.session p q) refl

-- Whatever calls of `wait` kevent reports, of processes and sessions that are uint32 values, in whatever
-- batches, and however often it is interrupted: the poller goes on, and answers each of them to its
-- process under its session, in each batch the last one first.
pub kqueue_poll-waits :
    (batches : List (Option (List Response)))
    → All AreIds batches
    → kqueue_poll (map as_outcome batches) ≡ (in_turn batches, false)
unfolding kqueue_poll
kqueue_poll-waits [] h = refl
kqueue_poll-waits (none ∷ rest) (ids, h) = kqueue_poll-waits rest h
kqueue_poll-waits (some ws ∷ rest) (ids, h) =
    rw (kqueue_poll-waits rest h, map-response_of ws ids) refl
