-- ===== src/Fd/Epoll/Waits.antt =====
-- `wait` of src/fd_epoll.cpp from its registration to the end of its scope, and the thread of the
-- poller, interleaved.
--
-- The calls of epoll are the interface EpollSet: an epoll instance for each event, in which a
-- descriptor is registered with a pointer. Closing a descriptor that is waited for is left out, and so
-- is a second wait for the same event of a descriptor that is waited for.
pub mod Answered
mod Examples
use stp.Prelude.{
  ℕ, ◌/◌, ◌%◌, ◌^◌, ◌<◌, ◌≡◌, Bool, true, false, ◌&&◌, List, [], All, ◌∷◌, Option, none, some, ◌==◌,
  if◌then◌else◌,
}
use stp.Fd.{Event, read, write, Response, backwards}
use stp.Fd.Epoll.{segment_size, Segment, Place, place, Fdset, wait, poll}
use stp.Fd.Epoll.Flat.{same_event}

abbrev pub set_at {ℓ} : {A : Type ℓ} → (ℕ → Event → A) → ℕ → Event → A → ℕ → Event → A
set_at f fd event a x e = if fd == x && same_event event e then a else f x e

-- epoll_ctl on the instances of `eventfds`: what is registered is not added again, and what is
-- deleted was registered.
pub record EpollSet : Type 1 where
  pub Kernel : Type 0
  pub nothing : Kernel
  pub ctl_add : Kernel → (fd : ℕ) → Event → Place → Bool × Kernel
  pub ctl_del : Kernel → (fd : ℕ) → Event → Bool × Kernel
  pub registered : Kernel → (fd : ℕ) → Event → Option Place
  pub registered-nothing : (fd : ℕ) (event : Event) → registered nothing fd event ≡ none
  pub ctl_add-true :
      (k : Kernel) (fd : ℕ) (event : Event) (p : Place)
      → (ctl_add k fd event p).0 ≡ true
      → (x : ℕ) (e : Event)
      → registered (ctl_add k fd event p).1 x e ≡ set_at (registered k) fd event (some p) x e
  pub ctl_add-false :
      (k : Kernel) (fd : ℕ) (event : Event) (p : Place)
      → (ctl_add k fd event p).0 ≡ false
      → (x : ℕ) (e : Event) → registered (ctl_add k fd event p).1 x e ≡ registered k x e
  pub ctl_del-registered :
      (k : Kernel) (fd : ℕ) (event : Event) (p : Place)
      → registered k fd event ≡ some p
      → (ctl_del k fd event).0 ≡ true
  pub ctl_del-true :
      (k : Kernel) (fd : ℕ) (event : Event)
      → (ctl_del k fd event).0 ≡ true
      → (x : ℕ) (e : Event)
      → registered (ctl_del k fd event).1 x e ≡ set_at (registered k) fd event none x e

-- `fi`, as a place in the table.
abbrev pub pointer : ℕ → Event → Place
pointer fd event = place (fd / segment_size) (fd % segment_size) event

-- The pointers of one instance, in the order in which the loop takes them; `none` is the error -1.
pub batch : Option (List Place) → List Place
batch none = []
batch (some events) = backwards events

module _ (ep : EpollSet) where
  pub record State : Type 0 where
    pub table : Fdset
    pub kernel : ep.Kernel
    -- the calls of `wait` that block, by descriptor and event
    pub waits : ℕ → Event → Option Response
    -- the events of `_epoll_poll` that are not answered yet
    pub events : List Place
    pub sent : List Response
    -- who has called `wait`
    pub callers : List Response

module _ (ep : EpollSet) (fresh : Segment) where
  -- `wait`, up to its block: whether it throws, or blocks; `none` is the failed assertion.
  pub begin_wait : State ep → (fd : ℕ) → Event → (pid session : ℕ) → Option (Bool × State ep)
  begin_wait s fd event pid session =
      let caller : Response = record { source = pid; session = session } in
      let (added, kernel) = ep.ctl_add s.kernel fd event (pointer fd event) in
      elim (wait fresh s.table fd event pid session added) [
        | none ↦ none
        | some (fi, ctl, table) ↦ some (
          ctl,
          record s {
            table = table;
            kernel = kernel;
            waits = if added then set_at s.waits fd event (some caller) else s.waits;
            callers = caller ∷ s.callers;
          },
        )
      ]

  -- The end of its scope, when it is resumed or told of an exception; `none` is the failed call.
  pub end_wait : State ep → (fd : ℕ) → Event → Option (State ep)
  end_wait s fd event =
      let (deleted, kernel) = ep.ctl_del s.kernel fd event in
      if deleted
      then some (record s { kernel = kernel; waits = set_at s.waits fd event none })
      else none

  -- The innermost loop of `_epoll_poll`.
  pub answer : State ep → State ep
  answer s = elim s.events [
    | [] ↦ s
    | fi ∷ events ↦ record s { events = events; sent = poll fresh s.table fi ∷ s.sent }
  ]

  pub data Step (s : State ep) : State ep → Type 0 where
    begins :
        (fd : ℕ) (event : Event) (pid session : ℕ) (blocks : Bool) (s' : State ep)
        → fd < 2 ^ 22
        → s.waits fd event ≡ none
        → begin_wait s fd event pid session ≡ some (blocks, s')
        → Step s s'
    ends :
        (fd : ℕ) (event : Event) (caller : Response) (s' : State ep)
        → s.waits fd event ≡ some caller
        → end_wait s fd event ≡ some s'
        → Step s s'
    -- When the events are answered, epoll_wait returns pointers that are registered.
    reads :
        (outcome : Option (List Place))
        → s.events ≡ []
        → All
            (λ fi. (fd : ℕ) × (event : Event) × (ep.registered s.kernel fd event ≡ some fi))
            (batch outcome)
        → Step s (record s { events = batch outcome })
    answers_one : Step s (answer s)

  abbrev pub begin : State ep
  begin = record {
    table = λ i. none;
    kernel = ep.nothing;
    waits = λ fd event. none;
    events = [];
    sent = [];
    callers = [];
  }

  pub data Reach : State ep → Type 0 where
    start : Reach begin
    later : {s t : State ep} → Reach s → Step s t → Reach t
