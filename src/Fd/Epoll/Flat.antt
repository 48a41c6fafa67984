-- ===== src/Fd/Epoll/Flat.antt =====
-- The segmented table of src/fd_epoll.cpp is one map from descriptors and events to those who wait.
use stp.Prelude.{
  ℕ, ◌/◌, ◌%◌, ◌^◌, ◌<◌, ◌≡◌, ◌≢◌, refl, ap, subst, ◌∙◌, inl, inr, Bool, true, false, ◌&&◌, List,
  [], ◌∷◌, All, Option, some, arith, ◌==◌, ==→eq, lt→ltb, if◌then◌else◌, ◌>>=◌, Bool-cases,
}
use stp.Fd.{Event, read, write, Response}
use stp.Fd.Epoll.{
  segment_size, set_size, Segment, place, Fdset, wait, poll, waited, poll-waited, poll-waited_other,
  wait_in_range,
}

-- One call of `wait`, and what epoll_ctl said.
pub record Call : Type 0 where
  pub fd : ℕ
  pub event : Event
  pub pid : ℕ
  pub session : ℕ
  pub ctl : Bool

abbrev pub same_event : Event → Event → Bool
same_event read read = true
same_event read write = false
same_event write read = false
same_event write write = true

pub same_event→eq : (e f : Event) → same_event e f ≡ true → e ≡ f
same_event→eq read read h = refl
same_event→eq read write h = absurd (cc h)
same_event→eq write read h = absurd (cc h)
same_event→eq write write h = refl

same_event-of_other : (e f : Event) → same_event e f ≡ false → e ≢ f
same_event-of_other read read h = absurd (cc h)
same_event-of_other read write h = λ k. cc
same_event-of_other write read h = λ k. cc
same_event-of_other write write h = absurd (cc h)

-- The map, and the calls on it.
abbrev pub Flat : Type 0
Flat = ℕ → Event → Response

abbrev pub flat_wait : Flat → Call → Flat
flat_wait m c fd event =
    if c.fd == fd && same_event c.event event
    then record { source = c.pid; session = c.session }
    else m fd event

abbrev pub flat_waits : Flat → List Call → Flat
flat_waits m [] = m
flat_waits m (c ∷ calls) = flat_waits (flat_wait m c) calls

module _ (fresh : Segment) where
  abbrev pub wait_table : Fdset → Call → Option Fdset
  wait_table set c = wait fresh set c.fd c.event c.pid c.session c.ctl >>= (λ r. some r.2)

  abbrev pub waits_table : Fdset → List Call → Option Fdset
  waits_table set [] = some set
  waits_table set (c ∷ calls) = wait_table set c >>= (λ set'. waits_table set' calls)

  -- What is answered to an event of a descriptor.
  abbrev pub answers : Fdset → Flat
  answers set fd event = poll fresh set (place (fd / segment_size) (fd % segment_size) event)

  pub answers-waited :
      (set : Fdset) (c : Call) (fd : ℕ) (event : Event)
      → answers (waited fresh set c.fd c.event c.pid c.session) fd event
        ≡ flat_wait (answers set) c fd event
  answers-waited set c fd event = elim (Bool-cases (c.fd == fd)) [
    | inr e ↦
        rw (e, flat_wait)
          (poll-waited_other fresh set fd c.fd event c.event c.pid c.session
            (inl (λ k. ground arith)))
    | inl e ↦ elim (Bool-cases (same_event c.event event)) [
      | inr v ↦
          rw (e, v, flat_wait)
            (poll-waited_other fresh set fd c.fd event c.event c.pid c.session
              (inr (same_event-of_other c.event event v)))
      | inl v ↦
          rw (e, v, flat_wait)
            (subst
              (λ x.
                answers (waited fresh set c.fd c.event c.pid c.session) x event
                ≡ record { source = c.pid; session = c.session })
              (==→eq c.fd fd e)
              (subst
                (λ x.
                  answers (waited fresh set c.fd c.event c.pid c.session) c.fd x
                  ≡ record { source = c.pid; session = c.session })
                (same_event→eq c.event event v)
                (poll-waited fresh set c.fd c.event c.pid c.session)))
    ]
  ]

  flat_waits-ext :
      (m m' : Flat)
      → ((fd : ℕ) (event : Event) → m fd event ≡ m' fd event)
      → (calls : List Call) (fd : ℕ) (event : Event)
      → flat_waits m calls fd event ≡ flat_waits m' calls fd event
  flat_waits-ext m m' same [] fd event = same fd event
  flat_waits-ext m m' same (c ∷ calls) fd event =
      flat_waits-ext (flat_wait m c) (flat_wait m' c)
        (λ x e.
          ap
            (λ r.
              if c.fd == x && same_event c.event e
              then record { source = c.pid; session = c.session }
              else r)
            (same x e))
        calls fd event

  -- Calls of `wait` for descriptors below 2^22 meet no failed assertion, and leave a table that
  -- answers every event of every descriptor as one map does that each call writes at its descriptor
  -- and event: the table of segments is equivalent to this map.
  pub waits_table-Flat :
      (set : Fdset) (calls : List Call)
      → All (λ c. c.fd < 2 ^ 22) calls
      → (table : Fdset) × (waits_table set calls ≡ some table)
        × ((fd : ℕ) (event : Event)
            → answers table fd event ≡ flat_waits (answers set) calls fd event)
  waits_table-Flat set [] h = (set, refl, λ fd event. refl)
  waits_table-Flat set (c ∷ calls) (h, hs) =
      let first : Fdset = waited fresh set c.fd c.event c.pid c.session in
      let (table, runs, same) = waits_table-Flat first calls hs in
      (
        table,
        rw
            (wait_in_range fresh set c.fd c.event c.pid c.session c.ctl
              (lt→ltb (c.fd / segment_size) set_size (omega arith)))
            runs,
        λ fd event.
            same fd event
            ∙ flat_waits-ext (answers first) (flat_wait (answers set) c) (answers-waited set c)
                calls fd event,
      )
