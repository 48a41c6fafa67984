-- ===== src/Fd/Examples.antt =====
-- The theorems on the descriptor pollers at concrete descriptors.
use stp.Prelude.{ℕ, List, [], ◌∷◌, ◌≡◌, true, false, some, none, arith}
use stp.Fd.{read, write, Event, backwards}
use stp.Fd.Kqueue.{user_data, kqueue_poll, returns, fails, kqueue_poll-waits}
use stp.Fd.Epoll.{Segment, Place, Fdset, wait, poll, wait-poll_same}
use stp.Fd.Epoll.Flat.{Call, waits_table, answers, flat_waits, waits_table-Flat}

abbrev garbage : Segment
garbage i m = record { source = 77; session = 78 }

abbrev empty_set : Fdset
empty_set i = none

wait-poll_same_example :
    (p : Place) × (set' : Fdset) × (set2 : Fdset) × (wait garbage empty_set 20000 read 3 4 true
      ≡ some (p, true, set'))
    × (wait garbage set' 20000 read 5 6 false ≡ some (p, false, set2))
    × (poll garbage set2 p ≡ record { source = 5; session = 6 })
wait-poll_same_example =
    wait-poll_same garbage empty_set 20000 read 3 4 5 6 true false (omega arith)

-- Two descriptors of one segment, one of them for both events and twice for one.
abbrev calls : List Call
calls =
    record { fd = 20000; event = read; pid = 3; session = 4; ctl = true }
    ∷ record { fd = 20001; event = write; pid = 5; session = 6; ctl = true }
    ∷ record { fd = 20000; event = write; pid = 3; session = 7; ctl = true }
    ∷ record { fd = 20000; event = read; pid = 8; session = 9; ctl = false }
    ∷ []

waits_table-Flat_example :
    (table : Fdset) × (waits_table garbage empty_set calls ≡ some table)
    × ((fd : ℕ) (event : Event)
        → answers garbage table fd event ≡ flat_waits (answers garbage empty_set) calls fd event)
waits_table-Flat_example =
    waits_table-Flat garbage empty_set calls
      (omega arith, (omega arith, (omega arith, (omega arith, tt))))

-- Two waits that are ready at once, an interrupt, and a third one.
kqueue_poll-waits_example :
    kqueue_poll (
      returns (user_data 3 4 ∷ user_data 5 6 ∷ []) ∷ fails true ∷ returns (user_data 3 7 ∷ []) ∷ [])
    ≡ (
      record { source = 5; session = 6 }
          ∷ record { source = 3; session = 4 }
          ∷ record { source = 3; session = 7 }
          ∷ [],
      false,
    )
unfolding backwards
kqueue_poll-waits_example =
    kqueue_poll-waits
      (some (record { source = 3; session = 4 } ∷ record { source = 5; session = 6 } ∷ [])
        ∷ none
        ∷ some (record { source = 3; session = 7 } ∷ [])
        ∷ [])
      (
        ((omega arith, omega arith), ((omega arith, omega arith), tt)),
        (tt, (((omega arith, omega arith), tt), tt)),
      )
