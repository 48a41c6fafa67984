-- ===== src/Fd/Epoll/Segments/Examples.antt =====
-- The theorem on segments where two threads allocate one, and the second loses the exchange.
use stp.Prelude.{refl, arith}
use stp.Fd.Epoll.Segments.{
  State, load, exchange, Step, loads, exchanges, begin, Reach, start, later,
}
use stp.Fd.Epoll.Segments.One.{One, Reach-One}

record Run : Type 0 where
  state : State
  reached : Reach 2 state

abbrev go : (r : Run) {s : State} → Step 2 r.state s → Run
go r {s} step = record { state = s; reached = later r.reached step }

abbrev raced : Run
unfolding load exchange
raced =
    go
      (go
        (go (go (record { state = begin 2; reached = start }) (loads 0 (omega arith) refl))
          (loads 1 (omega arith) refl))
        (exchanges 0 0 (omega arith) refl))
      (exchanges 1 1 (omega arith) refl)

Reach-One_example : One 2 raced.state
Reach-One_example = Reach-One 2 raced.reached
