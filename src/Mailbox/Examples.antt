-- ===== src/Mailbox/Examples.antt =====
-- The theorems on the mailbox at concrete interleavings.
use stp.Prelude.{ℕ, ◌<◌, ◌≡◌, ◌≢◌, refl, ◌⊎◌, true, false, List, [], ◌∷◌, ◌++◌, some, arith}
use stp.Wild.{list_queue}
use stp.Mailbox.{
  Mailbox, new_mailbox, push_locked, push_notify, take, take_from, take_refilled, refill,
}
use stp.Mailbox.System.{
  closing, parked, Sys, init, Step, append, notify, deliver, close, park, resume, Reach, start,
  later,
}
use stp.Mailbox.Invariant.{unread}
use stp.Mailbox.Delivery.{Reach-order, Reach-woken, Reach-delivered}

abbrev two : Mailbox ℕ (List ℕ)
two = record { wait = false; read = []; write = 4 ∷ 5 ∷ [] }

first_taken : (take list_queue two).0 ≡ some 4
unfolding take take_from take_refilled refill
first_taken = refl

record Run : Type 1 where
  state : Sys {A = ℕ} list_queue
  reach : Reach list_queue state

abbrev go : (r : Run) {t : Sys {A = ℕ} list_queue} → Step list_queue r.state t → Run
go r {t} st = record { state = t; reach = later r.reach st }

-- The process finds nothing and parks; a writer pushes a message and has not read the flag yet.
abbrev emptied : Run
unfolding new_mailbox refill
emptied =
    go (go (record { state = init list_queue; reach = start }) (close refl refl refl)) (park refl)

parked-ne-closing : parked ≢ closing
parked-ne-closing e = cc

-- The writer holds a message in the mailbox and has not read the flag.
abbrev pushing : Run
unfolding emptied
pushing = go emptied (append 7 parked-ne-closing)

abbrev notified : Run
unfolding pushing push_locked push_notify
notified = go pushing (notify (omega arith))

-- The process has been resumed, takes the message and parks again.
abbrev served : Run
unfolding notified take take_from take_refilled
served =
    go
      (go (go (go notified (resume refl (omega arith))) (deliver 7 refl refl))
        (close refl refl refl))
      (park refl)

Reach-order_example :
    notified.state.pushed ≡ notified.state.taken ++ unread list_queue notified.state.box
Reach-order_example = Reach-order list_queue notified.reach

Reach-woken_example :
    (pushing.state.resumes ≡ 1) ⊎ ((pushing.state.box.wait ≡ true) × (0 < pushing.state.writers))
unfolding pushing push_locked
Reach-woken_example = Reach-woken list_queue pushing.reach refl (λ e. cc)

Reach-delivered_example : served.state.taken ≡ 7 ∷ []
unfolding served
Reach-delivered_example = Reach-delivered list_queue served.reach refl refl refl
