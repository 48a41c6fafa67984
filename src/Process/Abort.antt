-- ===== src/Process/Abort.antt =====
-- The destructor of `class Process` of src/process.cpp: the requests that are still open are
-- answered by AbortedRequest.
use stp.Prelude.{ℕ, ◌+◌, ◌≤◌, ◌≡◌, ◌&&◌, List, [], ◌∷◌, ◌++◌, arith, ◌==◌, if◌then◌else◌}
use stp.Message.{Message, notify, request, response, type_of_message}
use stp.Coroutine.{Content}
use stp.Process.{Process, insert_pair, serve_request}
use stp.Process.Run.{receive}

module _ {Value : Type 0} where
  -- A loop over messages that aborts the requests among them.
  pub abort_messages : List (Message (Content Value)) → List (ℕ × ℕ)
  abort_messages [] = []
  abort_messages (msg ∷ msgs) =
      let rest : List (ℕ × ℕ) = abort_messages msgs in
      elim (type_of_message msg) [
        | request ↦ (msg.source, msg.session) ∷ rest
        | notify ↦ rest
        | response ↦ rest
      ]

  -- The calls of `abort_request`, where the mailbox holds `unread`.
  pub destruct : Process Value → (unread : List (Message (Content Value))) → List (ℕ × ℕ)
  destruct p unread = p.requests_map ++ abort_messages p.inbox ++ abort_messages unread

-- How often a request is in a list.
pub occurs : ℕ → ℕ → List (ℕ × ℕ) → ℕ
occurs a b [] = 0
occurs a b ((x, y) ∷ m) = if x == a && y == b then occurs a b m + 1 else occurs a b m

occurs-append :
    (a b : ℕ) (xs ys : List (ℕ × ℕ)) → occurs a b (xs ++ ys) ≡ occurs a b xs + occurs a b ys
unfolding occurs
occurs-append a b [] ys = omega arith
occurs-append a b ((x, y) ∷ xs) ys = ground (arith, occurs-append a b xs ys)

two_of :
    (a b : ℕ) (xs ys zs : List (ℕ × ℕ))
    → 1 ≤ occurs a b xs
    → 1 ≤ occurs a b ys
    → 2 ≤ occurs a b (xs ++ ys ++ zs)
two_of a b xs ys zs h k = omega (arith, occurs-append a b (xs ++ ys) zs, occurs-append a b xs ys)

occurs-insert_pair : (a b : ℕ) (m : List (ℕ × ℕ)) → 1 ≤ occurs a b (insert_pair a b m)
unfolding occurs insert_pair
occurs-insert_pair a b [] = ground arith
occurs-insert_pair a b ((x, y) ∷ m) = ground (arith, occurs-insert_pair a b m)

module _ {Value : Type 0} where
  occurs-received :
      (msgs : List (Message (Content Value))) (msg : Message (Content Value))
      → type_of_message msg ≡ request
      → 1 ≤ occurs msg.source msg.session (abort_messages (msgs ++ msg ∷ []))
  unfolding abort_messages occurs
  occurs-received [] msg h = ground (arith, h)
  occurs-received (m ∷ msgs) msg h = ground (arith, occurs-received msgs msg h)

  -- A request that was received and that no coroutine has taken is aborted twice when the process
  -- is destroyed: it stands in the set of the open requests and in the inbox.
  pub destruct-serve_request :
      (p : Process Value) (msg : Message (Content Value)) (unread : List (Message (Content Value)))
      → type_of_message msg ≡ request
      → 2
        ≤ occurs msg.source msg.session
            (destruct (receive (serve_request p msg.source msg.session) msg) unread)
  unfolding destruct serve_request
  destruct-serve_request p msg unread h =
      two_of msg.source msg.session (insert_pair msg.source msg.session p.requests_map)
        (abort_messages (p.inbox ++ msg ∷ [])) (abort_messages unread)
        (occurs-insert_pair msg.source msg.session p.requests_map) (occurs-received p.inbox msg h)
