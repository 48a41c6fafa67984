-- ===== src/Mailbox.antt =====
-- class Mailbox of src/process.cpp: many writers, one reader, and a flag by which a reader that
-- found nothing is woken.
pub mod System
pub mod Invariant
pub mod Delivery
mod Examples
use stp.Prelude.{Bool, true, false, List, [], ◌∷◌, Option, none, some, if◌then◌else◌}
use stp.Wild.{AppendList}

pub record Mailbox (A Queue : Type 0) : Type 0 where
  pub wait : Bool
  pub read : List A
  pub write : Queue

module _ {A : Type 0} (L : AppendList A) where
  abbrev Box : Type 0
  Box = Mailbox A L.Queue

  pub new_mailbox : Box
  new_mailbox = record { wait = false; read = []; write = L.empty }

  -- The part of `push` under the lock.
  pub push_locked : Box → A → Box
  push_locked b a = record b { write = L.push b.write a }

  -- `_wait.compare_exchange_strong(true, false)`.
  pub push_notify : Box → Bool × Box
  push_notify b = if b.wait then (true, record b { wait = false }) else (false, b)

  pub push : Box → A → Bool × Box
  push b a = push_notify (push_locked b a)

  -- `_read = _write.clear()`.
  pub refill : Box → Box
  refill b = record b { read = (L.clear b.write).0; write = (L.clear b.write).1 }

  take_refilled : Box → List A → Option A × Box
  take_refilled b [] = (none, record b { wait = true })
  take_refilled b (msg ∷ rest) = (some msg, record b { read = rest })

  take_from : Box → List A → Option A × Box
  take_from b [] = take_refilled (refill b) (refill b).read
  take_from b (msg ∷ rest) = (some msg, record b { read = rest })

  pub take : Box → Option A × Box
  take b = take_from b b.read
