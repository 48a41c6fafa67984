-- ===== src/Fd.antt =====
-- The descriptor pollers: a coroutine that waits for a descriptor blocks on a new session, and the
-- poller's thread answers this session when the descriptor is ready.
pub mod Epoll
pub mod Kqueue
mod Examples
use stp.Prelude.{ℕ, List, [], ◌∷◌, ◌++◌}

-- `fd::Event` of src/fd.hpp.
pub data Event : Type 0 where
  read write : Event

-- The arguments of the call of `process::response` for an event.
pub record Response : Type 0 where
  pub source : ℕ
  pub session : ℕ

-- The elements of an array in the order of `while (n-- > 0)`.
unfoldable pub backwards {ℓ} : {A : Type ℓ} → List A → List A
backwards [] = []
backwards (x ∷ xs) = backwards xs ++ x ∷ []
