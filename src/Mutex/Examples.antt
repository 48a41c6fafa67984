-- ===== src/Mutex/Examples.antt =====
-- The theorems on the mutex in a run of two coroutines: 1 locks, 2 waits, 1 unlocks, 2 goes on.
use stp.Prelude.{ℕ, ◌≡◌, false, List, [], ◌∷◌, some, update}
use stp.Mutex.{Mutex, create}
use stp.Mutex.Refs.{unrefs, use_all, use_all-create}
use stp.Mutex.System.{Phase, outside, waits, woken, inside, Shared}

abbrev queue_of : List ℕ → Mutex
queue_of queue = record { refcnt = 1; coroutines = queue }

abbrev phases : ℕ → Phase
phases = update (update (update (update (λ c. outside) 1 inside) 2 waits) 1 outside) 2 woken

abbrev handed : Shared
handed = record { mutex = queue_of (2 ∷ []); phase = phases }

use_all-create_example : (m : Mutex) × (use_all create (unrefs ∷ []) ≡ some (m, false))
use_all-create_example = use_all-create (unrefs ∷ [])
