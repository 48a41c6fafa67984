-- ===== src/Mutex.antt =====
-- class coroutine::Mutex of src/process.cpp: a queue of coroutines, whose front holds the mutex.
--
-- A coroutine is its address. `none` is a failed assertion. The references are an int64 that the
-- model takes as a number.
pub mod System
pub mod Handoff
pub mod Refs
mod Examples
use stp.Prelude.{
  ℕ, ◌+◌, ◌-◌, Bool, true, false, not, List, [], ◌∷◌, ◌++◌, Option, none, some, ◌==◌, if◌then◌else◌,
}

pub record Mutex : Type 0 where
  pub refcnt : ℕ
  pub coroutines : List ℕ

pub create : Mutex
create = record { refcnt = 1; coroutines = [] }

pub ref : Mutex → Mutex
ref m = record m { refcnt = m.refcnt + 1 }

-- The mutex, and whether it is deleted.
pub unref : Mutex → Option (Mutex × Bool)
unref m =
    if m.refcnt == 0 then none else some (record m { refcnt = m.refcnt - 0 }, m.refcnt - 0 == 0)

-- `std::remove`, where the coroutine is in the queue once: a queue without it.
pub remove : ℕ → List ℕ → List ℕ
remove c [] = []
remove c (d ∷ queue) = if d == c then remove c queue else d ∷ remove c queue

lock_queue : Mutex → List ℕ → ℕ → Option (Bool × Mutex)
lock_queue m [] running = some (false, record m { coroutines = running ∷ [] })
lock_queue m (c ∷ queue) running =
    if c == running
    then none
    else some (true, record m { coroutines = (c ∷ queue) ++ running ∷ [] })

-- `lock` up to its end or to `suspend`; `true` if it suspends.
pub lock : Mutex → (running : ℕ) → Option (Bool × Mutex)
lock m running = lock_queue m m.coroutines running

is_front : List ℕ → ℕ → Bool
is_front [] c = false
is_front (d ∷ queue) c = d == c

-- The rest of `lock`, where `suspend` returned.
pub lock_resumed : Mutex → (running : ℕ) → Option Mutex
lock_resumed m running = if is_front m.coroutines running then some m else none

-- The rest of `lock`, where `suspend` threw.
pub lock_thrown : Mutex → (running : ℕ) → Mutex
lock_thrown m running = record m { coroutines = remove running m.coroutines }

try_lock_queue : Mutex → List ℕ → ℕ → Bool × Mutex
try_lock_queue m [] running = (true, record m { coroutines = running ∷ [] })
try_lock_queue m (c ∷ queue) running = (false, m)

pub try_lock : Mutex → (running : ℕ) → Bool × Mutex
try_lock m running = try_lock_queue m m.coroutines running

front : List ℕ → Option ℕ
front [] = none
front (c ∷ queue) = some c

unlock_queue : Mutex → List ℕ → ℕ → Option (Option ℕ × Mutex)
unlock_queue m [] running = none
unlock_queue m (c ∷ queue) running =
    if c == running then some (front queue, record m { coroutines = queue }) else none

-- The coroutine that is woken, and the mutex.
pub unlock : Mutex → (running : ℕ) → Option (Option ℕ × Mutex)
unlock m running = unlock_queue m m.coroutines running
