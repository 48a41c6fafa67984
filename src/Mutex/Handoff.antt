-- ===== src/Mutex/Handoff.antt =====
-- The invariant of the coroutines that share a mutex of src/process.cpp, and what follows from it.
use stp.Prelude.{ℕ, ◌≡◌, ◌≢◌, ◌⊎◌, Bool, List, [], ◌∷◌, All, Option, none, some, update}
use stp.Mutex.{Mutex, lock, lock_resumed, unlock}
use stp.Mutex.System.{Phase, outside, waits, woken, inside, wake, entered}

-- A coroutine that waits behind the front.
abbrev Waits : (ℕ → Phase) → List ℕ → Type 0
Waits phase queue = All (λ c. phase c ≡ waits) queue

-- The front was woken or is inside, the others wait, and nobody else is in the queue.
abbrev Active : Phase → Type 0
Active p = (p ≡ woken) ⊎ (p ≡ inside)

-- No coroutine is twice in the list.
abbrev Uniq : List ℕ → Type 0
Uniq [] = Unit
Uniq (x ∷ xs) = All (λ d. d ≢ x) xs × Uniq xs

abbrev Queued : List ℕ → (ℕ → Phase) → Type 0
Queued [] phase = (d : ℕ) → Active (phase d) → ⊥
Queued (c ∷ queue) phase =
    Active (phase c) × Waits phase queue × ((d : ℕ) → Active (phase d) → d ≡ c) × Uniq queue

-- What an operation has to leave, if no assertion fails.
abbrev Leaves : (ℕ → Phase) → ℕ → Option (Bool × Mutex) → Type 0
Leaves phase c none = Unit
Leaves phase c (some (suspends, m)) = Queued m.coroutines (update phase c (entered suspends))

abbrev Released : (ℕ → Phase) → ℕ → Option (Option ℕ × Mutex) → Type 0
Released phase c none = Unit
Released phase c (some (next, m)) = Queued m.coroutines (wake next (update phase c outside))

-- What the assertions of the mutex say of a coroutine, by what it does next.
abbrev pub Asserts : Mutex → ℕ → Phase → Type 0
Asserts m c outside = lock m c ≢ none
Asserts m c waits = Unit
Asserts m c woken = lock_resumed m c ≡ some m
Asserts m c inside = unlock m c ≢ none
