-- ===== src/Fd/Epoll/Segments.antt =====
-- `fdset::selectFilter` of src/fd_epoll.cpp where `n` threads run it for descriptors of one segment: the
-- load of `segments[index]`, the new segment, and the exchange with it, interleaved.
--
-- A segment is its address; `new` never returns one twice while it is in use, so addresses are counted.
pub mod One
mod Examples
use stp.Prelude.{
  ℕ, ◌+◌, ◌<◌, ◌≡◌, List, [], ◌∷◌, Option, none, some, ◌==◌, if◌then◌else◌, update, total, one_if,
  occurs,
}

-- Where a thread is: outside, between `new segment` and the exchange, or behind, with `fds`.
pub data Place : Type 0 where
  outside : Place
  holds : (new_fds : ℕ) → Place
  has : (fds : ℕ) → Place

pub record State : Type 0 where
  pub slot : Option ℕ
  pub threads : ℕ → Place
  pub made : ℕ
  pub deleted : List ℕ

-- The load, and `new segment` where it is null.
pub load : State → (thread : ℕ) → State
load s thread = elim s.slot [
  | none ↦ record s { threads = update s.threads thread (holds s.made); made = s.made + 1 }
  | some fds ↦ record s { threads = update s.threads thread (has fds) }
]

-- `compare_exchange_strong`, and what follows.
pub exchange : State → (thread new_fds : ℕ) → State
exchange s thread new_fds = elim s.slot [
  | none ↦ record s { slot = some new_fds; threads = update s.threads thread (has new_fds) }
  | some fds ↦ record s {
    threads = update s.threads thread (has fds);
    deleted = new_fds ∷ s.deleted;
  }
]

module _ (n : ℕ) where
  pub data Step (s : State) : State → Type 0 where
    loads : (thread : ℕ) → thread < n → s.threads thread ≡ outside → Step s (load s thread)
    exchanges :
        (thread new_fds : ℕ)
        → thread < n
        → s.threads thread ≡ holds new_fds
        → Step s (exchange s thread new_fds)
    leaves :
        (thread fds : ℕ)
        → thread < n
        → s.threads thread ≡ has fds
        → Step s (record s { threads = update s.threads thread outside })

  abbrev pub begin : State
  begin = record { slot = none; threads = λ t. outside; made = 0; deleted = [] }

  pub data Reach : State → Type 0 where
    start : Reach begin
    later : {s t : State} → Reach s → Step s t → Reach t

  abbrev pub held : ℕ → Place → ℕ
  held x outside = 0
  held x (holds new_fds) = one_if new_fds x
  held x (has fds) = 0

  abbrev pub in_slot : ℕ → Option ℕ → ℕ
  in_slot x none = 0
  in_slot x (some fds) = one_if fds x

  -- In how many places a segment is: in the table, with a thread that has made it, or deleted.
  abbrev pub places : ℕ → State → ℕ
  places x s = in_slot x s.slot + total n (λ t. held x (s.threads t)) + occurs x s.deleted
