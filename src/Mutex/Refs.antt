-- ===== src/Mutex/Refs.antt =====
-- The references of the mutex of src/process.cpp: `ref` and `unref` in any order.
use stp.Prelude.{
  ◌-◌, ◌≤◌, ◌≡◌, refl, Bool, true, false, List, [], ◌∷◌, Option, none, some, arith, if◌then◌else◌,
}
use stp.Mutex.{Mutex, create, ref, unref}

pub data Use : Type 0 where
  refs unrefs : Use

-- `none` is a failed assertion; `true` is that the mutex was deleted.
pub use_all : Mutex → List Use → Option (Mutex × Bool)
use_all m [] = some (m, false)
use_all m (refs ∷ us) = use_all (ref m) us
use_all m (unrefs ∷ us) = elim (unref m) [
  | none ↦ none
  | some r ↦ if r.1 then some (r.0, true) else use_all r.0 us
]

use_all-kept :
    (us : List Use) (m : Mutex) → 1 ≤ m.refcnt → (m' : Mutex) × (use_all m us ≡ some (m', false))
unfolding use_all ref unref
use_all-kept [] m h = (m, refl)
use_all-kept (refs ∷ us) m h = use_all-kept us (ref m) (omega arith)
use_all-kept (unrefs ∷ us) m h =
    let (m', e) = use_all-kept us (record m { refcnt = m.refcnt - 0 }) (omega arith) in
    (m', ground arith)

-- Whatever sequence of `ref` and `unref` follows its creation, no assertion fails and the mutex is
-- never deleted.
pub use_all-create : (us : List Use) → (m : Mutex) × (use_all create us ≡ some (m, false))
unfolding create
use_all-create us = use_all-kept us create (omega arith)
