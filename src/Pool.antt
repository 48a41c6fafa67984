-- ===== src/Pool.antt =====
-- The free lists of src/process.cpp (messages) and src/context.cpp (contexts): each thread has a list
-- of its own, and takes from a common one, under a lock, when its own is empty.
--
-- An object is its address. The two files differ in the limit of a thread's list and in what happens
-- when there is no free object.
pub mod Threads
pub mod Safety
pub mod Bound
pub mod Reuse
mod Examples
use stp.Prelude.{ℕ, Option, none, some, leb, if◌then◌else◌, update}
use stp.Wild.{FreeList}

module _ (fl : FreeList) where
  pub record Pool : Type 0 where
    pub common : fl.Frees
    pub own : ℕ → fl.Frees

  -- `gFreeList.take()` under the lock.
  pub take_common : Pool → Option ℕ × Pool
  take_common p = ((fl.take p.common).0, record p { common = (fl.take p.common).1 })

  -- `allocContext`: the object, if one is free, and what `allocMessage` does before `malloc`.
  pub take_free : Pool → (thread : ℕ) → Option ℕ × Pool
  take_free p thread = elim (fl.take (p.own thread)).0 [
    | some x ↦ (some x, record p { own = update p.own thread (fl.take (p.own thread)).1 })
    | none ↦ take_common (record p { own = update p.own thread (fl.take (p.own thread)).1 })
  ]

  -- An object goes to the list of the thread, or to the common one when that has reached the limit.
  pub put_free : (limit : ℕ) → Pool → (thread x : ℕ) → Pool
  put_free limit p thread x =
      if leb limit (fl.size (p.own thread))
      then record p { common = fl.push p.common x }
      else record p { own = update p.own thread (fl.push (p.own thread) x) }

  -- `allocMessage` and `Context::create`, with what `malloc` or `new` would return.
  pub allocate : Pool → (thread malloc : ℕ) → ℕ × Pool
  allocate p thread malloc = elim (take_free p thread).0 [
    | some x ↦ (x, (take_free p thread).1)
    | none ↦ (malloc, (take_free p thread).1)
  ]

  pub dealloc_message : Pool → (thread m : ℕ) → Pool
  dealloc_message p thread m = put_free 10000 p thread m

  unfoldable pub dealloc_context : Pool → (thread ctx : ℕ) → Pool
  dealloc_context p thread ctx = put_free 5000 p thread ctx
