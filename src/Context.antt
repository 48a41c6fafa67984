-- ===== src/Context.antt =====
-- src/context.cpp: the stacks of the coroutines, and the cache of those that are free. The contexts
-- themselves are in Objects.
--
-- A size_t is taken modulo 2^64. What mmap returns is an argument, the address of the first page; a
-- call of munmap is its address and its length.
pub mod Stacks
pub mod Objects
mod Examples
use Prim.Native.Nat.{bit_and}
use stp.Prelude.{
  ℕ, ◌+◌, ◌-◌, ◌*◌, ◌/◌, ◌%◌, ◌^◌, Bool, List, [], ◌∷◌, Option, none, some, ltb, ◌==◌,
  if◌then◌else◌, update,
}

abbrev pub size_mod : ℕ
size_mod = 2 ^ 64

-- `gStacks`: the free stacks by their size in pages.
abbrev pub Cache : Type 0
Cache = ℕ → List ℕ

abbrev pub cache_size : ℕ
cache_size = 32

module _ (page : ℕ) where
  -- `(addstack + stackmask) & (~stackmask)`, unless it is 0.
  pub round_up : ℕ → ℕ
  round_up addstack =
      let stackmask : ℕ = page - 1 in
      if addstack == 0
      then 0
      else bit_and ((addstack + stackmask) % size_mod) (size_mod - 1 - stackmask)

  pub stack_size : ℕ → ℕ
  stack_size addstack = (8 * page + round_up addstack) % size_mod

  -- `sl.First`, if this size is cached.
  pub take_cached : Cache → (index : ℕ) → Option ℕ × Cache
  take_cached cache i =
      if ltb i cache_size
      then elim (cache i) [ [] ↦ (none, cache) | stack ∷ rest ↦ (some stack, update cache i rest) ]
      else (none, cache)

  pub map_stack : Option ℕ → (low_page : ℕ) → ℕ
  map_stack none low_page = low_page + page
  map_stack (some stack) low_page = stack

  -- The stack, its size and the cache; `none` is the failed assertion.
  pub mstack : Cache → (addstack low_page : ℕ) → Option (ℕ × ℕ × Cache)
  mstack cache addstack low_page =
      let size : ℕ = stack_size addstack in
      let (found, cache') = take_cached cache (size / page) in
      if size % page == 0 then some (map_stack found low_page, size, cache') else none

  -- The cache, and the call of munmap.
  pub munstack : Cache → (stack size : ℕ) → Option (Cache × Option (ℕ × ℕ))
  munstack cache stack size =
      let i : ℕ = size / page in
      if size % page == 0
      then (if ltb i cache_size
          then some (update cache i (stack ∷ cache i), none)
          else some (cache, some (stack - page, size + 2 * page)))
      else none
