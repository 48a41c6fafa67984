-- ===== src/Context/Stacks.antt =====
-- The sizes of stacks, and stacks that are given back, of src/context.cpp.
use Prim.Native.Nat.{bit_and}
use native.Mathlib.Nat.{div-add-mod, one-le-pow, mul-mod_right, mod-lt}
use stp.Prelude.{
  ℕ, zero, suc, ◌+◌, ◌-◌, ◌*◌, ◌/◌, ◌%◌, ◌^◌, ◌<◌, ◌≤◌, ◌≡◌, refl, ap, ◌∙◌, true, false, ◌∷◌, none,
  some, arith, ltb, lt→ltb, le→ltb, ◌==◌, update,
}
use stp.Bits.{bit_and-high}
use stp.Context.{
  size_mod, Cache, cache_size, round_up, stack_size, take_cached, map_stack, mstack, munstack,
}

mask_lem :
    (k a : ℕ) → k ≤ 60 → a < size_mod → bit_and a (size_mod - 1 - (2 ^ k - 1)) ≡ a - a % 2 ^ k
mask_lem k a h p =
    let e : k + (64 - k) ≡ 64 = omega arith in
    let ones : size_mod - 1 - (2 ^ k - 1) ≡ size_mod - 2 ^ k = omega (arith, one-le-pow k 2) in
    rw ones (rw e at (bit_and-high k (64 - k) a (rw e p)))

-- The least multiple of a page that is not less.
round_up_lem :
    (k addstack : ℕ)
    → k ≤ 60
    → addstack + 9 * 2 ^ k < size_mod
    → (m : ℕ) × (round_up (2 ^ k) addstack ≡ 2 ^ k * m)
      × (addstack ≤ 2 ^ k * m)
      × (2 ^ k * m < addstack + 2 ^ k)
unfolding round_up
round_up_lem k zero h p = (0, omega arith, omega arith, omega (arith, one-le-pow k 2))
round_up_lem k (suc n) h p =
    let a : ℕ = suc n + (2 ^ k - 1) in
    let in_range : a % size_mod ≡ a = omega arith in
    let nz : (suc n == 0) ≡ false = ground arith in
    let page_pos : 0 < 2 ^ k = omega (arith, one-le-pow k 2) in
    (
      a / 2 ^ k,
      rw (in_range, nz) (mask_lem k a h (omega arith) ∙ omega (arith, div-add-mod a (2 ^ k))),
      omega (arith, div-add-mod a (2 ^ k), mod-lt a page_pos),
      omega (arith, div-add-mod a (2 ^ k), one-le-pow k 2),
    )

-- With pages of 2^k bytes, k at most 60, a size of additional stack that does not overflow gives a
-- stack of whole pages, which holds that size and 8 pages more, and wastes less than a page.
pub stack_size-enough :
    (k addstack : ℕ)
    → k ≤ 60
    → addstack + 9 * 2 ^ k < 2 ^ 64
    → (8 * 2 ^ k + addstack ≤ stack_size (2 ^ k) addstack)
      × (stack_size (2 ^ k) addstack < 9 * 2 ^ k + addstack)
      × (stack_size (2 ^ k) addstack % 2 ^ k ≡ 0)
unfolding stack_size
stack_size-enough k addstack h p =
    let (m, e, low, high) = round_up_lem k addstack h p in
    let in_range : (8 * 2 ^ k + round_up (2 ^ k) addstack) % size_mod ≡ 2 ^ k * (8 + m) =
      ground arith in
    (omega arith, omega arith, rw in_range (mul-mod_right (2 ^ k) (8 + m)))

-- A stack of a size that is cached is kept when it is given back, and is the next one that is handed
-- out for this size, whatever mmap would return; the cache is then as it was.
pub mstack-munstack :
    (page : ℕ) (cache : Cache) (addstack stack low_page : ℕ)
    → stack_size page addstack % page ≡ 0
    → stack_size page addstack / page < cache_size
    → (given : Cache) × (left : Cache) × (munstack page cache stack (stack_size page addstack)
        ≡ some (given, none))
      × (mstack page given addstack low_page ≡ some (stack, stack_size page addstack, left))
      × ((i : ℕ) → left i ≡ cache i)
unfolding mstack munstack take_cached map_stack
mstack-munstack page cache addstack stack low_page whole cached =
    let i : ℕ = stack_size page addstack / page in
    let given : Cache = update cache i (stack ∷ cache i) in
    let e0 : (stack_size page addstack % page == 0) ≡ true = rw whole refl in
    let l0 : ltb i cache_size ≡ true = lt→ltb i cache_size cached in
    let g0 : given i ≡ stack ∷ cache i = ground arith in
    (given, update given i (cache i), rw (e0, l0) refl, rw (e0, l0, g0) refl, λ j. ground arith)

-- A stack of a size that is not cached is unmapped with its two guard pages when it is given back:
-- munmap gets the address that mmap returned and the length that it was asked for.
pub munstack-mstack :
    (page : ℕ) (cache : Cache) (addstack low_page : ℕ)
    → stack_size page addstack % page ≡ 0
    → cache_size ≤ stack_size page addstack / page
    → (stack : ℕ) × (mstack page cache addstack low_page
        ≡ some (stack, stack_size page addstack, cache))
      × (munstack page cache stack (stack_size page addstack)
          ≡ some (cache, some (low_page, stack_size page addstack + 2 * page)))
unfolding mstack munstack take_cached map_stack
munstack-mstack page cache addstack low_page whole large =
    let i : ℕ = stack_size page addstack / page in
    let e0 : (stack_size page addstack % page == 0) ≡ true = rw whole refl in
    let l0 : ltb i cache_size ≡ false = le→ltb i cache_size large in
    (
      low_page + page,
      rw (e0, l0) refl,
      rw (e0, l0)
          (ap (λ t. some (cache, some (t, stack_size page addstack + 2 * page))) (omega arith)),
    )
