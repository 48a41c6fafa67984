-- ===== src/Bits.antt =====
-- The operators `&` and `|` of the program: their law for the lowest digit, and from it what a
-- mask of k ones, 2^k - 1, does to a number of any size, and what `|` does to disjoint fields.
use Prim.Native.Nat.{min, max, bit_and, bit_or, digits, bit_and-bitwise, bit_or-bitwise}
use native.Mathlib.Nat.{
  pow-suc, one-le-pow, div-div-eq-div-mul, div-add-mod, mul_comm, mod-eq_of_lt,
}
use stp.Prelude.{ℕ, zero, suc, ◌+◌, ◌-◌, ◌*◌, ◌/◌, ◌%◌, ◌^◌, ◌≤◌, ◌<◌, ◌≡◌, refl, ap, arith}

-- With enough fuel the digits do not depend on it.
module _ (z : ℕ → ℕ) (join : ℕ → ℕ → ℕ) where
  digits-enough : (n m a b : ℕ) → a ≤ n → a ≤ m → digits z join n a b ≡ digits z join m a b
  digits-enough n m zero b p q = start n m
    where
      start : (n m : ℕ) → digits z join n zero b ≡ digits z join m zero b
      start zero zero = refl
      start zero (suc m) = refl
      start (suc n) zero = refl
      start (suc n) (suc m) = refl
  digits-enough zero m (suc a) b p q = absurd (omega arith)
  digits-enough (suc n) zero (suc a) b p q = absurd (omega arith)
  digits-enough (suc n) (suc m) (suc a) b p q =
      omega (arith, digits-enough n m (suc a / 2) (b / 2) (omega arith) (omega arith))

and_digit : (a b : ℕ) → bit_and a b ≡ bit_and (a / 2) (b / 2) * 2 + min (a % 2) (b % 2)
and_digit zero b = omega (arith, bit_and-bitwise 0 b, bit_and-bitwise 0 (b / 2))
and_digit (suc a) b = omega (
  arith,
  bit_and-bitwise (suc a) b,
  bit_and-bitwise (suc a / 2) (b / 2),
  digits-enough (λ y. zero) min a (suc a / 2) (suc a / 2) (b / 2) (omega arith) (omega arith),
)

or_digit : (a b : ℕ) → bit_or a b ≡ bit_or (a / 2) (b / 2) * 2 + max (a % 2) (b % 2)
or_digit zero b = omega (arith, bit_or-bitwise 0 b, bit_or-bitwise 0 (b / 2))
or_digit (suc a) b = omega (
  arith,
  bit_or-bitwise (suc a) b,
  bit_or-bitwise (suc a / 2) (b / 2),
  digits-enough (λ y. y) max a (suc a / 2) (suc a / 2) (b / 2) (omega arith) (omega arith),
)

-- The same law where the second number has one digit less than the induction is on.
and_none : (n a : ℕ) → a ≤ n → bit_and a 0 ≡ 0
and_none n zero h = omega (arith, bit_and-bitwise 0 0)
and_none zero (suc a) h = absurd (omega arith)
and_none (suc n) (suc a) h =
    omega (arith, and_digit (suc a) 0, and_none n (suc a / 2) (omega arith))

or_none : (n a : ℕ) → a ≤ n → bit_or a 0 ≡ a
or_none n zero h = omega (arith, bit_or-bitwise 0 0)
or_none zero (suc a) h = absurd (omega arith)
or_none (suc n) (suc a) h = omega (arith, or_digit (suc a) 0, or_none n (suc a / 2) (omega arith))

-- Division by twice a number goes by two first.
halves : (a s : ℕ) → a / (2 * s) ≡ a / 2 / s
halves a s = omega (arith, div-div-eq-div-mul a 2 s)

twice : (k : ℕ) → 2 ^ suc k ≡ 2 * 2 ^ k
twice k = omega (arith, pow-suc 2 k)

-- `a & (2^k - 1)` keeps the k low bits.
pub bit_and-ones : (k a : ℕ) → bit_and a (2 ^ k - 1) ≡ a % 2 ^ k
bit_and-ones zero a = omega (arith, and_none a a (omega arith))
bit_and-ones (suc k) a = ground (
  arith,
  and_digit a (2 ^ suc k - 1),
  bit_and-ones k (a / 2),
  twice k,
  one-le-pow k 2,
  halves a (2 ^ k),
  div-add-mod a (2 * 2 ^ k),
  div-add-mod (a / 2) (2 ^ k),
)

-- `a | (2^k - 1)` sets the k low bits.
pub bit_or-ones : (k a : ℕ) → bit_or a (2 ^ k - 1) ≡ a / 2 ^ k * 2 ^ k + (2 ^ k - 1)
bit_or-ones zero a = omega (arith, or_none a a (omega arith))
bit_or-ones (suc k) a = ground (
  arith,
  or_digit a (2 ^ suc k - 1),
  bit_or-ones k (a / 2),
  twice k,
  one-le-pow k 2,
  halves a (2 ^ k),
  mul_comm (a / 2 / 2 ^ k) (2 ^ k),
)

-- `a | b << k` is a sum where a fits k bits.
pub bit_or-fields : (k a b : ℕ) → a < 2 ^ k → bit_or a (b * 2 ^ k) ≡ a + b * 2 ^ k
bit_or-fields zero a b h = ground (arith, bit_or-bitwise 0 b)
bit_or-fields (suc k) a b h = ground (
  arith,
  or_digit a (b * 2 ^ suc k),
  bit_or-fields k (a / 2) b,
  twice k,
  ap (λ (t : ℕ). b * t) (twice k),
)

-- `a & ~(2^k - 1)` clears the k low bits, in k + j bits.
pub bit_and-high : (k j a : ℕ) → a < 2 ^ (k + j) → bit_and a (2 ^ (k + j) - 2 ^ k) ≡ a - a % 2 ^ k
bit_and-high zero j a h = ground (arith, bit_and-ones j a, mod-eq_of_lt h)
bit_and-high (suc k) j a h =
    let e : suc k + j ≡ suc (k + j) = omega arith in
    let half : a / 2 < 2 ^ (k + j) = ground (arith, twice (k + j), e) in
    rw e (
      ground (
        arith,
        and_digit a (2 ^ suc (k + j) - 2 ^ suc k),
        bit_and-high k j (a / 2) half,
        twice k,
        twice (k + j),
        one-le-pow k 2,
        halves a (2 ^ k),
        div-add-mod a (2 * 2 ^ k),
        div-add-mod (a / 2) (2 ^ k),
      ))
