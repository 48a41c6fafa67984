-- ===== src/Timer/Slots.antt =====
-- The arithmetic of the wheel of src/time.cpp: which slot a deadline goes to, and what a tick does
-- to the digits of the time.
use Prim.Native.Nat.{bit_or}
use native.Mathlib.Nat.{div-div-eq-div-mul, div-add-mod}
use native.Mathlib.Decide.{ℕ_discrete, dec_lt}
use stp.Prelude.{
  ℕ, zero, suc, ◌+◌, ◌-◌, ◌*◌, ◌/◌, ◌%◌, ◌^◌, ◌≤◌, ◌<◌, ◌≡◌, ◌≢◌, inl, inr, refl, sym, ap, some,
  arith, ◌==◌, Bool-cases,
}
use stp.Bits.{bit_and-ones, bit_or-ones}
use stp.Timer.{queue_level, cascade_level, level_value}

-- The ticks that one slot of a level covers.
abbrev pub span : ℕ → ℕ
span zero = 2 ^ 14
span (suc level) = span level * 1024

pub span_pos : (l : ℕ) → 0 < span l
span_pos zero = omega arith
span_pos (suc l) = omega (arith, span_pos l)

pub lt_of_div-lt : (s a b : ℕ) → a / s < b / s → a < b
lt_of_div-lt s a b h = grind (arith, div-add-mod a s, div-add-mod b s)

pub suc-div-le : (t e s : ℕ) → 0 < s → t / s < e / s → (t + 1) / s ≤ e / s
suc-div-le t e s h p = grind arith

-- A deadline that is ahead by its digit stays ahead over a tick, unless its slot begins there.
pub suc-div-lt :
    (t e s : ℕ)
    → 0 < s
    → t / s < e / s
    → ((t + 1) % s ≡ 0 → (t + 1) / s ≢ e / s)
    → (t + 1) / s < e / s
suc-div-lt t e s h p q = elim (ℕ_discrete ((t + 1) % s) 0) [
  | yes turn ↦ let ne : (t + 1) / s ≢ e / s = q turn in omega (arith, suc-div-le t e s h p)
  | no inside ↦ let same : (t + 1) / s ≡ t / s = grind arith in omega arith
]

-- The higher digits stay shared.
pub shared_suc :
    (t e s : ℕ)
    → 0 < s
    → t / s < e / s
    → e / (s * 1024) ≡ t / (s * 1024)
    → e / (s * 1024) ≡ (t + 1) / (s * 1024)
shared_suc t e s h p q = omega (
  arith,
  suc-div-le t e s h p,
  div-div-eq-div-mul t s 1024,
  div-div-eq-div-mul e s 1024,
  div-div-eq-div-mul (t + 1) s 1024,
  upward,
)
  where
    upward : t / s ≤ (t + 1) / s
    upward = grind arith

-- A digit that is ahead under the same higher digits is not 0.
pub digit_pos : (t e s : ℕ) → t / s < e / s → e / (s * 1024) ≡ t / (s * 1024) → 0 < e / s % 1024
digit_pos t e s p q = omega (arith, div-div-eq-div-mul t s 1024, div-div-eq-div-mul e s 1024)

-- The test of `_queue` compares the digits from bit k on.
pub high_eq :
    (k a b : ℕ) → (bit_or a (2 ^ k - 1) == bit_or b (2 ^ k - 1)) ≡ (a / 2 ^ k == b / 2 ^ k)
high_eq k a b = elim (ℕ_discrete (a / 2 ^ k) (b / 2 ^ k)) [
  | yes e ↦ ground (arith, bit_or-ones k a, bit_or-ones k b)
  | no e ↦ ground (arith, bit_or-ones k a, bit_or-ones k b, grow, shrink)
]
  where
    grow : a / 2 ^ k < b / 2 ^ k → a / 2 ^ k * 2 ^ k < b / 2 ^ k * 2 ^ k
    grow p = grind arith

    shrink : b / 2 ^ k < a / 2 ^ k → b / 2 ^ k * 2 ^ k < a / 2 ^ k * 2 ^ k
    shrink p = grind arith

module _ (expire time : ℕ) where
  pub record IsLevel (l : ℕ) : Type 0 where
    pub in_range : l < 5
    pub ahead : time / span l < expire / span l
    pub shared : expire / (span l * 1024) ≡ time / (span l * 1024)

  -- The scan of the levels in `_queue` finds the level of a deadline beyond the near wheel.
  pub queue_level_lem :
      expire < 2 ^ 64
      → time < 2 ^ 64
      → time + 2 ^ 14 ≤ expire
      → (l : ℕ) × (queue_level 5 0 (2 ^ 14) expire time ≡ some l) × IsLevel l
  unfolding queue_level
  queue_level_lem p q r =
      rw
        (
          high_eq 24 expire time,
          high_eq 34 expire time,
          high_eq 44 expire time,
          high_eq 54 expire time,
          high_eq 64 expire time,
        )
        (elim (Bool-cases (expire / 2 ^ 24 == time / 2 ^ 24)) [
          | inl a ↦ rw a (0, refl, ground arith)
          | inr a ↦ rw a (elim (Bool-cases (expire / 2 ^ 34 == time / 2 ^ 34)) [
            | inl b ↦ rw b (1, refl, ground arith)
            | inr b ↦ rw b (elim (Bool-cases (expire / 2 ^ 44 == time / 2 ^ 44)) [
              | inl c ↦ rw c (2, refl, ground arith)
              | inr c ↦ rw c (elim (Bool-cases (expire / 2 ^ 54 == time / 2 ^ 54)) [
                | inl d ↦ rw d (3, refl, ground arith)
                | inr d ↦ (4, ground arith, ground arith)
              ])
            ])
          ])
        ])

-- The digit that `_queue` computes for a level of the wheel.
pub level_value_lem : (l e : ℕ) → l < 5 → level_value l e ≡ e / span l % 1024
level_value_lem zero e h = omega (arith, bit_and-ones 10 (e / 2 ^ 14))
level_value_lem (suc zero) e h = omega (arith, bit_and-ones 10 (e / 2 ^ 24))
level_value_lem (suc (suc zero)) e h = omega (arith, bit_and-ones 10 (e / 2 ^ 34))
level_value_lem (suc (suc (suc zero))) e h = omega (arith, bit_and-ones 10 (e / 2 ^ 44))
level_value_lem (suc (suc (suc (suc zero)))) e h = omega (arith, bit_and-ones 10 (e / 2 ^ 54))
level_value_lem (suc (suc (suc (suc (suc l))))) e h = absurd (omega arith)

-- At a multiple of the span of the next level this level's digit and rest are 0.
multiple_of_next : (t s : ℕ) → 0 < s → t % (s * 1024) ≡ 0 → (t % s ≡ 0) × (t / s % 1024 ≡ 0)
multiple_of_next t s h e = both (t / s % 1024) refl
  where
    whole : s * (t / s) + t % s ≡ s * 1024 * (t / s / 1024)
    whole =
        omega (arith, div-add-mod t s, div-add-mod t (s * 1024), div-div-eq-div-mul t s 1024, over)
      where
        over : s * 1024 * (t / (s * 1024)) ≡ s * 1024 * (t / s / 1024)
        over = ap (λ (x : ℕ). s * 1024 * x) (sym (div-div-eq-div-mul t s 1024))

    parts : s * (t / s) ≡ s * (1024 * (t / s / 1024) + t / s % 1024)
    parts = ap (λ (x : ℕ). s * x) (sym (div-add-mod (t / s) 1024))

    both : (d : ℕ) → t / s % 1024 ≡ d → (t % s ≡ 0) × (t / s % 1024 ≡ 0)
    both zero q = omega (arith, whole, parts, ap (λ (x : ℕ). s * x) q)
    both (suc d) q = absurd (grind (arith, whole, parts, ap (λ (x : ℕ). s * x) q))

-- So a level below one whose slot begins has digit 0.
digit-eq-zero : (m k t : ℕ) → k < m → t % span m ≡ 0 → t / span k % 1024 ≡ 0
digit-eq-zero zero k t h e = absurd (omega arith)
digit-eq-zero (suc m) k t h e =
    let next : (t % span m ≡ 0) × (t / span m % 1024 ≡ 0) =
      multiple_of_next t (span m) (span_pos m) e in
    elim (ℕ_discrete k m) [
      | yes same ↦ rw same next.1
      | no below ↦ digit-eq-zero m k t (omega arith) next.0
    ]

-- And a slot of any level begins with a turn of the near wheel.
pub span-multiple : (m t : ℕ) → t % span m ≡ 0 → t % 2 ^ 14 ≡ 0
span-multiple zero t e = e
span-multiple (suc m) t e = span-multiple m t (multiple_of_next t (span m) (span_pos m) e).0

pub le_of_div-le : (s t e : ℕ) → t % s ≡ 0 → t / s ≤ e / s → t ≤ e
le_of_div-le s t e h p = grind (arith, div-add-mod t s, div-add-mod e s)

module _ (time : ℕ) where
  -- The time has just entered the slot `value` of level `l`, and no slot of another level.
  pub record IsTurn (l value : ℕ) : Type 0 where
    pub in_range : l < 5
    pub digit : value ≡ time / span l % 1024
    pub starts : time % span l ≡ 0
    pub pos : 0 < value

  -- The slots of two levels never begin at the same time.
  pub IsTurn-only :
      {l value : ℕ}
      → IsTurn l value
      → (k : ℕ) → time % span k ≡ 0
      → 0 < time / span k % 1024
      → k ≡ l
  IsTurn-only {l} {value} turn k e h = elim (dec_lt k l) [
    | yes below ↦ absurd (omega (arith, digit-eq-zero l k time below turn.starts))
    | no other ↦ elim (dec_lt l k) [
      | yes above ↦ absurd (omega (arith, digit-eq-zero k l time above e))
      | no same ↦ omega arith
    ]
  ]

  -- The scan of the levels in `_tick` ends at the slot that the time has entered.
  pub cascade_level_lem :
      time < 2 ^ 64
      → 0 < time
      → time % 2 ^ 14 ≡ 0
      → (l value : ℕ) × (cascade_level 5 0 (time / 2 ^ 14) ≡ some (l, value)) × IsTurn l value
  unfolding cascade_level
  cascade_level_lem p q r =
      rw
        (
          bit_and-ones 10 (time / 2 ^ 14),
          bit_and-ones 10 (time / 2 ^ 14 / 2 ^ 10),
          bit_and-ones 10 (time / 2 ^ 14 / 2 ^ 10 / 2 ^ 10),
          bit_and-ones 10 (time / 2 ^ 14 / 2 ^ 10 / 2 ^ 10 / 2 ^ 10),
          bit_and-ones 10 (time / 2 ^ 14 / 2 ^ 10 / 2 ^ 10 / 2 ^ 10 / 2 ^ 10),
        )
        (elim (ℕ_discrete (time / 2 ^ 14 % 1024) 0) [
          | no a ↦ (0, time / 2 ^ 14 % 1024, ground arith, ground arith)
          | yes a ↦ elim (ℕ_discrete (time / 2 ^ 24 % 1024) 0) [
            | no b ↦ (1, time / 2 ^ 24 % 1024, ground arith, ground arith)
            | yes b ↦ elim (ℕ_discrete (time / 2 ^ 34 % 1024) 0) [
              | no c ↦ (2, time / 2 ^ 34 % 1024, ground arith, ground arith)
              | yes c ↦ elim (ℕ_discrete (time / 2 ^ 44 % 1024) 0) [
                | no d ↦ (3, time / 2 ^ 44 % 1024, ground arith, ground arith)
                | yes d ↦ (4, time / 2 ^ 54 % 1024, ground arith, ground arith)
              ]
            ]
          ]
        ])
