-- ===== src/Io/Buffer.antt =====
-- A caller's buffer of src/io.cpp: the bytes from its pointer on.
use stp.Prelude.{
  ℕ, zero, suc, ◌+◌, ◌≤◌, ◌<◌, ◌≡◌, refl, ap, ◌∙◌, ◌⊎◌, inl, List, [], ◌∷◌, ◌++◌, length, update,
  arith,
}

module _ {Byte : Type 0} where
  -- The buffer with `bytes` put at place `at`.
  unfoldable pub write_at : (ℕ → Byte) → ℕ → List Byte → ℕ → Byte
  write_at buf at [] = buf
  write_at buf at (b ∷ bytes) = write_at (update buf at b) (at + 1) bytes

  -- The `n` bytes from place `at` on.
  unfoldable pub window : (ℕ → Byte) → (at n : ℕ) → List Byte
  window buf at zero = []
  window buf at (suc n) = buf at ∷ window buf (at + 1) n

  -- A write changes nothing outside its place.
  pub write_at-outside :
      (buf : ℕ → Byte) (at : ℕ) (bytes : List Byte) (i : ℕ)
      → (i < at) ⊎ (at + length bytes ≤ i)
      → write_at buf at bytes i ≡ buf i
  unfolding write_at
  write_at-outside buf at [] i h = refl
  write_at-outside buf at (b ∷ bytes) i h =
      write_at-outside (update buf at b) (at + 1) bytes i (omega arith) ∙ ground arith

  pub window_same :
      (f g : ℕ → Byte) (at n : ℕ)
      → ((i : ℕ) → at ≤ i → i < at + n → f i ≡ g i)
      → window f at n ≡ window g at n
  unfolding window
  window_same f g at zero h = refl
  window_same f g at (suc n) h = rw (
    h at (omega arith) (omega arith),
    window_same f g (at + 1) n (λ i p q. h i (omega arith) (omega arith)),
  )

  pub window-append :
      (f : ℕ → Byte) (at m n : ℕ) → window f at (m + n) ≡ window f at m ++ window f (at + m) n
  unfolding window
  window-append f at zero n = ground arith
  window-append f at (suc m) n =
      let e : suc m + n ≡ suc (m + n) = omega arith in
      let next : at + suc m ≡ at + 1 + m = omega arith in
      rw (e, next) (ap (◌∷◌ (f at)) (window-append f (at + 1) m n))

  -- And it can be read back.
  pub window-write_at :
      (buf : ℕ → Byte) (at : ℕ) (bytes : List Byte)
      → window (write_at buf at bytes) at (length bytes) ≡ bytes
  unfolding write_at window
  window-write_at buf at [] = refl
  window-write_at buf at (b ∷ bytes) =
      rw
        (
          write_at-outside (update buf at b) (at + 1) bytes at (inl (omega arith)),
          window-write_at (update buf at b) (at + 1) bytes,
        )
        (ground arith)

  -- Two writes in a row are one.
  pub write_at-append :
      (buf : ℕ → Byte) (at : ℕ) (xs ys : List Byte)
      → write_at (write_at buf at xs) (at + length xs) ys ≡ write_at buf at (xs ++ ys)
  unfolding write_at
  write_at-append buf at [] ys = ground arith
  write_at-append buf at (x ∷ xs) ys =
      let next : at + suc (length xs) ≡ at + 1 + length xs = omega arith in
      rw next (write_at-append (update buf at x) (at + 1) xs ys)
