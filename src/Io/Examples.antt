-- ===== src/Io/Examples.antt =====
-- The theorems on src/io.cpp at concrete runs, with 11 for EAGAIN.
use stp.Prelude.{ℕ, ◌+◌, ◌≡◌, refl, inl, inr, [], ◌∷◌, some, arith}
use stp.Io.{Received, read_full, write}
use stp.Io.Buffer.{window}
use stp.Io.Laws.{Filled, read_full-Filled, write-window}

abbrev half : Received ℕ
half = record { bytes = 1 ∷ 2 ∷ []; err = 11 }

abbrev rest_of : Received ℕ
rest_of = record { bytes = 3 ∷ []; err = 0 }

abbrev blocked : Received ℕ
blocked = record { bytes = []; err = 11 }

abbrev zeros : ℕ → ℕ
zeros i = 0

read_full-Filled_example :
    (buf' : ℕ → ℕ) × (read_full 11 (half ∷ blocked ∷ rest_of ∷ []) 3 zeros ≡ some (3, 0, buf'))
    × Filled zeros buf' 3 (1 ∷ 2 ∷ 3 ∷ [])
read_full-Filled_example =
    read_full-Filled 11 (half ∷ blocked ∷ []) rest_of [] 3 zeros (omega arith) (refl, (refl, tt))
      (omega arith) (omega arith) (inl refl)

abbrev counting : ℕ → ℕ
counting i = i + 1

write-window_example :
    write 11 (record { n = 2; err = 11 } ∷ record { n = 1; err = 32 } ∷ []) 5 counting
    ≡ some (3, 32, 1 ∷ 2 ∷ 3 ∷ [])
unfolding window
write-window_example =
    write-window 11 (record { n = 2; err = 11 } ∷ []) (record { n = 1; err = 32 }) [] 5 counting
      (omega arith) (refl, tt) (omega arith) (omega arith) (inr (λ e. omega arith))
