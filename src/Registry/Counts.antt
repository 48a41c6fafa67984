-- ===== src/Registry/Counts.antt =====
-- How often the map of the registry of src/process.cpp refers to a process.
use stp.Prelude.{one_if, ℕ, ◌+◌, ◌≤◌, ◌≡◌, refl, List, [], ◌∷◌, All, none, some, arith, update}
use stp.Dict.{find, assign, erase}

abbrev pub entries : ℕ → List (ℕ × ℕ) → ℕ
entries p [] = 0
entries p ((k, q) ∷ m) = one_if q p + entries p m

-- Every process stands under its own id.
abbrev pub Owned : (ℕ → ℕ) → List (ℕ × ℕ) → Type 0
Owned pid_of m = All (λ e. pid_of e.1 ≡ e.0) m

pub entries-assign :
    (p k q : ℕ) (m : List (ℕ × ℕ))
    → find k m ≡ none
    → entries p (assign k q m) ≡ entries p m + one_if q p
unfolding find assign
entries-assign p k q [] h = omega arith
entries-assign p k q ((j, r) ∷ m) h = ground (arith, entries-assign p k q m)

pub entries-erase :
    (p k q : ℕ) (m : List (ℕ × ℕ))
    → find k m ≡ some q
    → entries p m ≡ entries p (erase k m) + one_if q p
unfolding find erase
entries-erase p k q [] h = absurd (ground arith)
entries-erase p k q ((j, r) ∷ m) h = ground (arith, entries-erase p k q m)

pub entries-pos : (k q : ℕ) (m : List (ℕ × ℕ)) → find k m ≡ some q → 1 ≤ entries q m
entries-pos k q m h = ground (arith, entries-erase q k q m h)

pub erase-none : (k : ℕ) (m : List (ℕ × ℕ)) → find k m ≡ none → erase k m ≡ m
unfolding find erase
erase-none k [] h = refl
erase-none k ((j, r) ∷ m) h = ground (arith, erase-none k m)

pub find-Owned :
    (pid_of : ℕ → ℕ) (k q : ℕ) (m : List (ℕ × ℕ))
    → Owned pid_of m
    → find k m ≡ some q
    → pid_of q ≡ k
unfolding find
find-Owned pid_of k q [] o h = absurd (ground arith)
find-Owned pid_of k q ((j, r) ∷ m) o h = ground (arith, o.0, find-Owned pid_of k q m o.1)

pub erase-Owned :
    (pid_of : ℕ → ℕ) (k : ℕ) (m : List (ℕ × ℕ)) → Owned pid_of m → Owned pid_of (erase k m)
unfolding erase
erase-Owned pid_of k [] o = tt
erase-Owned pid_of k ((j, r) ∷ m) o = ground (arith, o.0, o.1, erase-Owned pid_of k m o.1)

pub update-Owned :
    (pid_of : ℕ → ℕ) (p id : ℕ) (m : List (ℕ × ℕ))
    → entries p m ≡ 0
    → Owned pid_of m
    → Owned (update pid_of p id) m
update-Owned pid_of p id [] e o = tt
update-Owned pid_of p id ((j, r) ∷ m) e o =
    (ground (arith, o.0), update-Owned pid_of p id m (ground arith) o.1)

pub assign-Owned :
    (pid_of : ℕ → ℕ) (k q : ℕ) (m : List (ℕ × ℕ))
    → find k m ≡ none
    → pid_of q ≡ k
    → Owned pid_of m
    → Owned pid_of (assign k q m)
unfolding assign find
assign-Owned pid_of k q [] h e o = (e, tt)
assign-Owned pid_of k q ((j, r) ∷ m) h e o = ground (arith, o.0, assign-Owned pid_of k q m)
