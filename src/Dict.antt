-- ===== src/Dict.antt =====
-- std::unordered_map, as the other modules use it: a list of its entries without a duplicate key, in
-- the order of its iteration, which the source leaves open: a new key goes to the end here.
use stp.Prelude.{
  ℕ, ◌≡◌, ◌≢◌, refl, List, [], ◌∷◌, ◌++◌, Option, none, some, arith, ◌==◌, if◌then◌else◌,
}

module _ {V : Type 0} where
  unfoldable pub find : ℕ → List (ℕ × V) → Option V
  find k [] = none
  find k ((j, v) ∷ m) = if j == k then some v else find k m

  unfoldable pub assign : ℕ → V → List (ℕ × V) → List (ℕ × V)
  assign k v [] = (k, v) ∷ []
  assign k v ((j, w) ∷ m) = if j == k then (k, v) ∷ m else (j, w) ∷ assign k v m

  unfoldable pub erase : ℕ → List (ℕ × V) → List (ℕ × V)
  erase k [] = []
  erase k ((j, w) ∷ m) = if j == k then m else (j, w) ∷ erase k m

  pub find-assign : (k : ℕ) (v : V) (m : List (ℕ × V)) → find k (assign k v m) ≡ some v
  unfolding find assign
  find-assign k v [] = ground arith
  find-assign k v ((j, w) ∷ m) = ground (arith, find-assign k v m)

  pub find-assign_other :
      (k j : ℕ) (v : V) (m : List (ℕ × V)) → j ≢ k → find j (assign k v m) ≡ find j m
  unfolding find assign
  find-assign_other k j v [] ne = ground arith
  find-assign_other k j v ((i, w) ∷ m) ne = ground (arith, find-assign_other k j v m ne)

  -- A key that is new goes to the end.
  pub assign-new :
      (k : ℕ) (v : V) (m : List (ℕ × V)) → find k m ≡ none → assign k v m ≡ m ++ (k, v) ∷ []
  unfolding find assign
  assign-new k v [] h = refl
  assign-new k v ((j, w) ∷ m) h = ground (arith, assign-new k v m)

  pub erase-append :
      (k : ℕ) (v : V) (m : List (ℕ × V)) → find k m ≡ none → erase k (m ++ (k, v) ∷ []) ≡ m
  unfolding find erase
  erase-append k v [] h = ground arith
  erase-append k v ((j, w) ∷ m) h = ground (arith, erase-append k v m)
