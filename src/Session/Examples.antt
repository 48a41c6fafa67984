-- ===== src/Session/Examples.antt =====
-- The theorem on sessions at an allocator of numbers, and a variable that is moved.
use stp.Prelude.{
  ℕ, ◌+◌, ◌≤◌, ◌≡◌, ◌≢◌, refl, Bool, true, false, not, ◌&&◌, ◌||◌, List, [], ◌∷◌, arith, ◌==◌, ltb,
  if◌then◌else◌,
}
use stp.Wild.{IdAllocator}
use stp.Session.{no_session, Store, new_session, assign}
use stp.Session.Owners.{Owned, used_in, creates, assigns, start, later, Reach-Owned}

abbrev pub greatest : List ℕ → ℕ
greatest [] = 0
greatest (x ∷ l) = if ltb x (greatest l) then greatest l else x

abbrev pub among : List ℕ → ℕ → Bool
among [] y = false
among (x ∷ l) y = x == y || among l y

abbrev pub without : ℕ → List ℕ → List ℕ
without x [] = []
without x (y ∷ l) = if x == y then without x l else y ∷ without x l

among-greatest : (l : List ℕ) (y : ℕ) → among l y ≡ true → y ≤ greatest l
among-greatest [] y h = absurd (cc h)
among-greatest (x ∷ l) y h = ground (arith, h, among-greatest l y)

pub among-without :
    (x : ℕ) (l : List ℕ) (y : ℕ) → among (without x l) y ≡ (not (x == y) && among l y)
among-without x [] y = ground arith
among-without x (z ∷ l) y = ground (arith, among-without x l y)

pub greatest-unused : (l : List ℕ) → among l (greatest l + 1) ≡ false
greatest-unused l = ground (arith, among-greatest l (greatest l + 1))

pub greatest-pos : (l : List ℕ) → greatest l + 1 ≢ 0
greatest-pos l = omega arith

abbrev pub numbers : IdAllocator
numbers = record {
  Ids = List ℕ;
  no_ids = [];
  new_id = λ l. (greatest l + 1, (greatest l + 1) ∷ l);
  erase = without;
  in_use = among;
  in_use-no_ids = λ x. refl;
  new_id-unused = λ l. greatest-unused l;
  new_id-ne-0 = λ l. greatest-pos l;
  in_use-new_id = λ l x. refl;
  in_use-erase = λ l x y. among-without x l y;
}

abbrev none_yet : Store numbers
none_yet = record { ids = λ p. []; vars = λ v. no_session }

abbrev moved : Store numbers
moved = assign numbers (new_session numbers (new_session numbers none_yet 1 7) 2 7) 1 2

Reach-Owned_example : Owned (used_in numbers moved) moved.vars
unfolding new_session
Reach-Owned_example =
    Reach-Owned numbers
      (later (later (later start (creates 1 7 refl)) (creates 2 7 refl)) (assigns 1 2))
