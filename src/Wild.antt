-- ===== src/Wild.antt =====
-- What stp uses of the library wild, whose source is not in this repository: each class is a
-- record of its operations with the documented behaviour that stp relies on.
use stp.Prelude.{
  length, Option, none, some, ℕ, Bool, false, not, ◌&&◌, ◌||◌, ◌==◌, ◌≢◌, ◌≡◌, List, [], ◌∷◌, ◌++◌,
  refl,
}

-- wild::AppendList: a queue that is filled at the end and emptied as a whole.
pub record AppendList (A : Type 0) : Type 1 where
  pub Queue : Type 0
  pub empty : Queue
  pub push : Queue → A → Queue
  pub clear : Queue → List A × Queue
  pub contents : Queue → List A
  pub contents-empty : contents empty ≡ []
  pub contents-push : (q : Queue) (a : A) → contents (push q a) ≡ contents q ++ a ∷ []
  pub clear_all : (q : Queue) → (clear q).0 ≡ contents q
  pub contents-clear : (q : Queue) → contents (clear q).1 ≡ []

-- A list meets it.
abbrev pub list_queue : {A : Type 0} → AppendList A
list_queue {A} = record {
  Queue = List A;
  empty = [];
  push = λ q a. q ++ a ∷ [];
  clear = λ q. (q, []);
  contents = λ q. q;
  contents-empty = refl;
  contents-push = λ q a. refl;
  clear_all = λ q. refl;
  contents-clear = λ q. refl;
}

-- wild::IdAllocator over uint32: it hands out ids that are not in use, and not 0.
pub record IdAllocator : Type 1 where
  pub Ids : Type 0
  pub no_ids : Ids
  pub new_id : Ids → ℕ × Ids
  pub erase : ℕ → Ids → Ids
  pub in_use : Ids → ℕ → Bool
  pub in_use-no_ids : (x : ℕ) → in_use no_ids x ≡ false
  pub new_id-unused : (i : Ids) → in_use i (new_id i).0 ≡ false
  pub new_id-ne-0 : (i : Ids) → (new_id i).0 ≢ 0
  pub in_use-new_id : (i : Ids) (x : ℕ) → in_use (new_id i).1 x ≡ ((new_id i).0 == x || in_use i x)
  pub in_use-erase : (i : Ids) (x y : ℕ) → in_use (erase x i) y ≡ (not (x == y) && in_use i y)

-- wild::FreeList: objects, by their address, that are linked while they are free.
pub record FreeList : Type 1 where
  pub Frees : Type 0
  pub no_frees : Frees
  pub take : Frees → Option ℕ × Frees
  pub push : Frees → ℕ → Frees
  pub size : Frees → ℕ
  pub contents : Frees → List ℕ
  pub size_lem : (f : Frees) → size f ≡ length (contents f)
  pub contents-no_frees : contents no_frees ≡ []
  pub contents-push : (f : Frees) (x : ℕ) → contents (push f x) ≡ x ∷ contents f
  pub take_empty : (f : Frees) → (take f).0 ≡ none → contents f ≡ []
  pub take-none : (f : Frees) → (take f).0 ≡ none → contents (take f).1 ≡ contents f
  pub take-some : (f : Frees) (x : ℕ) → (take f).0 ≡ some x → contents f ≡ x ∷ contents (take f).1

-- A list meets it.
abbrev pub pop : List ℕ → Option ℕ × List ℕ
pop [] = (none, [])
pop (x ∷ l) = (some x, l)

pub pop_empty : (l : List ℕ) → (pop l).0 ≡ none → l ≡ []
pop_empty [] e = refl
pop_empty (x ∷ l) e = absurd (cc e)

pub pop-none : (l : List ℕ) → (pop l).0 ≡ none → (pop l).1 ≡ l
pop-none [] e = refl
pop-none (x ∷ l) e = absurd (cc e)

pub pop-some : (l : List ℕ) (x : ℕ) → (pop l).0 ≡ some x → l ≡ x ∷ (pop l).1
pop-some [] x e = absurd (cc e)
pop-some (y ∷ l) x e = cc e

abbrev pub list_frees : FreeList
list_frees = record {
  Frees = List ℕ;
  no_frees = [];
  take = pop;
  push = λ l x. x ∷ l;
  size = length;
  contents = λ l. l;
  size_lem = λ l. refl;
  contents-no_frees = refl;
  contents-push = λ l x. refl;
  take_empty = λ l. pop_empty l;
  take-none = λ l. pop-none l;
  take-some = λ l. pop-some l;
}
