-- ===== src/Prelude/Lists.antt =====
-- Lists measured by native numbers, predicates on all the elements of a list, families of slots
-- that are updated at one index, and chains of fallible steps.
use Prim.Native.Nat.{ℕ, zero, suc, ◌+◌, ◌<◌}
use mathlib.Core.Path.{◌≡◌, refl, ap, subst}
use mathlib.Core.Logic.{inl, inr}
use mathlib.Core.Bool.{false}
use mathlib.Core.List.{List, [], ◌∷◌, ◌++◌}
use mathlib.Core.Option.{Option, none, some}
use native.Mathlib.Omega.{arith}
use native.Mathlib.Decide.{dec_lt}
use package.stp.Prelude.Tests.{◌==◌, if◌then◌else◌, Bool-cases, ==→eq}

module _ {ℓ} {A : Type ℓ} where
  abbrev pub length : List A → ℕ
  length [] = 0
  length (x ∷ xs) = suc (length xs)

  pub length-append : (xs ys : List A) → length (xs ++ ys) ≡ length xs + length ys
  length-append [] ys = omega arith
  length-append (x ∷ xs) ys = omega (arith, length-append xs ys)

-- A predicate on every element; it computes to a tuple.
abbrev pub All {ℓ κ} : {A : Type ℓ} → (A → Type κ) → List A → Type κ
All P [] = Unit
All P (x ∷ xs) = P x × All P xs

module _ {ℓ κ} {A : Type ℓ} (P : A → Type κ) where
  pub All-append : (xs ys : List A) → All P xs → All P ys → All P (xs ++ ys)
  All-append [] ys p q = q
  All-append (x ∷ xs) ys p q = (p.0, All-append xs ys p.1 q)

  pub All-mono {μ} : (Q : A → Type μ) → ((a : A) → P a → Q a) → (xs : List A) → All P xs → All Q xs
  All-mono Q f [] p = tt
  All-mono Q f (x ∷ xs) p = (f x p.0, All-mono Q f xs p.1)

-- An array whose entry `i` is replaced.
abbrev pub update {ℓ} : {A : Type ℓ} → (ℕ → A) → ℕ → A → ℕ → A
update f i a j = if i == j then a else f j

-- The sum of the first `n` entries of an array.
unfoldable pub total : ℕ → (ℕ → ℕ) → ℕ
total zero f = 0
total (suc n) f = total n f + f n

-- The sum of a weight over the elements of a list.
pub weight {ℓ} : {A : Type ℓ} → (A → ℕ) → List A → ℕ
weight w [] = 0
weight w (x ∷ xs) = w x + weight w xs

pub weight-nil {ℓ} : {A : Type ℓ} (w : A → ℕ) → weight w [] ≡ 0
unfolding weight
weight-nil w = refl

pub weight-cons {ℓ} :
    {A : Type ℓ} (w : A → ℕ) (x : A) (xs : List A) → weight w (x ∷ xs) ≡ w x + weight w xs
unfolding weight
weight-cons w x xs = refl

pub weight-eq_zero {ℓ κ} :
    {A : Type ℓ} (w : A → ℕ) (P : A → Type κ)
    → ((a : A) → P a → w a ≡ 0)
    → (xs : List A) → All P xs
    → weight w xs ≡ 0
unfolding weight
weight-eq_zero w P zero_at [] h = refl
weight-eq_zero w P zero_at (x ∷ xs) h =
    omega (arith, zero_at x h.0, weight-eq_zero w P zero_at xs h.1)

pub total-eq_zero : (n : ℕ) (f : ℕ → ℕ) → ((i : ℕ) → f i ≡ 0) → total n f ≡ 0
unfolding total
total-eq_zero zero f h = refl
total-eq_zero (suc n) f h = omega (arith, total-eq_zero n f h, h n)

pub weight-append {ℓ} :
    {A : Type ℓ} (w : A → ℕ) (xs ys : List A) → weight w (xs ++ ys) ≡ weight w xs + weight w ys
unfolding weight
weight-append w [] ys = omega arith
weight-append w (x ∷ xs) ys = omega (arith, weight-append w xs ys)

-- Two arrays that differ at one index have totals that differ by the two entries.
total-of_same : (n : ℕ) (f g : ℕ → ℕ) → ((j : ℕ) → j < n → f j ≡ g j) → total n f ≡ total n g
unfolding total
total-of_same zero f g h = refl
total-of_same (suc n) f g h =
    omega (arith, total-of_same n f g (λ j p. h j (omega arith)), h n (omega arith))

pub total-of_one :
    (n i : ℕ) (f g : ℕ → ℕ)
    → i < n
    → ((j : ℕ) → (i == j) ≡ false → f j ≡ g j)
    → total n f + g i ≡ total n g + f i
unfolding total
total-of_one zero i f g lt h = absurd (omega arith)
total-of_one (suc n) i f g lt h = elim (dec_lt i n) [
  | yes below ↦ omega (arith, total-of_one n i f g below h, h n (ground arith))
  | no last ↦
      let e : i ≡ n = omega arith in
      omega (arith, ap f e, ap g e, total-of_same n f g (λ j p. h j (ground arith)))
]

-- A property of every entry survives the replacement of one.
pub update_all {ℓ κ} :
    {A : Type ℓ} (Q : ℕ → A → Type κ) (f : ℕ → A) (i : ℕ) (a : A)
    → ((j : ℕ) → Q j (f j))
    → Q i a
    → (j : ℕ) → Q j (update f i a j)
update_all Q f i a h q j = elim (Bool-cases (i == j)) [
  | inl e ↦ rw e (subst (λ k. Q k a) (==→eq i j e) q)
  | inr e ↦ rw e (h j)
]

pub total-update {ℓ} :
    {A : Type ℓ} (n i : ℕ) (size : A → ℕ) (f : ℕ → A) (a : A)
    → i < n
    → total n (λ j. size (update f i a j)) + size (f i) ≡ total n (λ j. size (f j)) + size a
total-update n i size f a lt =
    let one = total-of_one n i (λ j. size (f j)) (λ j. size (update f i a j)) lt (λ j e. rw e) in
    ground (arith, one)

-- Chains of fallible steps: a failed assertion is `none`.
infixl 5 ◌>>=◌
abbrev pub ◌>>=◌ {ℓ κ} : {A : Type ℓ} {B : Type κ} → Option A → (A → Option B) → Option B
none >>= f = none
some a >>= f = f a

pub bind-some {ℓ κ} :
    {A : Type ℓ} {B : Type κ} (o : Option A) (f : A → Option B) (b : B)
    → (o >>= f) ≡ some b
    → (a : A) × (o ≡ some a) × (f a ≡ some b)
bind-some none f b e = absurd (cc e)
bind-some (some a) f b e = (a, refl, e)

abbrev pub one_if : ℕ → ℕ → ℕ
one_if q p = if q == p then 1 else 0

-- How often a number is in a list.
abbrev pub occurs : ℕ → List ℕ → ℕ
occurs p [] = 0
occurs p (q ∷ l) = one_if q p + occurs p l

pub occurs-append : (p : ℕ) (xs ys : List ℕ) → occurs p (xs ++ ys) ≡ occurs p xs + occurs p ys
occurs-append p [] ys = omega arith
occurs-append p (x ∷ xs) ys = omega (arith, occurs-append p xs ys)
