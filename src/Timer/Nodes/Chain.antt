-- ===== src/Timer/Nodes/Chain.antt =====
-- The slots that the links of a list of src/time.cpp lead through.
use stp.Prelude.{
  ℕ, ◌≤◌, ◌≡◌, ◌≢◌, refl, sym, ap, ◌∙◌, Bool, true, false, ◌||◌, List, [], ◌∷◌, ◌++◌, arith, ◌==◌,
  ==→eq, ==_refl, inl, inr, Bool-cases, occurs, occurs-append, subst,
}
use stp.Timer.Nodes.{
  TimerList, least_list, level_list, same_list, update_at, Slot, first_of, next_of, same_slot,
}

pub same_list→eq : (l k : TimerList) → same_list l k ≡ true → l ≡ k
same_list→eq (least_list i) (least_list j) e = ap least_list (==→eq i j e)
same_list→eq (least_list i) (level_list k v) e = absurd (cc e)
same_list→eq (level_list l v) (least_list j) e = absurd (cc e)
same_list→eq (level_list l v) (level_list k w) e =
    let p : l ≡ k = ground (arith, e) in let q : v ≡ w = ground (arith, e) in rw (p, q) refl

pub same_list_refl : (l : TimerList) → same_list l l ≡ true
same_list_refl (least_list i) = ==_refl i
same_list_refl (level_list l v) = rw (==_refl l, ==_refl v) refl

pub update_at_all {ℓ κ} :
    {A : Type ℓ} (Q : TimerList → A → Type κ) (f : TimerList → A) (l : TimerList) (a : A)
    → ((k : TimerList) → Q k (f k))
    → Q l a
    → (k : TimerList) → Q k (update_at f l a k)
update_at_all Q f l a h q k = elim (Bool-cases (same_list l k)) [
  | inl e ↦ rw e (subst (λ j. Q j a) (same_list→eq l k e) q)
  | inr e ↦ rw e (h k)
]

-- From a slot on, the links lead to the nodes in order.
abbrev pub Chain : (cells : Slot → ℕ) → Slot → List ℕ → Type 0
Chain cells s [] = Unit
Chain cells s (n ∷ ns) = (cells s ≡ n) × (n ≢ 0) × Chain cells (next_of n) ns

-- The slot behind the last node.
abbrev pub end : Slot → List ℕ → Slot
end s [] = s
end s (n ∷ ns) = end (next_of n) ns

-- Whether a slot is read before the last node is reached.
abbrev pub inner : Slot → Slot → List ℕ → Bool
inner x s [] = false
inner x s (n ∷ ns) = same_slot x s || inner x (next_of n) ns

-- A slot is no link of the nodes.
abbrev pub Outside : Slot → List ℕ → Type 0
Outside (first_of l) ns = Unit
Outside (next_of p) ns = occurs p ns ≡ 0

abbrev pub Distinct : List ℕ → Type 0
Distinct [] = Unit
Distinct (n ∷ ns) = (occurs n ns ≡ 0) × Distinct ns

Outside-tail : (s : Slot) (n : ℕ) (ns : List ℕ) → Outside s (n ∷ ns) → Outside s ns
Outside-tail (first_of l) n ns h = tt
Outside-tail (next_of p) n ns h = omega (arith, h)

same_slot-next :
    (s : Slot) (n : ℕ) (ns : List ℕ) → Outside s (n ∷ ns) → same_slot s (next_of n) ≡ false
same_slot-next (first_of l) n ns h = refl
same_slot-next (next_of p) n ns h = ground (arith, h)

pub inner-Outside :
    (x s : Slot) (ns : List ℕ) → same_slot x s ≡ false → Outside x ns → inner x s ns ≡ false
inner-Outside x s [] e h = refl
inner-Outside x s (n ∷ ns) e h =
    ground
      (arith, e, inner-Outside x (next_of n) ns (same_slot-next x n ns h) (Outside-tail x n ns h))

-- The end of a chain of nodes is none of the slots before it.
same_slot-end :
    (s : Slot) (n : ℕ) (ns : List ℕ) → Outside s (n ∷ ns) → same_slot (end (next_of n) ns) s ≡ false
same_slot-end (first_of l) n [] h = refl
same_slot-end (next_of p) n [] h = ground (arith, h)
same_slot-end s n (k ∷ ns) h = same_slot-end s k ns (Outside-tail s n (k ∷ ns) h)

pub inner-end :
    (s : Slot) (ns : List ℕ) → Outside s ns → Distinct ns → inner (end s ns) s ns ≡ false
inner-end s [] h d = refl
inner-end s (n ∷ ns) h (new, d) =
    ground (arith, same_slot-end s n ns h, inner-end (next_of n) ns new d)

-- A slot that is not read may be written.
pub Chain-frame :
    (cells cells' : Slot → ℕ) (x s : Slot) (ns : List ℕ)
    → ((y : Slot) → same_slot x y ≡ false → cells' y ≡ cells y)
    → inner x s ns ≡ false
    → Chain cells s ns
    → Chain cells' s ns
Chain-frame cells cells' x s [] same out c = tt
Chain-frame cells cells' x s (n ∷ ns) same out (here, ne, c) = (
  same s (ground (arith, out)) ∙ here,
  ne,
  Chain-frame cells cells' x (next_of n) ns same (ground (arith, out)) c,
)

-- A node that is written behind the last one.
pub Chain-append :
    (cells : Slot → ℕ) (s : Slot) (ns : List ℕ) (n : ℕ)
    → n ≢ 0
    → cells (end s ns) ≡ n
    → Chain cells s ns
    → Chain cells s (ns ++ n ∷ [])
Chain-append cells s [] n ne e c = (e, ne, tt)
Chain-append cells s (k ∷ ns) n ne e (here, nz, c) =
    (here, nz, Chain-append cells (next_of k) ns n ne e c)

pub end-append : (s : Slot) (ns : List ℕ) (n : ℕ) → end s (ns ++ n ∷ []) ≡ next_of n
end-append s [] n = refl
end-append s (k ∷ ns) n = end-append (next_of k) ns n

-- The end is the slot itself, or the link of one of the nodes.
pub end-Outside :
    (l : TimerList) (ns ks : List ℕ)
    → ((n : ℕ) → 1 ≤ occurs n ns → occurs n ks ≡ 0)
    → Outside (end (first_of l) ns) ks
end-Outside l [] ks h = tt
end-Outside l (n ∷ ns) ks h = from n ns (h n (ground arith)) (λ k p. h k (omega (arith, p)))
  where
    from :
        (n : ℕ) (ns : List ℕ)
        → occurs n ks ≡ 0
        → ((k : ℕ) → 1 ≤ occurs k ns → occurs k ks ≡ 0)
        → Outside (end (next_of n) ns) ks
    from n [] e h = e
    from n (k ∷ ns) e h = from k ns (h k (ground arith)) (λ j p. h j (omega (arith, p)))

same_slot-of_next :
    (n : ℕ) (k : TimerList) (ns : List ℕ) → same_slot (end (next_of n) ns) (first_of k) ≡ false
same_slot-of_next n k [] = refl
same_slot-of_next n k (j ∷ ns) = same_slot-of_next j k ns

pub same_slot-end_first :
    (l k : TimerList) (ns : List ℕ)
    → same_list l k ≡ false
    → same_slot (end (first_of l) ns) (first_of k) ≡ false
same_slot-end_first l k [] e = e
same_slot-end_first l k (n ∷ ns) e = same_slot-of_next n k ns

-- A list that ends with NULL, from its first node on.
abbrev pub Linked : (cells : Slot → ℕ) → ℕ → List ℕ → Type 0
Linked cells p [] = p ≡ 0
Linked cells p (n ∷ ns) = (p ≡ n) × (n ≢ 0) × Linked cells (cells (next_of n)) ns

pub Chain-Linked :
    (cells : Slot → ℕ) (s : Slot) (ns : List ℕ)
    → cells (end s ns) ≡ 0
    → Chain cells s ns
    → Linked cells (cells s) ns
Chain-Linked cells s [] e c = e
Chain-Linked cells s (n ∷ ns) e (here, ne, c) = (here, ne, Chain-Linked cells (next_of n) ns e c)

-- A slot that is no link of the nodes may be written.
pub Linked-frame :
    (cells cells' : Slot → ℕ) (x : Slot) (p : ℕ) (ns : List ℕ)
    → ((y : Slot) → same_slot x y ≡ false → cells' y ≡ cells y)
    → Outside x ns
    → Linked cells p ns
    → Linked cells' p ns
Linked-frame cells cells' x p [] same out e = e
Linked-frame cells cells' x p (n ∷ ns) same out (here, ne, rest) = (
  here,
  ne,
  subst (λ q. Linked cells' q ns) (sym (same (next_of n) (same_slot-next x n ns out)))
      (Linked-frame cells cells' x (cells (next_of n)) ns same (Outside-tail x n ns out) rest),
)

pub Chain-ne :
    (cells : Slot → ℕ) (s : Slot) (ns : List ℕ) (n : ℕ) → Chain cells s ns → 1 ≤ occurs n ns → n ≢ 0
Chain-ne cells s [] n c p = absurd (omega (arith, p))
Chain-ne cells s (k ∷ ns) n (here, ne, c) p = elim (Bool-cases (k == n)) [
  | inl e ↦ subst (λ x. x ≢ 0) (==→eq k n e) ne
  | inr e ↦ Chain-ne cells (next_of k) ns n c (ground (arith, p, e))
]

pub Distinct-append :
    (n : ℕ) (ns : List ℕ) → occurs n ns ≡ 0 → Distinct ns → Distinct (ns ++ n ∷ [])
Distinct-append n [] e d = (omega arith, tt)
Distinct-append n (k ∷ ns) e (new, d) =
    (ground (arith, e, new, occurs-append k ns (n ∷ [])), Distinct-append n ns (omega (arith, e)) d)

-- A node of the rest is not the first one.
pub occurs-other : (n x : ℕ) (ns : List ℕ) → occurs n ns ≡ 0 → 1 ≤ occurs x ns → (n == x) ≡ false
occurs-other n x ns new p = elim (Bool-cases (n == x)) [
  | inl e ↦ absurd (omega (arith, new, p, ap (λ y. occurs y ns) (==→eq n x e)))
  | inr e ↦ e
]
