-- ===== src/Timer/Nodes/Frees.antt =====
-- The nodes of src/time.cpp that are made and given back.
use stp.Prelude.{
  ℕ, ◌≤◌, ◌≡◌, ◌≢◌, refl, sym, ap, subst, ◌∙◌, inl, inr, false, List, [], ◌∷◌, map, none, some,
  arith, ◌==◌, occurs, update, Option-cases,
}
use stp.Wild.{FreeList}
use stp.Timer.{TimerNode}
use stp.Timer.Nodes.{TimerList, first_of, next_of, Memory, store, new_node, free_node}
use stp.Timer.Nodes.Chain.{Distinct, inner-Outside, Chain-frame}
use stp.Timer.Nodes.Frame.{Holds, Loose}

module _ {fl : FreeList} {link : ℕ → ℕ} {m : Memory fl link} {content : TimerList → List ℕ}
    (h : Holds m content) where
  -- A node that was taken out is given back.
  pub free_node-Holds : (n : ℕ) → Loose m content n → Holds (free_node fl link m n) content
  unfolding free_node store
  free_node-Holds n loose = record {
    chains = λ k.
        Chain-frame m.cells (free_node fl link m n).cells (next_of n) (first_of k) (content k)
          (λ y e. rw e refl)
          (inner-Outside (next_of n) (first_of k) (content k) refl (loose.unheld k)) (h.chains k);
    lasts = h.lasts;
    distinct = h.distinct;
    apart = h.apart;
    not_free = λ k x p.
        ground
          (arith, h.not_free k x, loose.unheld k, ap (occurs x) (fl.contents-push m.frees n), p);
    free_distinct =
        subst Distinct (sym (fl.contents-push m.frees n)) (loose.unfree, h.free_distinct);
    free_ne =
        λ x p. ground (arith, h.free_ne x, loose.ne, ap (occurs x) (fl.contents-push m.frees n), p);
  }

  -- Fewer nodes are free.
  take-Holds :
      (frees : fl.Frees)
      → Distinct (fl.contents frees)
      → ((x : ℕ) → occurs x (fl.contents frees) ≤ occurs x (fl.contents m.frees))
      → Holds (record m { frees = frees }) content
  take-Holds frees d le = record {
    chains = h.chains;
    lasts = h.lasts;
    distinct = h.distinct;
    apart = h.apart;
    not_free = λ k x p. h.not_free k x (omega (arith, p, le x));
    free_distinct = d;
    free_ne = λ x p. h.free_ne x (omega (arith, p, le x));
  }

  new_node-none :
      (fresh : ℕ)
      → (fl.take m.frees).0 ≡ none
      → new_node fl link m fresh ≡ (fresh, record m { frees = (fl.take m.frees).1 })
  unfolding new_node
  new_node-none fresh e = rw (e, new_node) refl

  new_node-some :
      (fresh n : ℕ)
      → (fl.take m.frees).0 ≡ some n
      → new_node fl link m fresh ≡ (n, record m { frees = (fl.take m.frees).1 })
  unfolding new_node
  new_node-some fresh n e = rw (e, new_node) refl

  -- A node that is made is loose, and so is every other that was.
  pub new_node-Holds :
      (fresh : ℕ)
      → Loose m content fresh
      → Holds (new_node fl link m fresh).1 content
        × Loose (new_node fl link m fresh).1 content (new_node fl link m fresh).0
        × ((x : ℕ)
            → x ≢ fresh
            → Loose m content x
            → (x ≢ (new_node fl link m fresh).0) × Loose (new_node fl link m fresh).1 content x)
  new_node-Holds fresh loose =
      let made : ℕ × Memory fl link → Type 0 = λ r.
        Holds r.1 content
        × Loose r.1 content r.0
        × ((x : ℕ) → x ≢ fresh → Loose m content x → (x ≢ r.0) × Loose r.1 content x) in
      elim (Option-cases (fl.take m.frees).0) [
        | inl e ↦
            let same : fl.contents (fl.take m.frees).1 ≡ fl.contents m.frees =
              fl.take-none m.frees e in
            subst made (sym (new_node-none fresh e)) (
              take-Holds (fl.take m.frees).1 (subst Distinct (sym same) h.free_distinct)
                  (λ x. omega (arith, ap (occurs x) same)),
              record {
                ne = loose.ne;
                unheld = loose.unheld;
                unfree = ap (occurs fresh) same ∙ loose.unfree;
              },
              λ x ne l. (
                ne,
                record { ne = l.ne; unheld = l.unheld; unfree = ap (occurs x) same ∙ l.unfree },
              ),
            )
        | inr (n, e) ↦
            let was : fl.contents m.frees ≡ n ∷ fl.contents (fl.take m.frees).1 =
              fl.take-some m.frees n e in
            let d : Distinct (n ∷ fl.contents (fl.take m.frees).1) =
              subst Distinct was h.free_distinct in
            let free : 1 ≤ occurs n (fl.contents m.frees) = ground (arith, ap (occurs n) was) in
            subst made (sym (new_node-some fresh n e)) (
              take-Holds (fl.take m.frees).1 d.1 (λ x. ground (arith, ap (occurs x) was)),
              record { ne = h.free_ne n free; unheld = λ k. h.not_free k n free; unfree = d.0 },
              λ x ne l. (
                λ same.
                    omega
                      (arith, free, subst (λ y. occurs y (fl.contents m.frees) ≡ 0) same l.unfree),
                record {
                  ne = l.ne;
                  unheld = l.unheld;
                  unfree = ground (arith, ap (occurs x) was, l.unfree);
                },
              ),
            )
      ]

-- What is stored in the nodes does not matter.
pub Holds-payload :
    {fl : FreeList} {link : ℕ → ℕ} (m : Memory fl link) (content : TimerList → List ℕ)
    (payload : ℕ → TimerNode)
    → Holds m content
    → Holds (record m { payload = payload }) content
Holds-payload m content payload h = record {
  chains = h.chains;
  lasts = h.lasts;
  distinct = h.distinct;
  apart = h.apart;
  not_free = h.not_free;
  free_distinct = h.free_distinct;
  free_ne = h.free_ne;
}

pub Loose-payload :
    {fl : FreeList} {link : ℕ → ℕ} (m : Memory fl link) (content : TimerList → List ℕ)
    (payload : ℕ → TimerNode) (n : ℕ)
    → Loose m content n
    → Loose (record m { payload = payload }) content n
Loose-payload m content payload n l = record { ne = l.ne; unheld = l.unheld; unfree = l.unfree }

pub new_node-payload :
    (fl : FreeList) (link : ℕ → ℕ) (m : Memory fl link) (fresh : ℕ)
    → (new_node fl link m fresh).1.payload ≡ m.payload
unfolding new_node
new_node-payload fl link m fresh = elim (Option-cases (fl.take m.frees).0) [
  | inl e ↦ rw (e, new_node) refl
  | inr (n, e) ↦ rw (e, new_node) refl
]

pub map-update :
    {A : Type 0} (f : ℕ → A) (n : ℕ) (a : A) (ns : List ℕ)
    → occurs n ns ≡ 0
    → map (update f n a) ns ≡ map f ns
map-update f n a [] e = refl
map-update f n a (k ∷ ns) e =
    let other : (n == k) ≡ false = ground (arith, e) in
    rw (other, map-update f n a ns (omega (arith, e))) refl
