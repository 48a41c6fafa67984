-- ===== src/Timer/Nodes/Frame.antt =====
-- What the operations on the lists of src/time.cpp leave alone.
use stp.Prelude.{
  ℕ, ◌≤◌, ◌≡◌, ◌≢◌, refl, sym, ap, subst, ◌∙◌, inl, inr, true, false, List, [], ◌∷◌, ◌++◌, arith,
  ==_refl, occurs, occurs-append, Bool-cases,
}
use stp.Wild.{FreeList}
use stp.Timer.Nodes.{
  TimerList, same_list, update_at, Slot, first_of, next_of, same_slot, Memory, store, list_init,
  list_append, list_clear,
}
use stp.Timer.Nodes.Chain.{
  same_list→eq, same_list_refl, update_at_all, Chain, end, inner, Distinct, inner-Outside,
  inner-end, Chain-frame, Chain-append, end-append, end-Outside, same_slot-end_first, Linked,
  Chain-Linked, Distinct-append,
}

-- The lists hold the nodes of `content`, all different and none of them free.
pub record Holds {fl : FreeList} {link : ℕ → ℕ} (m : Memory fl link) (content : TimerList → List ℕ)
    : Type 0 where
  pub chains : (l : TimerList) → Chain m.cells (first_of l) (content l)
  pub lasts : (l : TimerList) → m.last l ≡ end (first_of l) (content l)
  pub distinct : (l : TimerList) → Distinct (content l)
  pub apart :
      (l k : TimerList) (n : ℕ) → 1 ≤ occurs n (content l) → 1 ≤ occurs n (content k) → l ≡ k
  pub not_free :
      (l : TimerList) (n : ℕ) → 1 ≤ occurs n (fl.contents m.frees) → occurs n (content l) ≡ 0
  pub free_distinct : Distinct (fl.contents m.frees)
  pub free_ne : (n : ℕ) → 1 ≤ occurs n (fl.contents m.frees) → n ≢ 0

-- A node that no list holds and that is not free.
pub record Loose {fl : FreeList} {link : ℕ → ℕ} (m : Memory fl link) (content : TimerList → List ℕ)
    (n : ℕ) : Type 0 where
  pub ne : n ≢ 0
  pub unheld : (l : TimerList) → occurs n (content l) ≡ 0
  pub unfree : occurs n (fl.contents m.frees) ≡ 0

same_slot_refl : (s : Slot) → same_slot s s ≡ true
same_slot_refl (first_of l) = same_list_refl l
same_slot_refl (next_of n) = ==_refl n

module _ {fl : FreeList} {link : ℕ → ℕ} {m : Memory fl link} {content : TimerList → List ℕ}
    (h : Holds m content) where
  -- The slot behind a list is read by no list.
  last-inner : (l k : TimerList) → inner (m.last l) (first_of k) (content k) ≡ false
  last-inner l k =
      ap (λ x. inner x (first_of k) (content k)) (h.lasts l) ∙ elim (Bool-cases (same_list l k)) [
        | inl e ↦
            subst (λ j. inner (end (first_of l) (content l)) (first_of j) (content j) ≡ false)
              (same_list→eq l k e) (inner-end (first_of l) (content l) tt (h.distinct l))
        | inr e ↦
            inner-Outside (end (first_of l) (content l)) (first_of k) (content k)
              (same_slot-end_first l k (content l) e)
              (end-Outside l (content l) (content k) (λ n p. ground (arith, h.apart l k n, p, e)))
      ]

  pub store-chains :
      (l : TimerList) (p : ℕ) (k : TimerList)
      → Chain (store fl link m (m.last l) p).cells (first_of k) (content k)
  unfolding store
  store-chains l p k =
      Chain-frame m.cells (store fl link m (m.last l) p).cells (m.last l) (first_of k) (content k)
        (λ y e. rw e refl) (last-inner l k) (h.chains k)

  -- A loose node that is appended is held last.
  pub list_append-Holds :
      (l : TimerList) (n : ℕ)
      → Loose m content n
      → Holds (list_append fl link m l n) (update_at content l (content l ++ n ∷ []))
  unfolding list_append store
  list_append-Holds l n loose =
      let cells' : Slot → ℕ = (store fl link m (m.last l) n).cells in
      record {
        chains =
            update_at_all (λ k ns. Chain cells' (first_of k) ns) content l (content l ++ n ∷ [])
              (store-chains l n)
              (Chain-append cells' (first_of l) (content l) n loose.ne
                (rw (sym (h.lasts l)) (rw (same_slot_refl (m.last l)) refl)) (store-chains l n l));
        lasts = λ k. elim (Bool-cases (same_list l k)) [
          | inl e ↦ rw e (
              subst (λ j. next_of n ≡ end (first_of j) (content l ++ n ∷ [])) (same_list→eq l k e)
                (sym (end-append (first_of l) (content l) n)))
          | inr e ↦ rw e (h.lasts k)
        ];
        distinct =
            update_at_all (λ k ns. Distinct ns) content l (content l ++ n ∷ []) h.distinct
              (Distinct-append n (content l) (loose.unheld l) (h.distinct l));
        apart = λ j k x p q. ground (
          arith,
          h.apart j k x,
          loose.unheld j,
          loose.unheld k,
          loose.unheld l,
          occurs-append x (content l) (n ∷ []),
          p,
          q,
        );
        not_free = λ k x p. ground (
          arith,
          h.not_free k x,
          h.not_free l x,
          p,
          occurs-append x (content l) (n ∷ []),
          loose.unfree,
        );
        free_distinct = h.free_distinct;
        free_ne = h.free_ne;
      }

  -- A list that is cleared is empty, and what is taken out is linked.
  pub list_clear-Holds :
      (l : TimerList)
      → Holds (list_clear fl link m l).1 (update_at content l [])
        × Linked (list_clear fl link m l).1.cells (list_clear fl link m l).0 (content l)
  unfolding list_clear list_init store
  list_clear-Holds l =
      let cells' : Slot → ℕ = (store fl link m (m.last l) 0).cells in
      (
        record {
          chains =
              update_at_all (λ k ns. Chain cells' (first_of k) ns) content l [] (store-chains l 0)
                tt;
          lasts = λ k. elim (Bool-cases (same_list l k)) [
            | inl e ↦ rw e (ap first_of (same_list→eq l k e))
            | inr e ↦ rw e (h.lasts k)
          ];
          distinct = update_at_all (λ k ns. Distinct ns) content l [] h.distinct tt;
          apart = λ j k x p q. ground (arith, h.apart j k x, p, q);
          not_free = λ k x p. ground (arith, h.not_free k x, p);
          free_distinct = h.free_distinct;
          free_ne = h.free_ne;
        },
        Chain-Linked cells' (first_of l) (content l)
            (rw (sym (h.lasts l)) (rw (same_slot_refl (m.last l)) refl)) (store-chains l 0 l),
      )
