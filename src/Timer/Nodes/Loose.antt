-- ===== src/Timer/Nodes/Loose.antt =====
-- The nodes that no list holds, before and after an operation on the lists of src/time.cpp.
use stp.Prelude.{
  ℕ, ◌≤◌, ◌≡◌, ◌≢◌, refl, sym, subst, inl, inr, true, false, List, [], ◌∷◌, ◌++◌, arith, occurs,
  occurs-append, Bool-cases,
}
use stp.Wild.{FreeList}
use stp.Timer.Nodes.{
  TimerList, same_list, update_at, first_of, Memory, store, list_append, list_clear, list_init,
}
use stp.Timer.Nodes.Chain.{same_list_refl, Chain-ne, update_at_all, Outside, end-Outside}
use stp.Timer.Nodes.Frame.{Holds, Loose}

different : (l k : TimerList) → same_list l k ≡ false → l ≢ k
different l k e p =
    let t : same_list l k ≡ true = subst (λ j. same_list l j ≡ true) p (same_list_refl l) in
    cc (e, t)

module _ {fl : FreeList} {link : ℕ → ℕ} (m : Memory fl link) (content : TimerList → List ℕ) where
  -- A node other than the one that is appended stays loose.
  pub list_append-Loose :
      (l : TimerList) (n x : ℕ)
      → occurs x (n ∷ []) ≡ 0
      → Loose m content x
      → Loose (list_append fl link m l n) (update_at content l (content l ++ n ∷ [])) x
  unfolding list_append store
  list_append-Loose l n x other loose = record {
    ne = loose.ne;
    unheld =
        update_at_all (λ k ns. occurs x ns ≡ 0) content l (content l ++ n ∷ []) loose.unheld
          (omega (arith, occurs-append x (content l) (n ∷ []), loose.unheld l, other));
    unfree = loose.unfree;
  }

  pub list_clear-Loose :
      (l : TimerList) (x : ℕ)
      → Loose m content x
      → Loose (list_clear fl link m l).1 (update_at content l []) x
  unfolding list_clear list_init store
  list_clear-Loose l x loose = record {
    ne = loose.ne;
    unheld = update_at_all (λ k ns. occurs x ns ≡ 0) content l [] loose.unheld refl;
    unfree = loose.unfree;
  }

  -- The nodes of a list that is cleared become loose.
  pub list_clear-freed :
      Holds m content
      → (l : TimerList) (x : ℕ) → 1 ≤ occurs x (content l)
      → Loose (list_clear fl link m l).1 (update_at content l []) x
  unfolding list_clear list_init store
  list_clear-freed h l x p = record {
    ne = Chain-ne m.cells (first_of l) (content l) x (h.chains l) p;
    unheld = λ k. elim (Bool-cases (same_list l k)) [
      | inl e ↦ rw e refl
      | inr e ↦ rw e (
          let no : ¬ (1 ≤ occurs x (content k)) = λ q. different l k e (h.apart l k x p q) in
          omega (arith, no))
    ];
    unfree =
        (let no : ¬ (1 ≤ occurs x (fl.contents m.frees)) =
            λ q. absurd (omega (arith, p, h.not_free l x q)) in
          omega (arith, no));
  }

  -- Where an append writes, no loose node is.
  pub last-Outside :
      Holds m content
      → (l : TimerList) (ns : List ℕ) → ((n : ℕ) → 1 ≤ occurs n ns → occurs n (content l) ≡ 0)
      → Outside (m.last l) ns
  last-Outside h l ns apart =
      subst (λ s. Outside s ns) (sym (h.lasts l))
        (end-Outside l (content l) ns (λ n p. ground (arith, apart n, p)))
