-- ===== src/Timer/Nodes/Wheel/Refines.antt =====
-- What the timer of src/time.cpp holds in memory, and the sequences of nodes that it stands for.
use stp.Prelude.{
  ℕ, ◌≤◌, ◌≡◌, ◌≢◌, refl, sym, ap, subst, ◌∙◌, List, [], ◌∷◌, ◌++◌, map, map-append, arith, occurs,
}
use stp.Wild.{FreeList}
use stp.Timer.{TimerNode, Timer, empty}
use stp.Timer.Nodes.{TimerList, update_at, Slot, store, list_append, list_clear, list_init}
use stp.Timer.Nodes.Chain.{Distinct}
use stp.Timer.Nodes.Frame.{Holds, Loose, list_append-Holds, list_clear-Holds}
use stp.Timer.Nodes.Loose.{list_append-Loose, list_clear-Loose}
use stp.Timer.Nodes.Wheel.{Wheel, constructed}
use stp.Timer.Nodes.Wheel.Lists.{time-set_list, lists-empty, map-update_at, lists, set_list}

-- The lists hold the nodes of `content`, which are those of the timer `t`, and no request has got
-- the addresses that are left.
pub record Refines {fl : FreeList} {link heap : ℕ → ℕ} (w : Wheel fl link heap)
    (content : TimerList → List ℕ) (t : Timer) : Type 0 where
  pub holds : Holds w.memory content
  pub time : w.time ≡ t.time
  pub shows : (l : TimerList) → map w.memory.payload (content l) ≡ lists t l
  pub unused : (k : ℕ) → w.made ≤ k → Loose w.memory content (heap k)

-- The addresses that `new` returns are different, and not NULL.
pub record IsHeap (heap : ℕ → ℕ) : Type 0 where
  pub ne : (k : ℕ) → heap k ≢ 0
  pub injective : (j k : ℕ) → heap j ≡ heap k → j ≡ k

pub constructed-Refines :
    {fl : FreeList} {link heap : ℕ → ℕ} (cells : Slot → ℕ) (payload : ℕ → TimerNode)
    → IsHeap heap
    → Refines (constructed fl link heap cells payload) (λ l. []) empty
unfolding constructed empty
constructed-Refines {fl} {link} {heap} cells payload h =
    let none_free : (n : ℕ) → occurs n (fl.contents fl.no_frees) ≡ 0 =
      λ n. ap (occurs n) fl.contents-no_frees in
    record {
      holds = record {
        chains = λ l. tt;
        lasts = λ l. refl;
        distinct = λ l. tt;
        apart = λ l k n p q. absurd (omega (arith, p));
        not_free = λ l n p. refl;
        free_distinct = subst Distinct (sym fl.contents-no_frees) tt;
        free_ne = λ n p. absurd (omega (arith, p, none_free n));
      };
      time = refl;
      shows = λ l. sym (lists-empty l);
      unused = λ k le. record { ne = h.ne k; unheld = λ l. refl; unfree = none_free (heap k) };
    }

module _ {fl : FreeList} {link heap : ℕ → ℕ} (w : Wheel fl link heap) (content : TimerList → List ℕ)
    (t : Timer) (r : Refines w content t) where
  -- A loose node is appended.
  pub append-Refines :
      (l : TimerList) (n : ℕ)
      → Loose w.memory content n
      → ((k : ℕ) → w.made ≤ k → occurs (heap k) (n ∷ []) ≡ 0)
      → Refines
          (record w { memory = list_append fl link w.memory l n })
          (update_at content l (content l ++ n ∷ []))
          (set_list t l (lists t l ++ w.memory.payload n ∷ []))
  unfolding list_append store
  append-Refines l n loose other = record {
    holds = list_append-Holds r.holds l n loose;
    time = r.time ∙ sym (time-set_list t l (lists t l ++ w.memory.payload n ∷ []));
    shows =
        map-update_at w.memory.payload content t r.shows l (content l ++ n ∷ [])
          (lists t l ++ w.memory.payload n ∷ [])
          (map-append w.memory.payload (content l) (n ∷ [])
            ∙ ap (λ x. x ++ w.memory.payload n ∷ []) (r.shows l));
    unused = λ k le. list_append-Loose w.memory content l n (heap k) (other k le) (r.unused k le);
  }

  -- A list is cleared.
  pub clear-Refines :
      (l : TimerList)
      → Refines
          (record w { memory = (list_clear fl link w.memory l).1 })
          (update_at content l [])
          (set_list t l [])
  unfolding list_clear list_init store
  clear-Refines l = record {
    holds = (list_clear-Holds r.holds l).0;
    time = r.time ∙ sym (time-set_list t l []);
    shows = map-update_at w.memory.payload content t r.shows l [] [] refl;
    unused = λ k le. list_clear-Loose w.memory content l (heap k) (r.unused k le);
  }
