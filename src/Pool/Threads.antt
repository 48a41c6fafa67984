-- ===== src/Pool/Threads.antt =====
-- `n` threads that allocate and free objects of one pool, interleaved: a thread's own list is touched
-- by no other, so that a call is one step.
use stp.Prelude.{ℕ, ◌+◌, ◌-◌, ◌<◌, ◌≡◌, total, update, occurs, List, [], ◌∷◌, Option, none, some}
use stp.Wild.{FreeList}
use stp.Pool.{Pool, take_free, allocate, put_free}

-- `malloc` is called when no object is free.
abbrev pub made_by : Option ℕ → (malloc : ℕ) → List ℕ → List ℕ
made_by none malloc made = malloc ∷ made
made_by (some x) malloc made = made

module _ (fl : FreeList) (n : ℕ) where
  -- In how many places an object is free.
  abbrev pub free : ℕ → Pool fl → ℕ
  free x p = occurs x (fl.contents p.common) + total n (λ t. occurs x (fl.contents (p.own t)))

module _ (fl : FreeList) where
  pub record Heap : Type 0 where
    pub pool : Pool fl
    -- how often an object is in use
    pub used : ℕ → ℕ
    -- what `malloc` has returned
    pub made : List ℕ

module _ (fl : FreeList) (n limit : ℕ) where
  abbrev pub begin : Heap fl
  begin = record {
    pool = record { common = fl.no_frees; own = λ t. fl.no_frees };
    used = λ x. 0;
    made = [];
  }

  pub data Step (h : Heap fl) : Heap fl → Type 0 where
    -- What `malloc` returns is no object that is known.
    allocates :
        (thread malloc : ℕ)
        → thread < n
        → h.used malloc + free fl n malloc h.pool ≡ 0
        → Step h (record {
          pool = (allocate fl h.pool thread malloc).1;
          used =
              update h.used
                (allocate fl h.pool thread malloc).0
                (h.used (allocate fl h.pool thread malloc).0 + 1);
          made = made_by (take_free fl h.pool thread).0 malloc h.made;
        })
    deallocates :
        (thread x : ℕ)
        → thread < n
        → 0 < h.used x
        → Step h (record h {
          pool = put_free fl limit h.pool thread x;
          used = update h.used x (h.used x - 1);
        })

  pub data Reach : Heap fl → Type 0 where
    start : Reach begin
    later : {h k : Heap fl} → Reach h → Step h k → Reach k
