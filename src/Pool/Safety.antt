-- ===== src/Pool/Safety.antt =====
-- No object of a pool of src/process.cpp or src/context.cpp is handed out twice.
use stp.Prelude.{
  ℕ, ◌+◌, ◌≤◌, ◌<◌, ◌≡◌, refl, ap, inl, inr, List, Option, none, some, arith, leb, total-update,
  total-eq_zero, update, one_if, occurs, Bool-cases,
}
use stp.Wild.{FreeList}
use stp.Pool.{Pool, take_common, take_free, put_free, allocate}
use stp.Pool.Threads.{made_by, Heap, free, begin, Step, allocates, deallocates, Reach, start, later}

-- What was free, and what is free once an object was taken or there was none.
abbrev After : (taken : Option ℕ) → (before after : ℕ → ℕ) → Type 0
After none before after = (x : ℕ) → after x ≡ before x
After (some y) before after = (x : ℕ) → before x ≡ one_if y x + after x

module _ (fl : FreeList) (n : ℕ) where
  take-After :
      (f : fl.Frees)
      → After
          (fl.take f).0
          (λ x. occurs x (fl.contents f))
          (λ x. occurs x (fl.contents (fl.take f).1))
  take-After f = by_taken (fl.take f).0 refl
    where
      by_taken :
          (o : Option ℕ)
          → (fl.take f).0 ≡ o
          → After o (λ x. occurs x (fl.contents f)) (λ x. occurs x (fl.contents (fl.take f).1))
      by_taken none e = λ x. ap (occurs x) (fl.take-none f e)
      by_taken (some y) e = λ x. ap (occurs x) (fl.take-some f y e)

  -- The list of a thread is replaced.
  free-own :
      (p : Pool fl) (thread : ℕ) (f : fl.Frees) (x : ℕ)
      → thread < n
      → free fl n x (record p { own = update p.own thread f })
          + occurs x (fl.contents (p.own thread))
        ≡ free fl n x p + occurs x (fl.contents f)
  free-own p thread f x lt =
      omega (arith, total-update n thread (λ g. occurs x (fl.contents g)) p.own f lt)

  take_common-After :
      (p : Pool fl)
      → After (take_common fl p).0 (λ x. free fl n x p) (λ x. free fl n x (take_common fl p).1)
  unfolding take_common
  take_common-After p = by_taken (fl.take p.common).0 (take-After p.common)
    where
      by_taken :
          (o : Option ℕ)
          → After o
              (λ x. occurs x (fl.contents p.common))
              (λ x. occurs x (fl.contents (fl.take p.common).1))
          → After o
              (λ x. free fl n x p)
              (λ x. free fl n x (record p { common = (fl.take p.common).1 }))
      by_taken none h = λ x. omega (arith, h x)
      by_taken (some y) h = λ x. omega (arith, h x)

  -- An object that is taken out is free in one place less.
  take_free-After :
      (p : Pool fl) (thread : ℕ)
      → thread < n
      → After
          (take_free fl p thread).0
          (λ x. free fl n x p)
          (λ x. free fl n x (take_free fl p thread).1)
  unfolding take_free
  take_free-After p thread lt = by_taken (fl.take (p.own thread)).0 refl (take-After (p.own thread))
    where
      rest : Pool fl
      rest = record p { own = update p.own thread (fl.take (p.own thread)).1 }

      by_common :
          (o : Option ℕ)
          → ((x : ℕ) → free fl n x rest ≡ free fl n x p)
          → After o (λ x. free fl n x rest) (λ x. free fl n x (take_common fl rest).1)
          → After o (λ x. free fl n x p) (λ x. free fl n x (take_common fl rest).1)
      by_common none same h = λ x. omega (arith, same x, h x)
      by_common (some y) same h = λ x. omega (arith, same x, h x)

      by_taken :
          (o : Option ℕ)
          → (fl.take (p.own thread)).0 ≡ o
          → After o
              (λ x. occurs x (fl.contents (p.own thread)))
              (λ x. occurs x (fl.contents (fl.take (p.own thread)).1))
          → After
              (take_free fl p thread).0
              (λ x. free fl n x p)
              (λ x. free fl n x (take_free fl p thread).1)
      by_taken (some y) e h =
          rw (e, take_free)
            (λ x. omega (arith, h x, free-own p thread (fl.take (p.own thread)).1 x lt))
      by_taken none e h =
          rw (e, take_free)
            (by_common (take_common fl rest).0
              (λ x. omega (arith, h x, free-own p thread (fl.take (p.own thread)).1 x lt))
              (take_common-After rest))

  put_free-free :
      (limit : ℕ) (p : Pool fl) (thread y x : ℕ)
      → thread < n
      → free fl n x (put_free fl limit p thread y) ≡ free fl n x p + one_if y x
  unfolding put_free
  put_free-free limit p thread y x lt = elim (Bool-cases (leb limit (fl.size (p.own thread)))) [
    | inl e ↦ rw e (omega (arith, ap (occurs x) (fl.contents-push p.common y)))
    | inr e ↦ rw e (
        omega (
          arith,
          ap (occurs x) (fl.contents-push (p.own thread) y),
          free-own p thread (fl.push (p.own thread) y) x lt,
        ))
  ]

  allocate-free :
      (p : Pool fl) (thread malloc x : ℕ) (made : List ℕ)
      → thread < n
      → one_if (allocate fl p thread malloc).0 x
          + free fl n x (allocate fl p thread malloc).1
          + occurs x made
        ≡ free fl n x p + occurs x (made_by (take_free fl p thread).0 malloc made)
  unfolding allocate
  allocate-free p thread malloc x made lt =
      by_taken (take_free fl p thread).0 refl (take_free-After p thread lt)
    where
      by_taken :
          (o : Option ℕ)
          → (take_free fl p thread).0 ≡ o
          → After o (λ x. free fl n x p) (λ x. free fl n x (take_free fl p thread).1)
          → one_if (allocate fl p thread malloc).0 x
              + free fl n x (allocate fl p thread malloc).1
              + occurs x made
            ≡ free fl n x p + occurs x (made_by (take_free fl p thread).0 malloc made)
      by_taken none e h = rw (e, allocate) (omega (arith, h x))
      by_taken (some y) e h = rw (e, allocate) (omega (arith, h x))

  pub record Apart (h : Heap fl) : Type 0 where
    pub all : (x : ℕ) → h.used x + free fl n x h.pool ≡ occurs x h.made
    pub once : (x : ℕ) → occurs x h.made ≤ 1

module _ (fl : FreeList) (n limit : ℕ) where
  begin-Apart : Apart fl n (begin fl n limit)
  begin-Apart = record {
    all = λ x. omega (
      arith,
      ap (occurs x) fl.contents-no_frees,
      total-eq_zero n (λ t. occurs x (fl.contents fl.no_frees))
          (λ t. ap (occurs x) fl.contents-no_frees),
    );
    once = λ x. omega arith;
  }

  made_by-once :
      (o : Option ℕ) (malloc : ℕ) (made : List ℕ)
      → occurs malloc made ≡ 0
      → ((x : ℕ) → occurs x made ≤ 1)
      → (x : ℕ) → occurs x (made_by o malloc made) ≤ 1
  made_by-once none malloc made fresh h x = ground (arith, fresh, h x)
  made_by-once (some y) malloc made fresh h x = h x

  Step-Apart : {h k : Heap fl} → Step fl n limit h k → Apart fl n h → Apart fl n k
  Step-Apart {h} (allocates thread malloc lt fresh) inv = record {
    all = λ x. ground (arith, inv.all x, allocate-free fl n h.pool thread malloc x h.made lt);
    once =
        made_by-once (take_free fl h.pool thread).0 malloc h.made
          (omega (arith, fresh, inv.all malloc)) inv.once;
  }
  Step-Apart {h} (deallocates thread y lt busy) inv = record {
    all = λ x. ground (arith, inv.all x, busy, put_free-free fl n limit h.pool thread y x lt);
    once = inv.once;
  }

  -- In every interleaving of threads that allocate and free, each object that `malloc` returned is in
  -- use once or free in one list, and in no two places: none is handed out twice, and none is lost.
  pub Reach-Apart : {h : Heap fl} → Reach fl n limit h → Apart fl n h
  Reach-Apart start = begin-Apart
  Reach-Apart (later r step) = Step-Apart step (Reach-Apart r)
