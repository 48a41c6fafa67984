-- ===== src/Pool/Bound.antt =====
-- A thread of src/process.cpp or src/context.cpp keeps no more free objects than the limit.
use stp.Prelude.{
  ℕ, subst, sym, ◌∙◌, refl, ◌+◌, ◌≤◌, ◌≡◌, ap, inl, inr, arith, leb, length, update, update_all,
  Bool-cases, Option-cases,
}
use stp.Wild.{FreeList}
use stp.Pool.{Pool, take_common, take_free, put_free, allocate}
use stp.Pool.Threads.{Heap, allocates, deallocates, Reach, start, later}

module _ (fl : FreeList) (limit : ℕ) where
  abbrev pub Bounded : Pool fl → Type 0
  Bounded p = (t : ℕ) → fl.size (p.own t) ≤ limit

  size-take : (f : fl.Frees) → fl.size (fl.take f).1 ≤ fl.size f
  size-take f = elim (Option-cases (fl.take f).0) [
    | inl e ↦ omega (arith, fl.size_lem f, fl.size_lem (fl.take f).1, ap length (fl.take-none f e))
    | inr (x, e) ↦
        omega (arith, fl.size_lem f, fl.size_lem (fl.take f).1, ap length (fl.take-some f x e))
  ]

  size-push : (f : fl.Frees) (x : ℕ) → fl.size (fl.push f x) ≡ fl.size f + 1
  size-push f x =
      omega (arith, fl.size_lem f, fl.size_lem (fl.push f x), ap length (fl.contents-push f x))

  own-Bounded :
      (p : Pool fl) (thread : ℕ) (f : fl.Frees)
      → fl.size f ≤ limit
      → Bounded p
      → (t : ℕ) → fl.size (update p.own thread f t) ≤ limit
  own-Bounded p thread f small h = update_all (λ t g. fl.size g ≤ limit) p.own thread f h small

  take_free-own :
      (p : Pool fl) (thread : ℕ)
      → (take_free fl p thread).1.own ≡ update p.own thread (fl.take (p.own thread)).1
  unfolding take_free take_common
  take_free-own p thread = elim (Option-cases (fl.take (p.own thread)).0) [
    | inr (x, e) ↦ rw (e, take_free) refl
    | inl e ↦ rw (e, take_free) refl
  ]

  allocate-pool :
      (p : Pool fl) (thread malloc : ℕ)
      → (allocate fl p thread malloc).1 ≡ (take_free fl p thread).1
  unfolding allocate
  allocate-pool p thread malloc = elim (Option-cases (take_free fl p thread).0) [
    | inr (x, e) ↦ rw (e, allocate) refl
    | inl e ↦ rw (e, allocate) refl
  ]

  allocate-Bounded :
      (p : Pool fl) (thread malloc : ℕ) → Bounded p → Bounded (allocate fl p thread malloc).1
  allocate-Bounded p thread malloc h =
      subst (λ (own : ℕ → fl.Frees). (t : ℕ) → fl.size (own t) ≤ limit)
        (sym (ap (λ (q : Pool fl). q.own) (allocate-pool p thread malloc) ∙ take_free-own p thread))
        (own-Bounded p thread (fl.take (p.own thread)).1
          (omega (arith, size-take (p.own thread), h thread)) h)

  put_free-Bounded :
      (p : Pool fl) (thread x : ℕ) → Bounded p → Bounded (put_free fl limit p thread x)
  unfolding put_free
  put_free-Bounded p thread x h = elim (Bool-cases (leb limit (fl.size (p.own thread)))) [
    | inl e ↦ rw e h
    | inr e ↦ rw e (
        own-Bounded p thread (fl.push (p.own thread) x)
          (ground (arith, e, size-push (p.own thread) x)) h)
  ]

module _ (fl : FreeList) (n limit : ℕ) where
  -- In every interleaving of threads that allocate and free, no thread keeps more free objects than
  -- the limit.
  pub Reach-Bounded : {h : Heap fl} → Reach fl n limit h → Bounded fl limit h.pool
  Reach-Bounded start = λ t. omega (arith, fl.size_lem fl.no_frees, ap length fl.contents-no_frees)
  Reach-Bounded (later {h} r (allocates thread malloc lt fresh)) =
      allocate-Bounded fl limit h.pool thread malloc (Reach-Bounded r)
  Reach-Bounded (later {h} r (deallocates thread x lt busy)) =
      put_free-Bounded fl limit h.pool thread x (Reach-Bounded r)
