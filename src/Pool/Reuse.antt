-- ===== src/Pool/Reuse.antt =====
-- An object that a thread of src/process.cpp or src/context.cpp frees is the next one that it gets.
use stp.Prelude.{ℕ, ◌<◌, ◌≡◌, refl, ap, ◌∙◌, inl, inr, some, arith, Option-cases}
use stp.Wild.{FreeList}
use stp.Pool.{Pool, take_free, put_free, allocate}

module _ (fl : FreeList) where
  take-push : (f : fl.Frees) (x : ℕ) → (fl.take (fl.push f x)).0 ≡ some x
  take-push f x = elim (Option-cases (fl.take (fl.push f x)).0) [
    | inl e ↦ absurd (cc (fl.take_empty (fl.push f x) e, fl.contents-push f x))
    | inr (y, e) ↦ cc (e, fl.take-some (fl.push f x) y e, fl.contents-push f x)
  ]

  put_free-own :
      (limit : ℕ) (p : Pool fl) (thread x : ℕ)
      → fl.size (p.own thread) < limit
      → (put_free fl limit p thread x).own thread ≡ fl.push (p.own thread) x
  unfolding put_free
  put_free-own limit p thread x room = ground (arith, room)

  take_free-some :
      (p : Pool fl) (thread x : ℕ)
      → (fl.take (p.own thread)).0 ≡ some x
      → (take_free fl p thread).0 ≡ some x
  unfolding take_free
  take_free-some p thread x e = rw (e, take_free) refl

  pub allocate-put_free :
      (limit : ℕ) (p : Pool fl) (thread malloc x : ℕ)
      → fl.size (p.own thread) < limit
      → (allocate fl (put_free fl limit p thread x) thread malloc).0 ≡ x
  unfolding allocate
  allocate-put_free limit p thread malloc x room =
      let given : Pool fl = put_free fl limit p thread x in
      let taken = take_free-some given thread x (
        ap (λ f. (fl.take f).0) (put_free-own limit p thread x room)
        ∙ take-push (p.own thread) x) in
      rw (taken, allocate) refl
