-- ===== src/Context/Objects.antt =====
-- class Context of src/context.cpp: its objects, with their stacks and their free lists.
--
-- `entry` is the function and the argument that `makecontext` was given, by their addresses; the
-- switch itself is that of ucontext. An address 0 is NULL.
use stp.Prelude.{
  ℕ, ◌%◌, ◌/◌, ◌<◌, ◌≡◌, ◌≢◌, ap, ◌∙◌, Option, none, some, arith, ◌==◌, if◌then◌else◌, update,
}
use stp.Wild.{FreeList}
use stp.Pool.{Pool, allocate, dealloc_context}
use stp.Pool.Reuse.{allocate-put_free}
use stp.Context.{Cache, cache_size, stack_size, mstack, munstack}
use stp.Context.Stacks.{mstack-munstack}

pub record Context : Type 0 where
  pub stackbase : ℕ
  pub stacksize : ℕ
  pub entry : Option (ℕ × ℕ)

module _ (fl : FreeList) where
  pub record Contexts : Type 0 where
    pub pool : Pool fl
    pub cache : Cache
    pub objects : ℕ → Context

  -- `Context::create()`, for the context of a thread.
  pub create_bare : Contexts → (thread malloc : ℕ) → ℕ × Contexts
  create_bare w thread malloc =
      let (ctx, pool) = allocate fl w.pool thread malloc in
      (
        ctx,
        record w {
          pool = pool;
          objects = update w.objects ctx (record { stackbase = 0; stacksize = 0; entry = none });
        },
      )

  -- The constructor, with what `mstack` returned.
  pub construct :
      Option (ℕ × ℕ × Cache) → ℕ × Pool fl → (ℕ → Context) → (func arg : ℕ) → Option (ℕ × Contexts)
  construct none (ctx, pool) objects func arg = none
  construct (some (stack, size, cache)) (ctx, pool) objects func arg = some (
    ctx,
    record {
      pool = pool;
      cache = cache;
      objects =
          update objects ctx
            (record { stackbase = stack; stacksize = size; entry = some (func, arg) });
    },
  )

  -- `Context::create(func, arg, addstack)`; `none` is a failed assertion.
  pub create :
      (page : ℕ) → Contexts → (thread malloc func arg addstack low_page : ℕ) → Option (ℕ × Contexts)
  create page w thread malloc func arg addstack low_page =
      construct (mstack page w.cache addstack low_page) (allocate fl w.pool thread malloc) w.objects
        func arg

  -- `~Context`: the cache and the call of munmap.
  pub release : (page : ℕ) → Cache → Context → Option (Cache × Option (ℕ × ℕ))
  release page cache c =
      if c.stackbase == 0 then some (cache, none) else munstack page cache c.stackbase c.stacksize

  pub released :
      Option (Cache × Option (ℕ × ℕ))
      → Contexts
      → (thread ctx : ℕ) → Option (Contexts × Option (ℕ × ℕ))
  released none w thread ctx = none
  released (some (cache, unmapped)) w thread ctx =
      some (record w { pool = dealloc_context fl w.pool thread ctx; cache = cache }, unmapped)

  pub destroy : (page : ℕ) → Contexts → (thread ctx : ℕ) → Option (Contexts × Option (ℕ × ℕ))
  destroy page w thread ctx = released (release page w.cache (w.objects ctx)) w thread ctx

  release-stack :
      (page : ℕ) (cache : Cache) (c : Context)
      → c.stackbase ≢ 0
      → release page cache c ≡ munstack page cache c.stackbase c.stacksize
  unfolding release
  release-stack page cache c h = ground (arith, h)

  update_same : (f : ℕ → Context) (i : ℕ) (c : Context) → update f i c i ≡ c
  update_same f i c = ground arith

  -- A context with a stack of a size that is cached, which is destroyed by a thread with room in its
  -- list, is the one that the thread creates next, with the same stack where as much stack is asked
  -- for, whatever malloc and mmap would return; nothing is unmapped, and the cache is then as it was.
  pub create-destroy :
      (page : ℕ) (w : Contexts) (thread ctx malloc func arg addstack low_page : ℕ)
      → stack_size page addstack % page ≡ 0
      → stack_size page addstack / page < cache_size
      → (w.objects ctx).stacksize ≡ stack_size page addstack
      → (w.objects ctx).stackbase ≢ 0
      → fl.size (w.pool.own thread) < 5000
      → (given : Contexts) × (left : Contexts) × (destroy page w thread ctx ≡ some (given, none))
        × (create page given thread malloc func arg addstack low_page ≡ some (ctx, left))
        × ((left.objects ctx).stackbase ≡ (w.objects ctx).stackbase)
        × ((i : ℕ) → left.cache i ≡ w.cache i)
  unfolding create destroy released construct dealloc_context
  create-destroy page w thread ctx malloc func arg addstack low_page whole cached size some_stack
        room =
      let stack : ℕ = (w.objects ctx).stackbase in
      let (cache, cache', gives, takes, same) =
        mstack-munstack page w.cache addstack stack low_page whole cached in
      let given : Contexts = record w {
        pool = dealloc_context fl w.pool thread ctx;
        cache = cache;
      } in
      let got : ℕ × Pool fl = allocate fl given.pool thread malloc in
      let same_ctx : got.0 ≡ ctx = allocate-put_free fl 5000 w.pool thread malloc ctx room in
      let built : ℕ → Contexts = λ c. record {
        pool = got.1;
        cache = cache';
        objects = update w.objects c (record {
          stackbase = stack;
          stacksize = stack_size page addstack;
          entry = some (func, arg);
        });
      } in
      (
        given,
        built ctx,
        ap (λ r. released r w thread ctx)
            (release-stack page w.cache (w.objects ctx) some_stack
              ∙ ap (munstack page w.cache stack) size
              ∙ gives),
        ap (λ m. construct m got w.objects func arg) takes ∙ ap (λ c. some (c, built c)) same_ctx,
        ap (λ (c : Context). c.stackbase) (update_same w.objects ctx _),
        same,
      )
