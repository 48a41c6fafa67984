-- ===== src/Session/Owners.antt =====
-- The sessions of src/process.hpp that are in use are those that variables hold, each held once.
use stp.Prelude.{
  ℕ, ◌≡◌, ◌≢◌, refl, sym, subst, ap, ◌∙◌, Bool, true, false, not, ◌&&◌, ◌||◌, arith, ◌==◌, update,
  inl, inr, Bool-cases, ==→eq,
}
use stp.Wild.{IdAllocator}
use stp.Session.{
  Session, no_session, Store, release_session, close, new_session, move, assign, destroy,
}

-- The ids that are in use, by process, are those that the variables hold, each held by one.
pub record Owned (used : ℕ → ℕ → Bool) (vars : ℕ → Session) : Type 0 where
  pub in_use : (v : ℕ) → (vars v).session ≢ 0 → used (vars v).process (vars v).session ≡ true
  pub apart :
      (v w : ℕ)
      → (vars v).session ≢ 0
      → (vars v).process ≡ (vars w).process
      → (vars v).session ≡ (vars w).session
      → v ≡ w
  pub owner :
      (process x : ℕ)
      → used process x ≡ true
      → (v : ℕ) × ((vars v).process ≡ process) × ((vars v).session ≡ x) × (x ≢ 0)

Owned-ext :
    {used used' : ℕ → ℕ → Bool} {vars vars' : ℕ → Session}
    → ((p x : ℕ) → used' p x ≡ used p x)
    → ((v : ℕ) → vars' v ≡ vars v)
    → Owned used vars
    → Owned used' vars'
Owned-ext {used} {vars'} u e h = record {
  in_use = λ v k.
      u (vars' v).process (vars' v).session
      ∙ subst (λ (t : Session). used t.process t.session ≡ true) (sym (e v))
          (h.in_use v (λ z. k (ap (λ (t : Session). t.session) (e v) ∙ z)));
  apart = λ v w k l m. ground (arith, e v, e w, h.apart v w, k, l, m);
  owner = λ p x k.
      let (v, p_same, x_same, ne) = h.owner p x (sym (u p x) ∙ k) in
      (v, ap (λ t. t.process) (e v) ∙ p_same, ap (λ t. t.session) (e v) ∙ x_same, ne);
}

creates-Owned :
    {used used' : ℕ → ℕ → Bool} (vars : ℕ → Session) (this process x : ℕ)
    → (vars this).session ≡ 0
    → used process x ≡ false
    → x ≢ 0
    → ((p y : ℕ) → used' p y ≡ ((process == p && x == y) || used p y))
    → Owned used vars
    → Owned used' (update vars this (record { process = process; session = x }))
creates-Owned vars this process x free unused ne u h = record {
  in_use = λ v k. ground (arith, h.in_use v, u (vars v).process (vars v).session, u process x, k);
  apart = λ v w k l m. ground (arith, h.apart v w, h.in_use v, h.in_use w, unused, k, l, m);
  owner = λ p y k. elim (Bool-cases (process == p && x == y)) [
    | inl e ↦ (this, ground (arith, e), ground (arith, e), ground (arith, e, ne))
    | inr e ↦
        let (v, p_same, y_same, some_one) = h.owner p y (ground (arith, u p y, k, e)) in
        (
          v,
          ground (arith, p_same, y_same, some_one, free),
          ground (arith, p_same, y_same, some_one, free),
          some_one,
        )
  ];
}

drops-Owned :
    {used used' : ℕ → ℕ → Bool} (vars : ℕ → Session) (this : ℕ)
    → ((p y : ℕ)
        → used' p y ≡ (not ((vars this).process == p && (vars this).session == y) && used p y))
    → (vars this).session ≢ 0
    → Owned used vars
    → Owned used' (update vars this no_session)
drops-Owned vars this u some_one h = record {
  in_use = λ v k.
      ground (arith, h.in_use v, h.apart this v, u (vars v).process (vars v).session, some_one, k);
  apart = λ v w k l m. ground (arith, h.apart v w, k, l, m);
  owner = λ p y k.
      let (v, p_same, y_same, ne) = h.owner p y (ground (arith, u p y, k)) in
      (
        v,
        ground (arith, p_same, y_same, u p y, k, ne),
        ground (arith, p_same, y_same, u p y, k, ne),
        ne,
      );
}

-- Nothing is given up by a variable without a session.
clears-Owned :
    {used : ℕ → ℕ → Bool} (vars : ℕ → Session) (this : ℕ)
    → (vars this).session ≡ 0
    → Owned used vars
    → Owned used (update vars this no_session)
clears-Owned vars this free h = record {
  in_use = λ v k. ground (arith, h.in_use v, k);
  apart = λ v w k l m. ground (arith, h.apart v w, k, l, m);
  owner = λ p y k.
      let (v, p_same, y_same, ne) = h.owner p y k in
      (v, ground (arith, p_same, y_same, free, ne), ground (arith, p_same, y_same, free, ne), ne);
}

moves-Owned :
    {used : ℕ → ℕ → Bool} (vars : ℕ → Session) (this other : ℕ)
    → (vars this).session ≡ 0
    → Owned used vars
    → Owned used (update (update vars this (vars other)) other no_session)
moves-Owned {used} vars this other free h = record {
  in_use = λ v k. ground (arith, h.in_use v, h.in_use other, k);
  apart = λ v w k l m. ground (arith, h.apart v w, h.apart other w, h.apart v other, k, l, m);
  owner = λ p y k.
      let (v, p_same, y_same, ne) = h.owner p y k in
      elim (Bool-cases (v == other)) [
        | inl e ↦ (
          this,
          ground (arith, p_same, y_same, free, ne, e),
          ground (arith, p_same, y_same, free, ne, e),
          ne,
        )
        | inr e ↦ (
          v,
          ground (arith, p_same, y_same, free, ne, e),
          ground (arith, p_same, y_same, free, ne, e),
          ne,
        )
      ];
}

module _ (a : IdAllocator) where
  pub data Step (s : Store a) : Store a → Type 0 where
    -- A session is made in a variable that does not live.
    creates : (this process : ℕ) → (s.vars this).session ≡ 0 → Step s (new_session a s this process)
    -- The move constructor.
    constructs :
        (this other : ℕ) → (s.vars this).session ≡ 0 → this ≢ other → Step s (move a s this other)
    assigns : (this other : ℕ) → Step s (assign a s this other)
    destroys : (this : ℕ) → Step s (destroy a s this)

  pub data Reach : Store a → Type 0 where
    start : Reach (record { ids = λ p. a.no_ids; vars = λ v. no_session })
    later : {s t : Store a} → Reach s → Step s t → Reach t

  abbrev pub used_in : Store a → ℕ → ℕ → Bool
  used_in s p x = a.in_use (s.ids p) x

  start-Owned : Owned (λ p x. a.in_use a.no_ids x) (λ v. no_session)
  start-Owned = record {
    in_use = λ v h. absurd (h refl);
    apart = λ v w h. absurd (h refl);
    owner = λ p x h. absurd (cc (h, a.in_use-no_ids x));
  }

  new_session-Owned :
      (s : Store a) (this process : ℕ)
      → (s.vars this).session ≡ 0
      → Owned (used_in s) s.vars
      → Owned (used_in (new_session a s this process)) (new_session a s this process).vars
  unfolding new_session
  new_session-Owned s this process free h =
      creates-Owned s.vars this process (a.new_id (s.ids process)).0 free
        (a.new_id-unused (s.ids process)) (a.new_id-ne-0 (s.ids process))
        (λ p y. ground (arith, a.in_use-new_id (s.ids process) y)) h

  -- After `close`, the session of the variable is nobody's.
  close-Owned :
      (s : Store a) (this : ℕ)
      → Owned (used_in s) s.vars
      → Owned (used_in (close a s this)) (update s.vars this no_session)
  unfolding close release_session
  close-Owned s this h = elim (Bool-cases ((s.vars this).session == 0)) [
    | inl e ↦ rw e (clears-Owned s.vars this (==→eq (s.vars this).session 0 e) h)
    | inr e ↦ rw e (
        drops-Owned s.vars this
          (λ p y.
            ground (arith, a.in_use-erase (s.ids (s.vars this).process) (s.vars this).session y))
          (ground (arith, e)) h)
  ]

  close-vars : (s : Store a) (this : ℕ) → (close a s this).vars ≡ s.vars
  unfolding close release_session
  close-vars s this = elim (Bool-cases ((s.vars this).session == 0)) [
    | inl e ↦ rw e refl
    | inr e ↦ rw e refl
  ]

  assign-Owned :
      (s : Store a) (this other : ℕ)
      → Owned (used_in s) s.vars
      → Owned (used_in (assign a s this other)) (assign a s this other).vars
  unfolding assign move
  assign-Owned s this other h =
      let vars : ℕ → Session = s.vars in
      rw (close-vars s this) (
        Owned-ext (λ p x. refl) (λ v. ground arith)
          (moves-Owned (update vars this no_session) this other (ground arith)
            (close-Owned s this h)))

  Step-Owned : {s t : Store a} → Step s t → Owned (used_in s) s.vars → Owned (used_in t) t.vars
  unfolding move destroy
  Step-Owned {s} (creates this process free) h = new_session-Owned s this process free h
  Step-Owned {s} (constructs this other free ne) h = moves-Owned s.vars this other free h
  Step-Owned {s} (assigns this other) h = assign-Owned s this other h
  Step-Owned {s} (destroys this) h = close-Owned s this h

  -- In every state that creations, moves and destructions of variables reach, the sessions in use of
  -- each process are those that variables hold, and each is held by one variable: none is released
  -- while it is held, none is released twice, and none is lost.
  pub Reach-Owned : {s : Store a} → Reach s → Owned (used_in s) s.vars
  Reach-Owned start = start-Owned
  Reach-Owned (later r step) = Step-Owned step (Reach-Owned r)
