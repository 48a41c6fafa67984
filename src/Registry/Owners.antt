-- ===== src/Registry/Owners.antt =====
-- The reference counts of src/process.cpp under every sequence of their users.
use stp.Prelude.{
  one_if, occurs, occurs-append, ℕ, zero, suc, ◌+◌, ◌-◌, ◌<◌, ◌≤◌, ◌≡◌, refl, sym, ap, subst, ◌∙◌,
  inl, inr, List, [], ◌∷◌, none, some, arith, update, Option-cases,
}
use stp.Dict.{find, erase}
use stp.Registry.{Registry, is_found, unreg, ref, unref, retire}
use stp.Registry.Counts.{entries, Owned, entries-erase, entries-pos, find-Owned, erase-Owned}
use stp.Registry.System.{Owners, init}

-- 1 for a process that is alive.
abbrev pub alive : ℕ → ℕ
alive zero = 0
alive (suc n) = 1

pub record Inv (s : Owners) : Type 0 where
  pub counts : (p : ℕ) → s.registry.refcnt p ≡ s.held p + entries p s.registry.procs_map
  pub lives :
      (p : ℕ) → occurs p s.created ≡ occurs p s.registry.destroyed + alive (s.registry.refcnt p)
  pub owned : Owned s.pid_of s.registry.procs_map
  pub ids : (p : ℕ) → 0 < s.registry.refcnt p → s.pid_of p ≤ s.registry.seq
  pub apart :
      (p q : ℕ)
      → 0 < s.registry.refcnt p
      → 0 < s.registry.refcnt q
      → s.pid_of p ≡ s.pid_of q
      → p ≡ q

pub init-Inv : Inv init
init-Inv = record {
  counts = λ p. refl;
  lives = λ p. refl;
  owned = tt;
  ids = λ p h. omega arith;
  apart = λ p q h k e. absurd (omega arith);
}

-- What `unref` does to a registry: a reference less, and the end of the process with the last one.
record Unrefs (r : Registry) (p : ℕ) (r' : Registry) : Type 0 where
  counts : (q : ℕ) → r'.refcnt q + one_if p q ≡ r.refcnt q
  lives :
      (q : ℕ)
      → occurs q r'.destroyed + alive (r'.refcnt q) ≡ occurs q r.destroyed + alive (r.refcnt q)
  same_map : r'.procs_map ≡ r.procs_map
  same_seq : r'.seq ≡ r.seq

unref-Unrefs : (r : Registry) (p : ℕ) → 0 < r.refcnt p → Unrefs r p (unref r p)
unfolding unref
unref-Unrefs r p h = record {
  counts = λ q. ground arith;
  lives = λ q. ground (arith, occurs-append q r.destroyed (p ∷ []));
  same_map = ground arith;
  same_seq = ground arith;
}

pub held-pos : {s : Owners} → Inv s → (p : ℕ) → 0 < s.held p → 0 < s.registry.refcnt p
held-pos inv p h = omega (arith, inv.counts p)

pub registered-pos :
    {s : Owners}
    → Inv s
    → (pid p : ℕ) → find pid s.registry.procs_map ≡ some p
    → 0 < s.registry.refcnt p
registered-pos {s} inv pid p h =
    omega (arith, inv.counts p, entries-pos pid p s.registry.procs_map h)

pub unref-Inv :
    {s : Owners} (p : ℕ)
    → 0 < s.held p
    → Inv s
    → Inv (record s { registry = unref s.registry p; held = update s.held p (s.held p - 1) })
unref-Inv {s} p h inv =
    let u = unref-Unrefs s.registry p (held-pos inv p h) in
    record {
      counts = λ q. rw u.same_map (ground (arith, u.counts q, inv.counts q));
      lives = λ q. inv.lives q ∙ sym (u.lives q);
      owned = rw u.same_map inv.owned;
      ids = λ q k. rw u.same_seq (inv.ids q (omega (arith, u.counts q)));
      apart = λ q t k l. inv.apart q t (omega (arith, u.counts q)) (omega (arith, u.counts t));
    }

-- One more reference to a process that is alive.
pub ref-Inv :
    {s : Owners} (p : ℕ)
    → 0 < s.registry.refcnt p
    → Inv s
    → Inv (record s { registry = ref s.registry p; held = update s.held p (s.held p + 1) })
unfolding ref
ref-Inv {s} p h inv = record {
  counts = λ q. ground (arith, inv.counts q);
  lives = λ q. ground (arith, inv.lives q);
  owned = inv.owned;
  ids = λ q k. inv.ids q (ground arith);
  apart = λ q t k l. inv.apart q t (ground arith) (ground arith);
}

pub held-Inv :
    {s : Owners} (held : ℕ → ℕ)
    → ((q : ℕ) → held q ≡ s.held q)
    → Inv s
    → Inv (record s { held = held })
held-Inv {s} held same inv = record {
  counts = λ q. omega (arith, same q, inv.counts q);
  lives = inv.lives;
  owned = inv.owned;
  ids = inv.ids;
  apart = inv.apart;
}

-- The registry gives up its reference to a process that it knows.
retired-Inv :
    {s : Owners} (p : ℕ)
    → find (s.pid_of p) s.registry.procs_map ≡ some p
    → Inv s
    → Inv (record s {
      registry =
          unref (record s.registry { procs_map = erase (s.pid_of p) s.registry.procs_map }) p;
    })
retired-Inv {s} p h inv =
    let m : List (ℕ × ℕ) = s.registry.procs_map in
    let u =
      unref-Unrefs (record s.registry { procs_map = erase (s.pid_of p) m }) p
        (registered-pos inv (s.pid_of p) p h) in
    record {
      counts = λ q.
          rw u.same_map
            (omega (arith, u.counts q, inv.counts q, entries-erase q (s.pid_of p) p m h));
      lives = λ q. inv.lives q ∙ sym (u.lives q);
      owned = rw u.same_map (erase-Owned s.pid_of (s.pid_of p) m inv.owned);
      ids = λ q k. rw u.same_seq (inv.ids q (omega (arith, u.counts q)));
      apart = λ q t k l. inv.apart q t (omega (arith, u.counts q)) (omega (arith, u.counts t));
    }

retire_found :
    (r : Registry) (p pid q : ℕ)
    → find pid r.procs_map ≡ some q
    → retire r p pid ≡ unref (record r { procs_map = erase pid r.procs_map }) p
unfolding retire unreg is_found
retire_found r p pid q h = rw h refl

retire_unknown : (r : Registry) (p pid : ℕ) → find pid r.procs_map ≡ none → retire r p pid ≡ r
unfolding retire unreg is_found
retire_unknown r p pid h = rw h refl

pub retire-Inv :
    {s : Owners} (p : ℕ)
    → 0 < s.held p
    → Inv s
    → Inv (record s { registry = retire s.registry p (s.pid_of p) })
retire-Inv {s} p h inv = elim (Option-cases (find (s.pid_of p) s.registry.procs_map)) [
  | inl e ↦
      subst (λ r. Inv (record s { registry = r }))
        (sym (retire_unknown s.registry p (s.pid_of p) e)) inv
  | inr (q, e) ↦
      let same : q ≡ p =
        inv.apart q p (registered-pos inv (s.pid_of p) q e) (held-pos inv p h)
          (find-Owned s.pid_of (s.pid_of p) q s.registry.procs_map inv.owned e) in
      subst (λ r. Inv (record s { registry = r }))
        (sym (retire_found s.registry p (s.pid_of p) q e)) (retired-Inv p (e ∙ ap some same) inv)
]
