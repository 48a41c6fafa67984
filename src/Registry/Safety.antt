-- ===== src/Registry/Safety.antt =====
-- When src/process.cpp destroys a process: the invariant holds in every reachable state.
use stp.Prelude.{
  occurs, occurs-append, length, ℕ, ◌+◌, ◌^◌, ◌≤◌, ◌<◌, ◌≡◌, refl, sym, ap, subst, ◌∙◌, inl, inr,
  List, [], ◌∷◌, ◌++◌, none, some, arith, update, Option-cases,
}
use stp.Dict.{find}
use stp.Process.Run.{ResumeResult, k_resume, k_down, k_break}
use stp.Registry.{
  Registry, next_id, reg, unreg, ref, unref, retire, find_process, create, spawn, after_resume,
}
use stp.Registry.Counts.{entries, entries-assign, find-Owned, update-Owned, assign-Owned}
use stp.Registry.System.{Owners, Step, spawns, finds, wakes, drops, runs, Reach, start, later}
use stp.Registry.Owners.{
  alive, Inv, init-Inv, held-pos, registered-pos, unref-Inv, ref-Inv, held-Inv, retire-Inv,
}

-- The next id is in use by no process.
next_id-unused :
    {s : Owners}
    → Inv s
    → s.registry.seq + 1 < 2 ^ 32
    → find (s.registry.seq + 1) s.registry.procs_map ≡ none
next_id-unused {s} inv h = elim (Option-cases (find (s.registry.seq + 1) s.registry.procs_map)) [
  | inl e ↦ e
  | inr (q, e) ↦ absurd (
      omega (
        arith,
        find-Owned s.pid_of (s.registry.seq + 1) q s.registry.procs_map inv.owned e,
        inv.ids q (registered-pos inv (s.registry.seq + 1) q e),
      ))
]

spawn-Inv :
    {s : Owners} (p : ℕ)
    → s.registry.refcnt p ≡ 0
    → s.registry.seq + 1 < 2 ^ 32
    → Inv s
    → Inv (record {
      registry = (spawn s.registry p).1;
      held = update s.held p (s.held p + 1);
      pid_of = update s.pid_of p (spawn s.registry p).0;
      created = s.created ++ p ∷ [];
    })
unfolding spawn create reg ref
spawn-Inv {s} p dead room inv =
    let id : ℕ = s.registry.seq + 1 in
    let m : List (ℕ × ℕ) = s.registry.procs_map in
    let e : next_id s.registry ≡ id = omega arith in
    let unused = next_id-unused inv room in
    let no_entry : entries p m ≡ 0 = omega (arith, inv.counts p) in
    rw e (record {
      counts = λ q. ground (arith, inv.counts q, inv.counts p, entries-assign q id p m unused);
      lives = λ q. ground (arith, inv.lives q, occurs-append q s.created (p ∷ []));
      owned =
          assign-Owned (update s.pid_of p id) id p m unused (ground arith)
            (update-Owned s.pid_of p id m no_entry inv.owned);
      ids = λ q k. ground (arith, inv.ids q);
      apart = λ q t k l. ground (arith, inv.ids q, inv.ids t, inv.apart q t);
    })

find_process_lem :
    (r : Registry) (pid p : ℕ)
    → (find_process r pid).0 ≡ some p
    → (find pid r.procs_map ≡ some p) × ((find_process r pid).1 ≡ ref r p)
unfolding find_process
find_process_lem r pid p h = (ground arith, ground arith)

find-Inv :
    {s : Owners} (pid p : ℕ)
    → (find_process s.registry pid).0 ≡ some p
    → Inv s
    → Inv (record s {
      registry = (find_process s.registry pid).1;
      held = update s.held p (s.held p + 1);
    })
find-Inv {s} pid p h inv =
    let (known, taken) = find_process_lem s.registry pid p h in
    subst (λ r. Inv (record s { registry = r; held = update s.held p (s.held p + 1) })) (sym taken)
      (ref-Inv p (registered-pos inv pid p known) inv)

-- The last id is at most the number of processes that were created.
Counted : Owners → Type 0
Counted s = s.registry.seq ≤ length s.created

length-append_one : (l : List ℕ) (p : ℕ) → length (l ++ p ∷ []) ≡ length l + 1
length-append_one [] p = refl
length-append_one (x ∷ l) p = omega (arith, length-append_one l p)

unref-seq : (r : Registry) (p : ℕ) → (unref r p).seq ≡ r.seq
unfolding unref
unref-seq r p = ground arith

retire-seq : (r : Registry) (p pid : ℕ) → (retire r p pid).seq ≡ r.seq
unfolding retire unreg
retire-seq r p pid = ground (arith, unref-seq (unreg r pid).1 p)

after_resume-seq :
    (r : Registry) (p pid : ℕ) (result : ResumeResult) → (after_resume r p pid result).seq ≡ r.seq
unfolding after_resume ref
after_resume-seq r p pid k_resume = unref-seq (ref r p) p
after_resume-seq r p pid k_down = unref-seq (retire r p pid) p ∙ retire-seq r p pid
after_resume-seq r p pid k_break = unref-seq r p

Step-Counted : {s t : Owners} → Step s t → Counted s → Counted t
unfolding Counted spawn create reg ref
Step-Counted {s} (spawns p dead) le = omega (arith, le, length-append_one s.created p)
Step-Counted {s} (finds pid p h) le = rw (find_process_lem s.registry pid p h).1 le
Step-Counted (wakes p h) le = le
Step-Counted {s} (drops p h) le = rw (unref-seq s.registry p) le
Step-Counted {s} (runs p result h) le = rw (after_resume-seq s.registry p (s.pid_of p) result) le

Reach-Counted : {s : Owners} → Reach s → Counted s
unfolding Counted
Reach-Counted start = omega arith
Reach-Counted (later r step) = Step-Counted step (Reach-Counted r)

Step-created : {s t : Owners} → Step s t → length s.created ≤ length t.created
Step-created {s} (spawns p dead) = omega (arith, length-append_one s.created p)
Step-created (finds pid p h) = omega arith
Step-created (wakes p h) = omega arith
Step-created (drops p h) = omega arith
Step-created (runs p result h) = omega arith

Step-Inv : {s t : Owners} → Step s t → Counted s → length t.created < 2 ^ 32 → Inv s → Inv t
unfolding after_resume Counted
Step-Inv {s} (spawns p dead) count few inv =
    spawn-Inv p dead (omega (arith, count, few, length-append_one s.created p)) inv
Step-Inv (finds pid p h) count few inv = find-Inv pid p h inv
Step-Inv (wakes p h) count few inv = ref-Inv p (held-pos inv p h) inv
Step-Inv (drops p h) count few inv = unref-Inv p h inv
Step-Inv {s} (runs p k_resume h) count few inv =
    held-Inv (update s.held p (s.held p)) (λ q. ground arith)
      (unref-Inv p (ground arith) (ref-Inv p (held-pos inv p h) inv))
Step-Inv (runs p k_down h) count few inv = unref-Inv p h (retire-Inv p h inv)
Step-Inv (runs p k_break h) count few inv = unref-Inv p h inv

Reach-Inv : {s : Owners} → Reach s → length s.created < 2 ^ 32 → Inv s
Reach-Inv start few = init-Inv
Reach-Inv (later r step) few =
    Step-Inv step (Reach-Counted r) few (Reach-Inv r (omega (arith, few, Step-created step)))

-- In every reachable state in which fewer than 2^32 processes were created, the count of a process is the
-- number of the references to it: those of the scheduler, the workers and the pointers, and the one of
-- the registry while it has an id.
pub Reach-refcnt :
    {s : Owners}
    → Reach s
    → length s.created < 2 ^ 32
    → (p : ℕ) → s.registry.refcnt p ≡ s.held p + entries p s.registry.procs_map
Reach-refcnt r few = (Reach-Inv r few).counts

-- In every reachable state in which fewer than 2^32 processes were created, a process has been destroyed
-- as often as it was created, less once if somebody still refers to it: none is destroyed too early,
-- twice or never.
pub Reach-destroyed :
    {s : Owners}
    → Reach s
    → length s.created < 2 ^ 32
    → (p : ℕ)
    → occurs p s.created
      ≡ occurs p s.registry.destroyed + alive (s.held p + entries p s.registry.procs_map)
Reach-destroyed {s} r few p =
    (Reach-Inv r few).lives p
    ∙ ap (λ n. occurs p s.registry.destroyed + alive n) ((Reach-Inv r few).counts p)
