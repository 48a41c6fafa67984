-- ===== src/Mailbox/Delivery.antt =====
-- What the mailbox of src/process.cpp promises to its writers and to its process, in every
-- interleaving.
use mathlib.Core.List.{append-nil}
use stp.Prelude.{
  ℕ, zero, suc, ◌+◌, ◌≤◌, ◌<◌, ◌≡◌, ◌≢◌, refl, sym, ◌∙◌, ◌⊎◌, inl, inr, true, [], ◌++◌, arith,
}
use stp.Wild.{AppendList}
use stp.Mailbox.System.{Reader, running, closing, parked, Sys, Reach}
use stp.Mailbox.Invariant.{unread, Status, Reach-Inv}

abbrev pub working : Reader → ℕ
working parked = 0
working _ = 1

module _ {A : Type 0} (L : AppendList A) where
  -- In every reachable state what the reader has taken, followed by what it has not read yet, is
  -- all that was pushed, in the order in which the writers held the lock.
  pub Reach-order : {s : Sys L} → Reach L s → s.pushed ≡ s.taken ++ unread L s.box
  Reach-order r = (Reach-Inv L r).order

  Status-one : (r : Reader) (s : Sys L) → Status L r s → s.resumes + working r ≤ 1
  Status-one running s h = omega arith
  Status-one closing s h = omega arith
  Status-one parked s (e, inl (w, n, q)) = omega arith
  Status-one parked s (e, inr (w, n)) = omega arith

  -- In every reachable state the process runs in one worker, or waits in the scheduler once, or
  -- neither: no push resumes a process that runs or was resumed already.
  pub Reach-one_worker : {s : Sys L} → Reach L s → s.resumes + working s.reader ≤ 1
  Reach-one_worker {s} r = Status-one s.reader s (Reach-Inv L r).status

  Status-woken :
      (r : Reader) (s : Sys L)
      → Status L r s
      → r ≡ parked
      → unread L s.box ≢ []
      → (s.resumes ≡ 1) ⊎ ((s.box.wait ≡ true) × (0 < s.writers))
  Status-woken running s h e ne = cc
  Status-woken closing s h e ne = cc
  Status-woken parked s (r, inr (w, n)) e ne = inl n
  Status-woken parked s (r, inl (w, n, q)) e ne = inr (w, some_writer s.writers q)
    where
      some_writer : (k : ℕ) → (k ≡ 0 → L.contents s.box.write ≡ []) → 0 < k
      some_writer zero f = absurd (ne (rw (r, f refl)))
      some_writer (suc k) f = omega arith

  -- No wake-up is lost: in every reachable state in which the process is parked while a message is
  -- unread, either the scheduler holds the process, or the flag is set and a writer that will read
  -- the flag, and so resume the process, has yet to do so.
  pub Reach-woken :
      {s : Sys L}
      → Reach L s
      → s.reader ≡ parked
      → unread L s.box ≢ []
      → (s.resumes ≡ 1) ⊎ ((s.box.wait ≡ true) × (0 < s.writers))
  Reach-woken {s} r e ne = Status-woken s.reader s (Reach-Inv L r).status e ne

  Status-quiet :
      (r : Reader) (s : Sys L)
      → Status L r s
      → r ≡ parked
      → s.writers ≡ 0
      → s.resumes ≡ 0
      → unread L s.box ≡ []
  Status-quiet running s h e w n = cc
  Status-quiet closing s h e w n = cc
  Status-quiet parked s (r, inl (_, _, q)) e w n = rw (r, q w)
  Status-quiet parked s (r, inr (_, one)) e w n = absurd (omega arith)

  -- In every reachable state in which the process is parked, no writer is inside `push` and the
  -- scheduler does not hold the process, the reader has taken all that was pushed, in order.
  pub Reach-delivered :
      {s : Sys L}
      → Reach L s
      → s.reader ≡ parked
      → s.writers ≡ 0
      → s.resumes ≡ 0
      → s.taken ≡ s.pushed
  Reach-delivered {s} r e w n =
      let none_left = Status-quiet s.reader s (Reach-Inv L r).status e w n in
      sym (Reach-order r ∙ rw (none_left, append-nil s.taken))
