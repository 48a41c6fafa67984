-- ===== src/Mailbox/Invariant.antt =====
-- The invariant of a mailbox of src/process.cpp with its writers and its reader.
use mathlib.Core.List.{append_assoc, append-nil}
use stp.Prelude.{
  ◌+◌, ◌-◌, ◌<◌, ◌≡◌, ◌≢◌, refl, sym, ◌∙◌, ◌⊎◌, inl, inr, true, false, List, [], ◌∷◌, ◌++◌, Option,
  none, some, arith,
}
use stp.Wild.{AppendList}
use stp.Mailbox.{
  Mailbox, new_mailbox, push_locked, push_notify, take, take_from, take_refilled, refill,
}
use stp.Mailbox.System.{
  Reader, running, closing, parked, Sys, init, count_resume, Step, append, notify, deliver, close,
  park, resume, Reach, start, later,
}

append-eq_nil : {A : Type 0} (xs ys : List A) → xs ++ ys ≡ [] → (xs ≡ []) × (ys ≡ [])
append-eq_nil [] ys e = (refl, e)
append-eq_nil (x ∷ xs) ys e = cc

module _ {A : Type 0} (L : AppendList A) where
  abbrev pub unread : Mailbox A L.Queue → List A
  unread b = b.read ++ L.contents b.write

  -- A parked reader either waits for the flag, and then whoever left a message is about to read it,
  -- or has been resumed once.
  abbrev pub Status : Reader → Sys L → Type 0
  Status running s = (s.box.wait ≡ false) × (s.resumes ≡ 0)
  Status closing s = (s.box.wait ≡ false) × (s.resumes ≡ 0) × (unread s.box ≡ [])
  Status parked s =
      (s.box.read ≡ [])
      × (((s.box.wait ≡ true) × (s.resumes ≡ 0) × ((s.writers ≡ 0) → L.contents s.box.write ≡ []))
          ⊎ ((s.box.wait ≡ false) × (s.resumes ≡ 1)))

  pub record Inv (s : Sys L) : Type 0 where
    pub order : s.pushed ≡ s.taken ++ unread s.box
    pub status : Status s.reader s

  -- What `take` does to a mailbox.
  abbrev pub Takes : Mailbox A L.Queue → Option A → Mailbox A L.Queue → Type 0
  Takes b none b' = (unread b ≡ []) × (unread b' ≡ []) × (b'.wait ≡ true)
  Takes b (some a) b' = (unread b ≡ a ∷ unread b') × (b'.wait ≡ b.wait)

  -- `take` returns the oldest unread message and leaves the flag alone, or finds that there is none
  -- and sets the flag.
  pub take-Takes : (b : Mailbox A L.Queue) → Takes b (take L b).0 (take L b).1
  unfolding take take_from take_refilled refill
  take-Takes b = from b.read refl
    where
      refilled :
          (l : List A)
          → (L.clear b.write).0 ≡ l
          → b.read ≡ []
          → Takes b (take_refilled L (refill L b) l).0 (take_refilled L (refill L b) l).1
      refilled [] e r = (rw (r, ← L.clear_all b.write) e, rw (e, L.contents-clear b.write), refl)
      refilled (a ∷ l) e r =
          (rw (r, ← L.clear_all b.write, L.contents-clear b.write) (e ∙ rw (append-nil l)), refl)

      from : (l : List A) → b.read ≡ l → Takes b (take_from L b l).0 (take_from L b l).1
      from [] e = refilled (L.clear b.write).0 refl e
      from (a ∷ l) e = (rw e, refl)

  init-Inv : Inv (init L)
  unfolding new_mailbox
  init-Inv = record { order = rw L.contents-empty; status = (refl, refl) }

  append-Status :
      (r : Reader) (s : Sys L) (a : A)
      → r ≢ closing
      → Status r s
      → Status r (record s {
        box = push_locked L s.box a;
        writers = s.writers + 1;
        pushed = s.pushed ++ a ∷ [];
      })
  unfolding push_locked
  append-Status running s a ne h = h
  append-Status closing s a ne h = absurd (ne refl)
  append-Status parked s a ne (r, inl (w, n, q)) = (r, inl (w, n, λ z. absurd (omega arith)))
  append-Status parked s a ne (r, inr h) = (r, inr h)

  notify-Status :
      (r : Reader) (s : Sys L)
      → 0 < s.writers
      → Status r s
      → Status r (record s {
        box = (push_notify L s.box).1;
        writers = s.writers - 1;
        resumes = count_resume (push_notify L s.box).0 s.resumes;
      })
  unfolding push_notify
  notify-Status running s lt h = ground arith
  notify-Status closing s lt h = ground arith
  notify-Status parked s lt (r, inl (w, n, q)) = rw w (r, inr (refl, omega arith))
  notify-Status parked s lt (r, inr (w, n)) = ground arith

  resume-Status :
      (s : Sys L)
      → Status parked s
      → 0 < s.resumes
      → Status running (record s { resumes = s.resumes - 1; reader = running })
  resume-Status s (r, inl (w, n, q)) h = absurd (omega arith)
  resume-Status s (r, inr (w, n)) h = (w, omega arith)

  unread-notify : (b : Mailbox A L.Queue) → unread (push_notify L b).1 ≡ unread b
  unfolding push_notify
  unread-notify b = ground arith

  unread-push : (b : Mailbox A L.Queue) (a : A) → unread (push_locked L b a) ≡ unread b ++ a ∷ []
  unfolding push_locked
  unread-push b a = rw (L.contents-push b.write a) (sym (append_assoc b.read _ _))

  -- The reader found nothing: the list that it took over is empty, and so is the one it left.
  unread-close :
      (b : Mailbox A L.Queue)
      → b.read ≡ []
      → (refill L b).read ≡ []
      → (unread (refill L b) ≡ []) × (unread b ≡ [])
  unfolding refill
  unread-close b e f = (rw (f, L.contents-clear b.write), rw (e, ← L.clear_all b.write) f)

  refill-wait : (b : Mailbox A L.Queue) → (refill L b).wait ≡ b.wait
  unfolding refill
  refill-wait b = refl

  Step-Inv : {s t : Sys L} → Step L s t → Inv s → Inv t
  Step-Inv {s} (append a ne) inv = record {
    order = rw (unread-push s.box a, inv.order) (append_assoc s.taken (unread s.box) (a ∷ []));
    status = append-Status s.reader s a ne inv.status;
  }
  Step-Inv {s} (notify h) inv = record {
    order = rw (unread-notify s.box) inv.order;
    status = notify-Status s.reader s h inv.status;
  }
  Step-Inv {s} (deliver a r e) inv =
      let took : Takes s.box (some a) (take L s.box).1 = rw e at (take-Takes s.box) in
      let idle : Status running s = rw r at inv.status in
      record {
        order =
            rw (append_assoc s.taken (a ∷ []) (unread (take L s.box).1)) (rw (← took.0) inv.order);
        status = rw r (took.1 ∙ idle.0, idle.1);
      }
  Step-Inv {s} (close r e f) inv =
      let idle : Status running s = rw r at inv.status in
      let none_left = unread-close s.box e f in
      record {
        order = rw none_left.0 (rw none_left.1 at inv.order);
        status = (refill-wait s.box ∙ idle.0, idle.1, none_left.0);
      }
  Step-Inv {s} (park r) inv =
      let idle : Status closing s = rw r at inv.status in
      let (e, f) = append-eq_nil s.box.read (L.contents s.box.write) idle.2 in
      record { order = inv.order; status = (e, inl (refl, idle.1, λ z. f)) }
  Step-Inv {s} (resume r h) inv =
      let idle : Status parked s = rw r at inv.status in
      record { order = inv.order; status = resume-Status s idle h }

  pub Reach-Inv : {s : Sys L} → Reach L s → Inv s
  Reach-Inv start = init-Inv
  Reach-Inv (later r st) = Step-Inv st (Reach-Inv r)
