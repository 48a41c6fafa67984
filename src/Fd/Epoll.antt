-- ===== src/Fd/Epoll.antt =====
-- src/fd_epoll.cpp: the table of filters, what `wait` leaves in it, and what the poller reads.
--
-- A pointer to a filter is its place in the table. A segment is allocated without a constructor: its
-- first contents are the parameter `fresh`. The outcome of epoll_ctl is an argument.
pub mod Flat
pub mod Waits
pub mod Segments
use stp.Prelude.{
  ap, subst, ◌∙◌, ◌^◌, sym, ==→eq, lt→ltb, ℕ, ◌/◌, ◌%◌, ◌<◌, ◌≡◌, ◌≢◌, ◌⊎◌, refl, inl, inr, Bool,
  true, false, Option, none, some, arith, ltb, ◌==◌, if◌then◌else◌, update,
}
use stp.Fd.{Event, read, write, Response}

pub record Filter : Type 0 where
  pub source : ℕ
  pub session : ℕ

abbrev pub segment_size : ℕ
segment_size = 16384

abbrev pub set_size : ℕ
set_size = 256

abbrev pub Segment : Type 0
Segment = ℕ → Event → Filter

pub record Place : Type 0 where
  pub segment : ℕ
  pub index : ℕ
  pub mode : Event

abbrev pub place : ℕ → ℕ → Event → Place
place i a m = record { segment = i; index = a; mode = m }

abbrev pub Fdset : Type 0
Fdset = ℕ → Option Segment

-- `filters[mode]` of one descriptor, written.
pub set_mode : (Event → Filter) → Event → Filter → Event → Filter
set_mode f read x read = x
set_mode f read x write = f write
set_mode f write x read = f read
set_mode f write x write = x

update_same : {A : Type 0} (f : ℕ → A) (i : ℕ) (x : A) → update f i x i ≡ x
update_same f i x = ground arith

update_other : {A : Type 0} (f : ℕ → A) (i j : ℕ) (x : A) → j ≢ i → update f i x j ≡ f j
update_other f i j x ne = ground arith

set_mode_same : (f : Event → Filter) (m : Event) (x : Filter) → set_mode f m x m ≡ x
unfolding set_mode
set_mode_same f read x = refl
set_mode_same f write x = refl

set_mode_other : (f : Event → Filter) (m n : Event) (x : Filter) → n ≢ m → set_mode f m x n ≡ f n
unfolding set_mode
set_mode_other f read read x ne = absurd (ne refl)
set_mode_other f read write x ne = refl
set_mode_other f write read x ne = refl
set_mode_other f write write x ne = absurd (ne refl)

module _ (fresh : Segment) where
  -- `segments[index]`, with a new segment where there is none.
  pub load_segment : Fdset → ℕ → Segment
  load_segment set i = elim (set i) [ some s ↦ s | none ↦ fresh ]

  -- `none` is the failed assertion.
  pub select_filter : Fdset → (fd : ℕ) → Event → Option (Place × Fdset)
  select_filter set fd event =
      let i : ℕ = fd / segment_size in
      if ltb i set_size
      then some (place i (fd % segment_size) event, update set i (some (load_segment set i)))
      else none

  -- `*fi`, by the thread of the poller.
  pub load_filter : Fdset → Place → Filter
  load_filter set p = load_segment set p.segment p.index p.mode

  -- `*fi = f`.
  pub store_filter : Fdset → Place → Filter → Fdset
  store_filter set p f =
      let s : Segment = load_segment set p.segment in
      update set p.segment (some (update s p.index (set_mode (s p.index) p.mode f)))

  -- What `wait` does before it blocks: the pointer that epoll_ctl was given and whether it took it.
  pub wait :
      Fdset → (fd : ℕ) → Event → (pid session : ℕ) → (ctl : Bool) → Option (Place × Bool × Fdset)
  wait set fd event pid session ctl = elim (select_filter set fd event) [
    | none ↦ none
    | some (place, set') ↦
        some (place, ctl, store_filter set' place (record { source = pid; session = session }))
  ]

  -- An event of `_epoll_poll` with this pointer.
  pub poll : Fdset → Place → Response
  poll set p = record { source = (load_filter set p).source; session = (load_filter set p).session }

  load_segment_same :
      (set : Fdset) (i : ℕ) (s : Segment) → load_segment (update set i (some s)) i ≡ s
  unfolding load_segment
  load_segment_same set i s = rw (update_same set i (some s), load_segment) refl

  load_segment_other :
      (set : Fdset) (i j : ℕ) (s : Segment)
      → j ≢ i
      → load_segment (update set i (some s)) j ≡ load_segment set j
  unfolding load_segment
  load_segment_other set i j s ne = rw (update_other set i j (some s) ne, load_segment) refl

  load_filter-store_filter :
      (set : Fdset) (p : Place) (f : Filter) → load_filter (store_filter set p f) p ≡ f
  unfolding load_filter store_filter
  load_filter-store_filter set p f =
      let s : Segment = load_segment set p.segment in
      let s' : Segment = update s p.index (set_mode (s p.index) p.mode f) in
      ap (λ (t : Segment). t p.index p.mode) (load_segment_same set p.segment s')
      ∙ ap (λ (g : Event → Filter). g p.mode)
          (update_same s p.index (set_mode (s p.index) p.mode f))
      ∙ set_mode_same (s p.index) p.mode f

  -- A filter at another place is as it was.
  load_filter-store_filter_other :
      (set : Fdset) (i a j b : ℕ) (m n : Event) (f : Filter)
      → (j ≢ i) ⊎ ((j ≡ i) × ((b ≢ a) ⊎ (n ≢ m)))
      → load_filter (store_filter set (place i a m) f) (place j b n) ≡ load_filter set (place j b n)
  unfolding load_filter store_filter
  load_filter-store_filter_other set i a j b m n f (inl ne) =
      ap (λ (t : Segment). t b n)
        (load_segment_other set i j
          (update (load_segment set i) a (set_mode (load_segment set i a) m f)) ne)
  load_filter-store_filter_other set i a j b m n f (inr (e, h)) =
      let s : Segment = load_segment set i in
      subst
        (λ k.
          load_filter (store_filter set (place i a m) f) (place k b n)
          ≡ load_filter set (place k b n))
        (sym e)
        (ap (λ (t : Segment). t b n) (load_segment_same set i (update s a (set_mode (s a) m f)))
          ∙ inside s h)
    where
      inside : (s : Segment) → (b ≢ a) ⊎ (n ≢ m) → update s a (set_mode (s a) m f) b n ≡ s b n
      inside s (inl ne) =
          ap (λ (g : Event → Filter). g n) (update_other s a b (set_mode (s a) m f) ne)
      inside s (inr ne) = by_index (b == a) refl
        where
          by_index : (t : Bool) → (b == a) ≡ t → update s a (set_mode (s a) m f) b n ≡ s b n
          by_index true k =
              subst (λ c. update s a (set_mode (s a) m f) c n ≡ s c n) (sym (==→eq b a k))
                (ap (λ (g : Event → Filter). g n) (update_same s a (set_mode (s a) m f))
                  ∙ set_mode_other (s a) m n f ne)
          by_index false k =
              ap (λ (g : Event → Filter). g n)
                (update_other s a b (set_mode (s a) m f) (λ h. ground arith))

  -- A segment that is allocated looks as if it had been there.
  alloc_same :
      (set : Fdset) (i : ℕ) (q : Place)
      → load_filter (update set i (some (load_segment set i))) q ≡ load_filter set q
  unfolding load_filter
  alloc_same set i q = ap (λ (t : Segment). t q.index q.mode) (by_place (q.segment == i) refl)
    where
      by_place :
          (b : Bool)
          → (q.segment == i) ≡ b
          → load_segment (update set i (some (load_segment set i))) q.segment
            ≡ load_segment set q.segment
      by_place true e =
          subst
            (λ k. load_segment (update set i (some (load_segment set i))) k ≡ load_segment set k)
            (sym (==→eq q.segment i e)) (load_segment_same set i (load_segment set i))
      by_place false e = load_segment_other set i q.segment (load_segment set i) (λ h. ground arith)

  -- The table after a call of `wait`.
  pub waited : Fdset → (fd : ℕ) → Event → (pid session : ℕ) → Fdset
  waited set fd event pid session =
      store_filter (update set (fd / segment_size) (some (load_segment set (fd / segment_size))))
        (place (fd / segment_size) (fd % segment_size) event)
        (record { source = pid; session = session })

  pub poll-waited :
      (set : Fdset) (fd : ℕ) (event : Event) (pid session : ℕ)
      → poll (waited set fd event pid session) (place (fd / segment_size) (fd % segment_size) event)
        ≡ record { source = pid; session = session }
  unfolding poll waited
  poll-waited set fd event pid session =
      ap (λ (f : Filter). record { source = f.source; session = f.session })
        (load_filter-store_filter
          (update set (fd / segment_size) (some (load_segment set (fd / segment_size))))
          (place (fd / segment_size) (fd % segment_size) event)
          (record { source = pid; session = session }))

  pub wait_in_range :
      (set : Fdset) (fd : ℕ) (event : Event) (pid session : ℕ) (ctl : Bool)
      → ltb (fd / segment_size) set_size ≡ true
      → wait set fd event pid session ctl
        ≡ some (
          place (fd / segment_size) (fd % segment_size) event,
          ctl,
          waited set fd event pid session,
        )
  unfolding wait select_filter waited
  wait_in_range set fd event pid session ctl h = rw (h, select_filter, wait) refl

  -- A call of `wait` for a descriptor below 2^22 meets no failed assertion, and an event with its
  -- pointer is answered to the process and the session of this call.
  pub wait-poll :
      (set : Fdset) (fd : ℕ) (event : Event) (pid session : ℕ) (ctl : Bool)
      → fd < 2 ^ 22
      → (p : Place) × (set' : Fdset) × (wait set fd event pid session ctl ≡ some (p, ctl, set'))
        × (poll set' p ≡ record { source = pid; session = session })
  wait-poll set fd event pid session ctl h = (
    place (fd / segment_size) (fd % segment_size) event,
    waited set fd event pid session,
    wait_in_range set fd event pid session ctl (lt→ltb (fd / segment_size) set_size (omega arith)),
    poll-waited set fd event pid session,
  )

  pub poll-waited_other :
      (set : Fdset) (fd fd2 : ℕ) (event event2 : Event) (pid session : ℕ)
      → (fd2 ≢ fd) ⊎ (event2 ≢ event)
      → poll
          (waited set fd2 event2 pid session)
          (place (fd / segment_size) (fd % segment_size) event)
        ≡ poll set (place (fd / segment_size) (fd % segment_size) event)
  unfolding poll waited
  poll-waited_other set fd fd2 event event2 pid session ne =
      ap (λ (f : Filter). record { source = f.source; session = f.session })
        (load_filter-store_filter_other
            (update set (fd2 / segment_size) (some (load_segment set (fd2 / segment_size))))
            (fd2 / segment_size) (fd2 % segment_size) (fd / segment_size) (fd % segment_size) event2
            event (record { source = pid; session = session })
            (apart (fd / segment_size == fd2 / segment_size) refl ne)
          ∙ alloc_same set (fd2 / segment_size)
              (place (fd / segment_size) (fd % segment_size) event))
    where
      apart :
          (t : Bool)
          → (fd / segment_size == fd2 / segment_size) ≡ t
          → (fd2 ≢ fd) ⊎ (event2 ≢ event)
          → (fd / segment_size ≢ fd2 / segment_size)
            ⊎ ((fd / segment_size ≡ fd2 / segment_size)
                × ((fd % segment_size ≢ fd2 % segment_size) ⊎ (event ≢ event2)))
      apart false e h = inl (λ k. ground arith)
      apart true e (inl h) = inr (
        ==→eq (fd / segment_size) (fd2 / segment_size) e,
        inl (λ k. h (omega (arith, ==→eq (fd / segment_size) (fd2 / segment_size) e, k))),
      )
      apart true e (inr h) =
          inr (==→eq (fd / segment_size) (fd2 / segment_size) e, inr (λ k. h (sym k)))

  -- Two calls of `wait`, of which the second is for another descriptor or another event: an event
  -- with the pointer of the first is still answered to the process and the session of the first.
  pub wait-poll_other :
      (set : Fdset) (fd fd2 : ℕ) (event event2 : Event) (pid session pid2 session2 : ℕ)
      (ctl ctl2 : Bool)
      → fd < 2 ^ 22
      → fd2 < 2 ^ 22
      → (fd2 ≢ fd) ⊎ (event2 ≢ event)
      → (p : Place) × (p2 : Place) × (set' : Fdset) × (set2 : Fdset) × (wait set fd event pid
            session ctl
          ≡ some (p, ctl, set'))
        × (wait set' fd2 event2 pid2 session2 ctl2 ≡ some (p2, ctl2, set2))
        × (poll set2 p ≡ record { source = pid; session = session })
  wait-poll_other set fd fd2 event event2 pid session pid2 session2 ctl ctl2 h h2 ne =
      let first : Fdset = waited set fd event pid session in
      (
        place (fd / segment_size) (fd % segment_size) event,
        place (fd2 / segment_size) (fd2 % segment_size) event2,
        first,
        waited first fd2 event2 pid2 session2,
        wait_in_range set fd event pid session ctl
            (lt→ltb (fd / segment_size) set_size (omega arith)),
        wait_in_range first fd2 event2 pid2 session2 ctl2
            (lt→ltb (fd2 / segment_size) set_size (omega arith)),
        poll-waited_other first fd fd2 event event2 pid2 session2 ne
            ∙ poll-waited set fd event pid session,
      )

  -- Two calls of `wait` for the same event of the same descriptor: whatever epoll_ctl says to the
  -- second one, an event with the pointer of the first is answered to the session of the second.
  pub wait-poll_same :
      (set : Fdset) (fd : ℕ) (event : Event) (pid session pid2 session2 : ℕ) (ctl ctl2 : Bool)
      → fd < 2 ^ 22
      → (p : Place) × (set' : Fdset) × (set2 : Fdset) × (wait set fd event pid session ctl
          ≡ some (p, ctl, set'))
        × (wait set' fd event pid2 session2 ctl2 ≡ some (p, ctl2, set2))
        × (poll set2 p ≡ record { source = pid2; session = session2 })
  wait-poll_same set fd event pid session pid2 session2 ctl ctl2 h =
      let first : Fdset = waited set fd event pid session in
      let in_range = lt→ltb (fd / segment_size) set_size (omega arith) in
      (
        place (fd / segment_size) (fd % segment_size) event,
        first,
        waited first fd event pid2 session2,
        wait_in_range set fd event pid session ctl in_range,
        wait_in_range first fd event pid2 session2 ctl2 in_range,
        poll-waited first fd event pid2 session2,
      )
