-- ===== src/Fd/Epoll/Waits/Examples.antt =====
-- The theorems on waits where epoll is a map: a wait for reading and one for writing, an event of the first,
-- which the poller answers, and the end of its scope.
use stp.Prelude.{ℕ, ◌≡◌, refl, Bool, true, false, [], ◌∷◌, Option, none, some, arith}
use stp.Fd.{Event, read, write, backwards}
use stp.Fd.Epoll.{Segment, Place, select_filter, load_segment, set_mode, store_filter, wait, poll}
use stp.Fd.Epoll.Waits.{
  EpollSet, State, set_at, pointer, batch, begin_wait, end_wait, answer, Step, begins, reads,
  answers_one, begin, Reach, start, later,
}
use stp.Fd.Epoll.Waits.Answered.{Reach-end_wait}

abbrev Map : Type 0
Map = ℕ → Event → Option Place

abbrev add_to : Option Place → Map → ℕ → Event → Place → Bool × Map
add_to none k fd event p = (true, set_at k fd event (some p))
add_to (some q) k fd event p = (false, k)

abbrev del_from : Option Place → Map → ℕ → Event → Bool × Map
del_from none k fd event = (false, k)
del_from (some q) k fd event = (true, set_at k fd event none)

add_to-true :
    (o : Option Place) (k : Map) (fd : ℕ) (event : Event) (p : Place)
    → (add_to o k fd event p).0 ≡ true
    → (x : ℕ) (e : Event) → (add_to o k fd event p).1 x e ≡ set_at k fd event (some p) x e
add_to-true none k fd event p h x e = refl
add_to-true (some q) k fd event p h x e = absurd (cc h)

add_to-false :
    (o : Option Place) (k : Map) (fd : ℕ) (event : Event) (p : Place)
    → (add_to o k fd event p).0 ≡ false
    → (x : ℕ) (e : Event) → (add_to o k fd event p).1 x e ≡ k x e
add_to-false none k fd event p h x e = absurd (cc h)
add_to-false (some q) k fd event p h x e = refl

del_from-true :
    (o : Option Place) (k : Map) (fd : ℕ) (event : Event)
    → (del_from o k fd event).0 ≡ true
    → (x : ℕ) (e : Event) → (del_from o k fd event).1 x e ≡ set_at k fd event none x e
del_from-true none k fd event h x e = absurd (cc h)
del_from-true (some q) k fd event h x e = refl

abbrev maps : EpollSet
maps = record {
  Kernel = Map;
  nothing = λ fd event. none;
  ctl_add = λ k fd event p. add_to (k fd event) k fd event p;
  ctl_del = λ k fd event. del_from (k fd event) k fd event;
  registered = λ k fd event. k fd event;
  registered-nothing = λ fd event. refl;
  ctl_add-true = λ k fd event p. add_to-true (k fd event) k fd event p;
  ctl_add-false = λ k fd event p. add_to-false (k fd event) k fd event p;
  ctl_del-registered = λ k fd event p h. rw h refl;
  ctl_del-true = λ k fd event. del_from-true (k fd event) k fd event;
}

abbrev garbage : Segment
garbage i m = record { source = 77; session = 78 }

record Run : Type 0 where
  state : State maps
  reached : Reach maps garbage state

abbrev go : (r : Run) {s : State maps} → Step maps garbage r.state s → Run
go r {s} step = record { state = s; reached = later r.reached step }

abbrev blocked : Run
unfolding begin_wait wait select_filter load_segment set_mode store_filter batch backwards answer
blocked =
    go
      (go
        (go
          (go (record { state = begin maps garbage; reached = start })
            (begins 20000 read 3 4 true _ (omega arith) refl refl))
          (begins 20000 write 5 6 true _ (omega arith) refl refl))
        (reads (some (pointer 20000 read ∷ [])) refl ((20000, read, refl), tt)))
      answers_one

Reach-end_wait_example :
    (s' : State maps) × (blocked.state.kernel 20000 read ≡ some (pointer 20000 read))
    × (poll garbage blocked.state.table (pointer 20000 read) ≡ record { source = 3; session = 4 })
    × (end_wait maps garbage blocked.state 20000 read ≡ some s')
    × (s'.kernel 20000 read ≡ none)
unfolding blocked
Reach-end_wait_example =
    Reach-end_wait maps garbage 20000 read (record { source = 3; session = 4 }) blocked.reached refl
