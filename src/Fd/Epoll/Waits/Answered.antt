-- ===== src/Fd/Epoll/Waits/Answered.antt =====
-- What the poller of src/fd_epoll.cpp answers, and what stays registered.
use stp.Prelude.{
  ℕ, ◌/◌, ◌^◌, ◌<◌, ◌≡◌, refl, sym, subst, ◌∙◌, inl, inr, ◌⊎◌, Bool, true, false, ◌&&◌, List, [],
  ◌∷◌, All, All-mono, none, some, arith, ◌==◌, ==_refl, lt→ltb, if◌then◌else◌, Bool-cases,
  Option-cases,
}
use stp.Fd.{Event, read, write, Response}
use stp.Fd.Epoll.{segment_size, set_size, Segment, Place, poll, waited, wait_in_range}
use stp.Fd.Epoll.Flat.{Call, same_event, same_event→eq, answers, answers-waited}
use stp.Fd.Epoll.Waits.{
  EpollSet, State, set_at, pointer, batch, begin_wait, end_wait, answer, Step, begins, ends, reads,
  answers_one, begin, Reach, start, later,
}

abbrev pub Called : List Response → Response → Type 0
Called [] r = ⊥
Called (x ∷ xs) r = (r ≡ x) ⊎ Called xs r

same_event_refl : (e : Event) → same_event e e ≡ true
same_event_refl read = refl
same_event_refl write = refl

same_place :
    (fd x : ℕ) (event e : Event) → (fd == x && same_event event e) ≡ true → (fd ≡ x) × (event ≡ e)
same_place fd x event e h = (ground (arith, h), same_event→eq event e (ground (arith, h)))

module _ (ep : EpollSet) (fresh : Segment) where
  -- A wait that blocks is registered, with a pointer at which the poller finds its process and its
  -- session, and nothing else is registered.
  pub record Answered (s : State ep) : Type 0 where
    pub pending :
        (fd : ℕ) (event : Event) (caller : Response)
        → s.waits fd event ≡ some caller
        → (ep.registered s.kernel fd event ≡ some (pointer fd event))
          × (poll fresh s.table (pointer fd event) ≡ caller)
    pub clean :
        (fd : ℕ) (event : Event) → s.waits fd event ≡ none → ep.registered s.kernel fd event ≡ none
    pub flight :
        All
          (λ fi.
            (fd : ℕ) × (event : Event) × (fi ≡ pointer fd event)
            × Called s.callers (answers fresh s.table fd event))
          s.events
    pub called :
        (fd : ℕ) (event : Event) (caller : Response)
        → s.waits fd event ≡ some caller
        → Called s.callers caller
    pub answered : All (Called s.callers) s.sent

  begin-Answered : Answered (begin ep fresh)
  begin-Answered = record {
    pending = λ fd event caller e. absurd (cc e);
    clean = λ fd event e. ep.registered-nothing fd event;
    flight = tt;
    called = λ fd event caller e. absurd (cc e);
    answered = tt;
  }

  -- The state that a call of `wait` leaves.
  abbrev begun : State ep → (fd : ℕ) → Event → (pid session : ℕ) → (added : Bool) → State ep
  begun s fd event pid session added = record s {
    table = waited fresh s.table fd event pid session;
    kernel = (ep.ctl_add s.kernel fd event (pointer fd event)).1;
    waits =
        if added
        then set_at s.waits fd event (some (record { source = pid; session = session }))
        else s.waits;
    callers = record { source = pid; session = session } ∷ s.callers;
  }

  begin_wait-begun :
      (s : State ep) (fd : ℕ) (event : Event) (pid session : ℕ)
      → fd < 2 ^ 22
      → begin_wait ep fresh s fd event pid session
        ≡ some (
          (ep.ctl_add s.kernel fd event (pointer fd event)).0,
          begun s fd event pid session (ep.ctl_add s.kernel fd event (pointer fd event)).0,
        )
  unfolding begin_wait
  begin_wait-begun s fd event pid session lt =
      rw
        (
          wait_in_range fresh s.table fd event pid session
              (ep.ctl_add s.kernel fd event (pointer fd event)).0
              (lt→ltb (fd / segment_size) set_size (omega (arith, lt))),
          begin_wait,
        )
        refl

  abbrev as_call : ℕ → Event → (pid session : ℕ) → Call
  as_call fd event pid session = record {
    fd = fd;
    event = event;
    pid = pid;
    session = session;
    ctl = true;
  }

  module _ (s : State ep) (h : Answered s) (fd : ℕ) (event : Event) (pid session : ℕ) where
    -- Who is found at a place, was found there or has just called.
    begun-Called :
        (x : ℕ) (e : Event)
        → Called s.callers (answers fresh s.table x e)
        → Called
            (record { source = pid; session = session } ∷ s.callers)
            (answers fresh (waited fresh s.table fd event pid session) x e)
    begun-Called x e c =
        subst (Called (record { source = pid; session = session } ∷ s.callers))
          (sym (answers-waited fresh s.table (as_call fd event pid session) x e))
          (elim (Bool-cases (fd == x && same_event event e)) [
            | inl q ↦ rw q (inl refl)
            | inr q ↦ rw q (inr c)
          ])

    -- A wait that blocks is found where it is registered, and so is every other.
    begun-pending :
        (ep.ctl_add s.kernel fd event (pointer fd event)).0 ≡ true
        → (x : ℕ) (e : Event) (caller : Response)
        → set_at s.waits fd event (some (record { source = pid; session = session })) x e
          ≡ some caller
        → (ep.registered (ep.ctl_add s.kernel fd event (pointer fd event)).1 x e
            ≡ some (pointer x e))
          × (answers fresh (waited fresh s.table fd event pid session) x e ≡ caller)
    begun-pending added x e caller q = elim (Bool-cases (fd == x && same_event event e)) [
      | inl hit ↦
          let (there, now) = same_place fd x event e hit in
          let told : set_at s.waits fd event (some (record { source = pid; session = session })) x e
              ≡ some (record { source = pid; session = session }) =
            rw hit refl in
          let same : record { source = pid; session = session } ≡ caller = cc (told, q) in
          (
            ep.ctl_add-true s.kernel fd event (pointer fd event) added x e
                ∙ rw hit (rw (there, now) refl),
            answers-waited fresh s.table (as_call fd event pid session) x e ∙ rw hit same,
          )
      | inr miss ↦
          let old : s.waits x e ≡ some caller =
            (let m : set_at s.waits fd event (some (record { source = pid; session = session })) x e
                  ≡ s.waits x e =
                rw miss refl in
              sym m ∙ q) in
          (
            ep.ctl_add-true s.kernel fd event (pointer fd event) added x e
                ∙ rw miss (h.pending x e caller old).0,
            answers-waited fresh s.table (as_call fd event pid session) x e
                ∙ rw miss (h.pending x e caller old).1,
          )
    ]

    begun-Answered :
        s.waits fd event ≡ none
        → (added : Bool) → (ep.ctl_add s.kernel fd event (pointer fd event)).0 ≡ added
        → Answered (begun s fd event pid session added)
    begun-Answered free true e = record {
      pending = begun-pending e;
      clean = λ x v. elim (Bool-cases (fd == x && same_event event v)) [
        | inl hit ↦ rw hit (λ q. absurd (cc q))
        | inr miss ↦ rw miss (λ q.
            ep.ctl_add-true s.kernel fd event (pointer fd event) e x v ∙ rw miss (h.clean x v q))
      ];
      flight = All-mono _ _ (λ fi (x, v, at, c). (x, v, at, begun-Called x v c)) s.events h.flight;
      called = λ x v caller. elim (Bool-cases (fd == x && same_event event v)) [
        | inl hit ↦ rw hit (λ q. inl (cc q))
        | inr miss ↦ rw miss (λ q. inr (h.called x v caller q))
      ];
      answered = All-mono _ _ (λ r c. inr c) s.sent h.answered;
    }
    begun-Answered free false e = record {
      pending = λ x v caller. elim (Bool-cases (fd == x && same_event event v)) [
        | inl hit ↦ λ q. absurd (
            let (there, now) = same_place fd x event v hit in
            cc (
              subst (λ y. s.waits y v ≡ none) there (subst (λ y. s.waits fd y ≡ none) now free),
              q,
            ))
        | inr miss ↦ λ q. (
          ep.ctl_add-false s.kernel fd event (pointer fd event) e x v ∙ (h.pending x v caller q).0,
          answers-waited fresh s.table (as_call fd event pid session) x v
              ∙ rw miss (h.pending x v caller q).1,
        )
      ];
      clean = λ x v q. ep.ctl_add-false s.kernel fd event (pointer fd event) e x v ∙ h.clean x v q;
      flight = All-mono _ _ (λ fi (x, v, at, c). (x, v, at, begun-Called x v c)) s.events h.flight;
      called = λ x v caller q. inr (h.called x v caller q);
      answered = All-mono _ _ (λ r c. inr c) s.sent h.answered;
    }

  -- The state that the end of a wait leaves.
  abbrev ended : State ep → (fd : ℕ) → Event → State ep
  ended s fd event = record s {
    kernel = (ep.ctl_del s.kernel fd event).1;
    waits = set_at s.waits fd event none;
  }

  module _ (s : State ep) (h : Answered s) (fd : ℕ) (event : Event) (caller : Response)
      (blocked : s.waits fd event ≡ some caller) where
    deleted : (ep.ctl_del s.kernel fd event).0 ≡ true
    deleted =
        ep.ctl_del-registered s.kernel fd event (pointer fd event)
          (h.pending fd event caller blocked).0

    pub end_wait-ended : end_wait ep fresh s fd event ≡ some (ended s fd event)
    unfolding end_wait
    end_wait-ended = rw (deleted, end_wait) refl

    ended-Answered : Answered (ended s fd event)
    ended-Answered = record {
      pending = λ x v c. elim (Bool-cases (fd == x && same_event event v)) [
        | inl hit ↦ rw hit (λ q. absurd (cc q))
        | inr miss ↦ rw miss (λ q. (
          ep.ctl_del-true s.kernel fd event deleted x v ∙ rw miss (h.pending x v c q).0,
          (h.pending x v c q).1,
        ))
      ];
      clean = λ x v. elim (Bool-cases (fd == x && same_event event v)) [
        | inl hit ↦ rw hit (λ q. ep.ctl_del-true s.kernel fd event deleted x v ∙ rw hit refl)
        | inr miss ↦
            rw miss (λ q. ep.ctl_del-true s.kernel fd event deleted x v ∙ rw miss (h.clean x v q))
      ];
      flight = h.flight;
      called = λ x v c. elim (Bool-cases (fd == x && same_event event v)) [
        | inl hit ↦ rw hit (λ q. absurd (cc q))
        | inr miss ↦ rw miss (λ q. h.called x v c q)
      ];
      answered = h.answered;
    }

  -- What is registered is the pointer of a wait that blocks.
  registered-flight :
      (s : State ep) (h : Answered s) (fi : Place)
      → (fd : ℕ) × (event : Event) × (ep.registered s.kernel fd event ≡ some fi)
      → (fd : ℕ) × (event : Event) × (fi ≡ pointer fd event)
        × Called s.callers (answers fresh s.table fd event)
  registered-flight s h fi (fd, event, e) = elim (Option-cases (s.waits fd event)) [
    | inl q ↦
        absurd (let n : ep.registered s.kernel fd event ≡ none = h.clean fd event q in cc (n, e))
    | inr (caller, q) ↦
        let (there, found) = h.pending fd event caller q in
        (
          fd,
          event,
          cc (there, e),
          subst (Called s.callers) (sym found) (h.called fd event caller q),
        )
  ]

  answer-Answered : (s : State ep) → Answered s → Answered (answer ep fresh s)
  unfolding answer
  answer-Answered s h = by_events s.events refl h.flight
    where
      by_events :
          (events : List Place)
          → s.events ≡ events
          → All
              (λ fi.
                (fd : ℕ) × (event : Event) × (fi ≡ pointer fd event)
                × Called s.callers (answers fresh s.table fd event))
              events
          → Answered (answer ep fresh s)
      by_events [] e f = rw (e, answer) h
      by_events (fi ∷ events) e ((fd, event, at, c), f) =
          rw (e, answer)
            (record {
              pending = h.pending;
              clean = h.clean;
              flight = f;
              called = h.called;
              answered =
                  (subst (λ x. Called s.callers (poll fresh s.table x)) (sym at) c, h.answered);
            })

  Step-Answered : {s t : State ep} → Answered s → Step ep fresh s t → Answered t
  Step-Answered {s} {t} h (begins fd event pid session blocks s' lt free e) =
      let added : Bool = (ep.ctl_add s.kernel fd event (pointer fd event)).0 in
      let same : begun s fd event pid session added ≡ t =
        cc (begin_wait-begun s fd event pid session lt, e) in
      subst Answered same (begun-Answered s h fd event pid session free added refl)
  Step-Answered {s} {t} h (ends fd event caller s' blocked e) =
      let same : ended s fd event ≡ t = cc (end_wait-ended s h fd event caller blocked, e) in
      subst Answered same (ended-Answered s h fd event caller blocked)
  Step-Answered {s} h (reads outcome over all) = record {
    pending = h.pending;
    clean = h.clean;
    flight = All-mono _ _ (registered-flight s h) (batch outcome) all;
    called = h.called;
    answered = h.answered;
  }
  Step-Answered {s} h answers_one = answer-Answered s h

  pub Reach-Answered : {s : State ep} → Reach ep fresh s → Answered s
  Reach-Answered start = begin-Answered
  Reach-Answered (later r step) = Step-Answered (Reach-Answered r) step

  -- Where nobody waits twice for the same event of a descriptor, and descriptors are below 2^22: in every
  -- reachable state a wait that blocks is registered with a pointer at which the poller finds its process
  -- and its session, and its scope ends without an error and leaves nothing registered for its
  -- descriptor and event.
  pub Reach-end_wait :
      {s : State ep} (fd : ℕ) (event : Event) (caller : Response)
      → Reach ep fresh s
      → s.waits fd event ≡ some caller
      → (s' : State ep) × (ep.registered s.kernel fd event ≡ some (pointer fd event))
        × (poll fresh s.table (pointer fd event) ≡ caller)
        × (end_wait ep fresh s fd event ≡ some s')
        × (ep.registered s'.kernel fd event ≡ none)
  Reach-end_wait {s} fd event caller r q =
      let h : Answered s = Reach-Answered r in
      let (there, found) = h.pending fd event caller q in
      (
        ended s fd event,
        there,
        found,
        end_wait-ended s h fd event caller q,
        (ended-Answered s h fd event caller q).clean fd event
            (rw (==_refl fd, same_event_refl event) refl),
      )

  -- In every reachable state whatever the poller has answered was the process and the session of a call
  -- of `wait`.
  pub Reach-answered : {s : State ep} → Reach ep fresh s → All (Called s.callers) s.sent
  Reach-answered r = (Reach-Answered r).answered
