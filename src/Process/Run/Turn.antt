-- ===== src/Process/Run/Turn.antt =====
-- A whole turn of a process of src/process.cpp, from `dispatch` to the message that is handled.
use stp.Prelude.{
  ℕ, zero, suc, ◌≡◌, refl, subst, inl, inr, Bool, true, false, List, Option, some, arith,
  Option-cases, Bool-cases,
}
use stp.Message.{Message, MessageType, notify, request, response, type_of_message}
use stp.Coroutine.{Content, Try}
use stp.Process.{Process, Action, Stop, serve_request, sweep_zombies, exit}
use stp.Process.Places.{places, Same}
use stp.Process.Conserve.{Once, Keeps, Keeps-trans, Same-Keeps, Behaves}
use stp.Process.Run.{
  ResumeResult, is_ready, handle_response, is_kill, receive, wake_inbox, run_spawned, run_woken,
  run_round, run, dispatch, handle, resume_process,
}
use stp.Process.Run.Whole.{
  sweep_zombies-Keeps, wake_inbox-Same, handle_response-Same, run_spawned-Keeps, run_woken-Keeps,
  exit-Keeps,
}

module _ {Value : Type 0} where
  receive-Same : (p : Process Value) (msg : Message (Content Value)) → Same p (receive p msg)
  unfolding places
  receive-Same p msg = record { count = λ c. omega arith; freed = refl }

  serve_request-Same :
      (p : Process Value) (source session : ℕ) → Same p (serve_request p source session)
  unfolding places serve_request
  serve_request-Same p source session = record { count = λ c. omega arith; freed = refl }

module _ {Value : Type 0} (body : ℕ → Try (Content Value) → Process Value → List Action × Stop)
    (behaves : Behaves body) where
  run_round-Keeps :
      (fuel : ℕ) (p q : Process Value) (throws : Bool)
      → Once p
      → run_round body fuel p ≡ some (q, throws)
      → Keeps p q
  unfolding run_round
  run_round-Keeps fuel p q throws once e =
      elim (Option-cases (run_spawned body fuel p p.spawn_coroutines)) [
        | inl n ↦ absurd (ground (arith, n, e))
        | inr ((r, true), s) ↦
            let same : r ≡ q = ground (arith, s, e) in subst (Keeps p) same (spawned r true s)
        | inr ((r, false), s) ↦
            let k = spawned r false s in
            elim (Option-cases (run_woken body fuel r r.wakeup_coroutines)) [
              | inl n ↦ absurd (ground (arith, s, n, e))
              | inr ((x, true), t) ↦
                  let same : x ≡ q = ground (arith, s, t, e) in
                  subst (Keeps p) same (
                    Keeps-trans k (
                      run_woken-Keeps body behaves fuel r.wakeup_coroutines r x true refl k.once t))
              | inr ((x, false), t) ↦
                  let l =
                    run_woken-Keeps body behaves fuel r.wakeup_coroutines r x false refl k.once t in
                  let same : wake_inbox x ≡ q = ground (arith, s, t, e) in
                  subst (Keeps p) same
                    (Keeps-trans k (Keeps-trans l (Same-Keeps l.once (wake_inbox-Same x))))
            ]
      ]
    where
      spawned :
          (r : Process Value) (b : Bool)
          → run_spawned body fuel p p.spawn_coroutines ≡ some (r, b)
          → Keeps p r
      spawned r b s = run_spawned-Keeps body behaves fuel p.spawn_coroutines p r b refl once s

  run-Keeps :
      (fuel : ℕ) (p q : Process Value) (throws : Bool)
      → Once p
      → run body fuel p ≡ some (q, throws)
      → Keeps p q
  unfolding run
  run-Keeps zero p q throws once e = cc
  run-Keeps (suc fuel) p q throws once e =
      by_ready (is_ready p) refl (λ r. run-Keeps fuel r q throws)
    where
      by_ready :
          (b : Bool)
          → is_ready p ≡ b
          → ((r : Process Value) → Once r → run body fuel r ≡ some (q, throws) → Keeps r q)
          → Keeps p q
      by_ready false b again =
          let same : sweep_zombies p ≡ q = ground (arith, b, e) in
          subst (Keeps p) same (sweep_zombies-Keeps p once)
      by_ready true b again = elim (Option-cases (run_round body fuel p)) [
        | inl n ↦ absurd (ground (arith, b, n, e))
        | inr ((r, true), s) ↦
            let same : r ≡ q = ground (arith, b, s, e) in
            subst (Keeps p) same (run_round-Keeps fuel p r true once s)
        | inr ((r, false), s) ↦
            let k = run_round-Keeps fuel p r false once s in
            Keeps-trans k (again r k.once (ground (arith, b, s, e)))
      ]

  dispatch-Keeps :
      (fuel : ℕ) (p q : Process Value) (goes_on : Bool)
      → Once p
      → dispatch body fuel p ≡ some (q, goes_on)
      → Keeps p q
  unfolding dispatch
  dispatch-Keeps fuel p q goes_on once e = elim (Option-cases (run body fuel p)) [
    | inl n ↦ absurd (ground (arith, n, e))
    | inr ((r, false), s) ↦
        let same : r ≡ q = ground (arith, s, e) in
        subst (Keeps p) same (run-Keeps fuel p r false once s)
    | inr ((r, true), s) ↦
        let k = run-Keeps fuel p r true once s in
        elim (Option-cases (exit body fuel r)) [
          | inl n ↦ absurd (ground (arith, s, n, e))
          | inr (x, d) ↦
              let same : x ≡ q = ground (arith, s, d, e) in
              subst (Keeps p) same (Keeps-trans k (exit-Keeps body behaves fuel r x k.once d))
        ]
  ]

  handle-Keeps :
      (fuel : ℕ) (p q : Process Value) (msg : Message (Content Value)) (result : ResumeResult)
      → Once p
      → handle body fuel p msg ≡ some (q, result)
      → Keeps p q
  unfolding handle
  handle-Keeps fuel p q msg result once e = by_type (type_of_message msg) refl
    where
      by_type : (t : MessageType) → type_of_message msg ≡ t → Keeps p q
      by_type request t =
          let s = serve_request-Same p msg.source msg.session in
          let k = Same-Keeps once s in
          let same : receive (serve_request p msg.source msg.session) msg ≡ q =
            ground (arith, t, e) in
          subst (Keeps p) same (
            Keeps-trans k
              (Same-Keeps k.once (receive-Same (serve_request p msg.source msg.session) msg)))
      by_type response t =
          let same : handle_response p msg ≡ q = ground (arith, t, e) in
          subst (Keeps p) same (Same-Keeps once (handle_response-Same p msg))
      by_type notify t = elim (Bool-cases (is_kill msg.content)) [
        | inr h ↦
            let same : receive p msg ≡ q = ground (arith, t, h, e) in
            subst (Keeps p) same (Same-Keeps once (receive-Same p msg))
        | inl h ↦ elim (Option-cases (exit body fuel p)) [
          | inl n ↦ absurd (ground (arith, t, h, n, e))
          | inr (x, d) ↦
              let same : x ≡ q = ground (arith, t, h, d, e) in
              subst (Keeps p) same (exit-Keeps body behaves fuel p x once d)
        ]
      ]

  -- One turn of a process whose coroutines end when they are told of an exception, block on sessions
  -- of their own and spawn new coroutines, and which has no coroutine in two places: none is in two
  -- places afterwards, and each is still in its place or was destroyed, so that none is lost.
  pub resume_process-Keeps :
      (fuel : ℕ) (p q : Process Value) (taken : Option (Message (Content Value)))
      (result : ResumeResult)
      → Once p
      → resume_process body fuel p taken ≡ some (q, result)
      → Keeps p q
  unfolding resume_process
  resume_process-Keeps fuel p q taken result once e = elim (Option-cases (dispatch body fuel p)) [
    | inl n ↦ absurd (ground (arith, n, e))
    | inr ((r, false), s) ↦
        let same : r ≡ q = ground (arith, s, e) in
        subst (Keeps p) same (dispatch-Keeps fuel p r false once s)
    | inr ((r, true), s) ↦
        let k = dispatch-Keeps fuel p r true once s in
        elim (Option-cases taken) [
          | inl n ↦ let same : r ≡ q = ground (arith, s, n, e) in subst (Keeps p) same k
          | inr (msg, t) ↦
              Keeps-trans k (handle-Keeps fuel r q msg result k.once (ground (arith, s, t, e)))
        ]
  ]
