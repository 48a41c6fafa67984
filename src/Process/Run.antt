-- ===== src/Process/Run.antt =====
-- `run`, `dispatch` and `resume` of `class Process` of src/process.cpp: a worker runs the coroutines
-- that are ready, then takes one message out of the mailbox.
--
-- The message is what `_mailbox.take()` returned. The loops run on fuel, since the coroutines may
-- wake each other for ever.
pub mod Whole
pub mod Turn
mod Examples
use stp.Dict.{find, assign, erase, find-assign}
use stp.Prelude.{
  ℕ, zero, suc, ◌≡◌, ◌^◌, ◌<◌, refl, ap, ◌∙◌, Bool, true, false, not, ◌&&◌, ◌||◌, List, [], ◌∷◌,
  ◌++◌, Option, none, some, arith, if◌then◌else◌,
}
use stp.Message.{
  Message, notify, request, response, session_for_response, type_of_session, type_of_message,
  session_for_response-request,
}
use stp.Coroutine.{Content, kill_process, exception, user, set_value, get_value, Try, returned}
use stp.Process.{
  Process, Action, Stop, blocks, set_result_of, throw_in, wakeup, unblock, serve_request,
  sweep_zombies, resume, exit, stop,
}

pub data ResumeResult : Type 0 where
  k_resume k_down k_break : ResumeResult

pub is_empty : {A : Type 0} → List A → Bool
is_empty [] = true
is_empty (x ∷ xs) = false

pub is_some : Option ℕ → Bool
is_some none = false
is_some (some co) = true

module _ {Value : Type 0} where
  -- `co->set_result(v)`.
  pub answer : Process Value → ℕ → Content Value → Process Value
  answer p co (exception e) = throw_in p co e
  answer p co v = set_result_of p co (set_value (p.coroutines co).result v)

  -- The case of a response, with what `unblock` returned.
  pub answer_unblocked : Option ℕ × Process Value → Content Value → Process Value
  answer_unblocked (none, p) v = p
  answer_unblocked (some co, p) v = record (answer p co v) {
    wakeup_coroutines = p.wakeup_coroutines ++ co ∷ [];
  }

  pub handle_response : Process Value → Message (Content Value) → Process Value
  handle_response p msg =
      answer_unblocked (unblock p (session_for_response msg.session)) msg.content

  pub is_kill : Content Value → Bool
  is_kill kill_process = true
  is_kill _ = false

  abbrev pub receive : Process Value → Message (Content Value) → Process Value
  receive p msg = record p { inbox = p.inbox ++ msg ∷ [] }

  -- What the loop of `run` does behind its inner loops: the coroutine that serves the inbox is woken.
  pub wake_inbox : Process Value → Process Value
  wake_inbox p = elim p.inbox_coroutine [
    | none ↦ p
    | some co ↦ if is_empty p.inbox then p else record (wakeup p co) { inbox_coroutine = none }
  ]

  -- The condition of the loop of `run`.
  pub is_ready : Process Value → Bool
  is_ready p =
      not (is_empty p.spawn_coroutines)
      || not (is_empty p.wakeup_coroutines)
      || (not (is_empty p.inbox) && is_some p.inbox_coroutine)

module _ {Value : Type 0}
    (body : ℕ → Try (Content Value) → Process Value → List Action × Stop) where
  -- The loops of `run` over the new and over the woken coroutines; `true` is a thrown
  -- process::ExitException.
  pub run_spawned : (fuel : ℕ) → Process Value → List ℕ → Option (Process Value × Bool)
  run_spawned fuel p [] = some (p, false)
  run_spawned zero p (co ∷ queue) = none
  run_spawned (suc fuel) p (co ∷ queue) =
      let (p', throws) = resume body (record p { spawn_coroutines = queue }) co false in
      let rest : Option (Process Value × Bool) = run_spawned fuel p' p'.spawn_coroutines in
      if throws then some (p', true) else rest

  pub run_woken : (fuel : ℕ) → Process Value → List ℕ → Option (Process Value × Bool)
  run_woken fuel p [] = some (p, false)
  run_woken zero p (co ∷ queue) = none
  run_woken (suc fuel) p (co ∷ queue) =
      let (p', throws) = resume body (record p { wakeup_coroutines = queue }) co false in
      let rest : Option (Process Value × Bool) = run_woken fuel p' p'.wakeup_coroutines in
      if throws then some (p', true) else rest

  -- One round of the loop of `run`.
  pub run_round : (fuel : ℕ) → Process Value → Option (Process Value × Bool)
  run_round fuel p = elim (run_spawned fuel p p.spawn_coroutines) [
    | none ↦ none
    | some (p', true) ↦ some (p', true)
    | some (p', false) ↦ elim (run_woken fuel p' p'.wakeup_coroutines) [
      | none ↦ none
      | some (q, true) ↦ some (q, true)
      | some (q, false) ↦ some (wake_inbox q, false)
    ]
  ]

  pub run : (fuel : ℕ) → Process Value → Option (Process Value × Bool)
  run zero p = none
  run (suc fuel) p = elim (is_ready p) [
    | false ↦ some (sweep_zombies p, false)
    | true ↦ elim (run_round fuel p) [
      | none ↦ none
      | some (q, true) ↦ some (q, true)
      | some (q, false) ↦ run fuel q
    ]
  ]

  -- The process, and what `dispatch` returns.
  pub dispatch : (fuel : ℕ) → Process Value → Option (Process Value × Bool)
  dispatch fuel p = elim (run fuel p) [
    | none ↦ none
    | some (q, true) ↦ elim (exit body fuel q) [ none ↦ none | some r ↦ some (r, false) ]
    | some (q, false) ↦ some (q, not (is_empty q.block_sessions && is_empty q.suspend_coroutines))
  ]

  -- The switch of `resume` over a message.
  pub handle :
      (fuel : ℕ) → Process Value → Message (Content Value) → Option (Process Value × ResumeResult)
  handle fuel p msg = elim (type_of_message msg) [
    | request ↦ some (receive (serve_request p msg.source msg.session) msg, k_resume)
    | response ↦ some (handle_response p msg, k_resume)
    | notify ↦ elim (is_kill msg.content) [
      | false ↦ some (receive p msg, k_resume)
      | true ↦ elim (exit body fuel p) [ none ↦ none | some q ↦ some (q, k_down) ]
    ]
  ]

  pub resume_process :
      (fuel : ℕ)
      → Process Value
      → Option (Message (Content Value))
      → Option (Process Value × ResumeResult)
  resume_process fuel p taken = elim (dispatch fuel p) [
    | none ↦ none
    | some (q, false) ↦ some (q, k_down)
    | some (q, true) ↦ elim taken [ none ↦ some (q, k_break) | some msg ↦ handle fuel q msg ]
  ]

  handle-of_response :
      (fuel : ℕ) (p : Process Value) (msg : Message (Content Value))
      → type_of_message msg ≡ response
      → handle fuel p msg ≡ some (handle_response p msg, k_resume)
  unfolding handle
  handle-of_response fuel p msg h = rw (h, handle) refl

  unblock-stop :
      (p : Process Value) (co session : ℕ)
      → unblock (stop p co (blocks session)) session ≡ (
        some co,
        record p { block_sessions = erase session (assign session co p.block_sessions) },
      )
  unfolding unblock stop
  unblock-stop p co session = rw (find-assign session co p.block_sessions, unblock) refl

  -- A coroutine that blocks on the session of a request is woken by the response to it: it goes to
  -- the end of the coroutines that are ready, the session waits no longer, and what the coroutine
  -- is told is the content of the response, if no exception was set before.
  pub handle-stop :
      (fuel : ℕ) (p : Process Value) (co session source type : ℕ) (v : Value)
      → session < 2 ^ 32
      → type_of_session session ≡ request
      → (p.coroutines co).result.exception_ptr ≡ none
      → (q : Process Value) × (handle fuel (stop p co (blocks session)) (record {
        source = source;
        session = session_for_response session;
        content = user type v;
      })
          ≡ some (q, k_resume))
        × (q.wakeup_coroutines ≡ p.wakeup_coroutines ++ co ∷ [])
        × (q.block_sessions ≡ erase session (assign session co p.block_sessions))
        × ((get_value (q.coroutines co).result).0 ≡ returned (user type v))
  unfolding handle_response answer_unblocked answer type_of_message set_value get_value
  handle-stop fuel p co session source type v fits asks clean =
      let (answers, back) = session_for_response-request session fits asks in
      let blocked : Process Value = stop p co (blocks session) in
      let msg : Message (Content Value) = record {
        source = source;
        session = session_for_response session;
        content = user type v;
      } in
      let answered : handle_response blocked msg
          ≡ answer_unblocked
              (
                some co,
                record p { block_sessions = erase session (assign session co p.block_sessions) },
              )
              (user type v) =
        rw (back, unblock-stop p co session, handle_response) refl in
      (
        handle_response blocked msg,
        handle-of_response fuel blocked msg answers,
        ap (λ (q : Process Value). q.wakeup_coroutines) answered,
        ap (λ (q : Process Value). q.block_sessions) answered,
        ap (λ (q : Process Value). (get_value (q.coroutines co).result).0) answered
            ∙ ground (arith, clean),
      )
