-- ===== src/Process/Serve/Replies.antt =====
-- A handler of src/process.cpp answers the request that it was called for: `serve` and
-- `process::response(content)`.
mod Examples
use stp.Prelude.{
  ℕ, ◌+◌, ◌≤◌, ◌≡◌, ◌&&◌, ◌==◌, if◌then◌else◌, refl, ap, ◌∙◌, List, [], ◌∷◌, Option, none, some,
  arith, update, ==_refl,
}
use stp.Message.{Message, session_for_response}
use stp.Dict.{find}
use stp.Coroutine.{Content}
use stp.Process.{Process, erase_pair, close_request}
use stp.Process.Serve.{HandlerInfo, k_callback, calls, serve, serve_inbox, serve_message}
use stp.Registry.{Registry, find_process}
use stp.Registry.Requests.{respond, respond-found}

-- `process::response(content)`, with `sender()` and `session()` of the running coroutine.
pub reply :
    {Value : Type 0}
    → Registry
    → Process Value
    → (running : ℕ) → Content Value
    → (Option (ℕ × Message (Content Value)) × Registry) × Process Value
reply r p running content =
    respond r p (p.coroutines running).message_sender (p.coroutines running).message_session content

-- How often a request is among those that are open.
abbrev pub times : (source session : ℕ) → List (ℕ × ℕ) → ℕ
times source session [] = 0
times source session ((x, y) ∷ m) =
    (if x == source && y == session then 1 else 0) + times source session m

times-erase_pair :
    (x y a b : ℕ) (m : List (ℕ × ℕ))
    → times a b m ≤ 1
    → times x y (erase_pair a b m) ≡ (if x == a && y == b then 0 else times x y m)
unfolding erase_pair
times-erase_pair x y a b [] one = ground arith
times-erase_pair x y a b ((u, v) ∷ m) one = ground (arith, times-erase_pair x y a b m, one)

-- A message with a callback, whose sender is a known process and whose request is open at most once, is
-- handed to the callback; when this answers, the response goes to the sender, under the negation of the
-- session of the message, and this request and no other is no longer open.
pub reply-serve :
    {Value : Type 0} (type_of : Content Value → ℕ) (handlers : List (ℕ × HandlerInfo))
    (p : Process Value) (running : ℕ) (msg : Message (Content Value))
    (rest : List (Message (Content Value))) (h : HandlerInfo) (r : Registry) (asker : ℕ)
    (content : Content Value)
    → p.inbox ≡ msg ∷ rest
    → find (type_of msg.content) handlers ≡ some h
    → h.mode ≡ k_callback
    → find msg.source r.procs_map ≡ some asker
    → times msg.source msg.session p.requests_map ≤ 1
    → (q : Process Value) × (serve type_of handlers p running ≡ (calls h.func msg.content, q))
      × (q.inbox ≡ rest)
      × ((reply r q running content).0.0
          ≡ some (
            asker,
            record {
              source = p.pid;
              session = session_for_response msg.session;
              content = content;
            },
          ))
      × ((source session : ℕ)
          → times source session (reply r q running content).1.requests_map ≡ (
              if source == msg.source && session == msg.session
              then 0
              else times source session p.requests_map))
unfolding serve serve_inbox serve_message reply close_request
reply-serve type_of handlers p running msg rest h r asker content waiting known mode back one =
    let left : Process _ = record p { inbox = rest } in
    let q : Process _ = record left {
      coroutines = update p.coroutines running (record (p.coroutines running) {
        message_sender = msg.source;
        message_session = msg.session;
      });
    } in
    let told : q.coroutines running ≡ record (p.coroutines running) {
      message_sender = msg.source;
      message_session = msg.session;
    } =
      rw (==_refl running) refl in
    let (goes, closed) = respond-found r q msg.source msg.session asker content back in
    (
      q,
      ap (serve_inbox type_of handlers p running) waiting
          ∙ ap (λ o. serve_message type_of o left running msg) known
          ∙ rw (mode, serve_message) refl,
      refl,
      ap (λ c. (respond r q c.message_sender c.message_session content).0.0) told ∙ goes,
      λ source session.
          ap (λ c. times source session c.requests_map)
            (ap (λ c. (respond r q c.message_sender c.message_session content).1) told ∙ closed)
          ∙ times-erase_pair source session msg.source msg.session p.requests_map one,
    )
