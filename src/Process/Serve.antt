-- ===== src/Process/Serve.antt =====
-- The handlers of `class Process` of src/process.cpp, the loop of `serve`, and the environment.
--
-- A handler's function is its name; a std::type_index is a number, which `type_of` gives for the
-- content of a message.
pub mod Replies
pub mod Handlers
use stp.Prelude.{ℕ, List, [], ◌∷◌, Option, none, some, update}
use stp.Message.{Message}
use stp.Coroutine.{Content, empty}
use stp.Dict.{find, assign}
use stp.Process.{Process, insert}

pub data HandlerMode : Type 0 where
  k_callback k_coroutine : HandlerMode

pub record HandlerInfo : Type 0 where
  pub mode : HandlerMode
  pub func : ℕ
  pub addstack : ℕ

pub message_callback : List (ℕ × HandlerInfo) → (type func : ℕ) → List (ℕ × HandlerInfo)
message_callback handlers type func =
    assign type (record { mode = k_callback; func = func; addstack = 0 }) handlers

pub message_coroutine : List (ℕ × HandlerInfo) → (type func addstack : ℕ) → List (ℕ × HandlerInfo)
message_coroutine handlers type func addstack =
    assign type (record { mode = k_coroutine; func = func; addstack = addstack }) handlers

-- What a round of the loop of `serve` does: it waits, drops a message without a handler, calls
-- a function, or spawns a coroutine that calls it with the message's sender and session.
pub data Served (Value : Type 0) : Type 0 where
  suspends drops : Served Value
  calls : (func : ℕ) → Content Value → Served Value
  spawns : (func addstack : ℕ) → Message (Content Value) → Served Value

module _ {Value : Type 0} (type_of : Content Value → ℕ) where
  pub serve_message :
      Option HandlerInfo
      → Process Value
      → (running : ℕ) → Message (Content Value)
      → Served Value × Process Value
  serve_message none p running msg = (drops, p)
  serve_message (some h) p running msg = elim h.mode [
    | k_callback ↦ (
      calls h.func msg.content,
      record p {
        coroutines = update p.coroutines running (record (p.coroutines running) {
          message_sender = msg.source;
          message_session = msg.session;
        });
      },
    )
    | k_coroutine ↦ (spawns h.func h.addstack msg, p)
  ]

  pub serve_inbox :
      List (ℕ × HandlerInfo)
      → Process Value
      → (running : ℕ) → List (Message (Content Value))
      → Served Value × Process Value
  serve_inbox handlers p running [] = (
    suspends,
    record p {
      inbox_coroutine = some running;
      suspend_coroutines = insert running p.suspend_coroutines;
    },
  )
  serve_inbox handlers p running (msg ∷ rest) =
      serve_message (find (type_of msg.content) handlers) (record p { inbox = rest }) running msg

  pub serve : List (ℕ × HandlerInfo) → Process Value → (running : ℕ) → Served Value × Process Value
  serve handlers p running = serve_inbox handlers p running p.inbox

-- The environment of a process: `get`, and `set`, which returns the old value.
module _ {Value : Type 0} where
  pub get : List (ℕ × Content Value) → (name : ℕ) → Content Value
  get env name = elim (find name env) [ none ↦ empty | some v ↦ v ]

  pub set :
      List (ℕ × Content Value)
      → (name : ℕ) → Content Value
      → Content Value × List (ℕ × Content Value)
  set env name value = (get env name, assign name value env)
