-- ===== src/Process/Serve/Handlers.antt =====
-- The typed handlers of src/process.hpp: the templates that wrap a function of a `RequestT *` for the
-- handlers of src/process.cpp.
--
-- A C++ type is its type index, and `Carrier` what a value of it is. A pointer is null (`none`) or points
-- to a value. A handler's body is what it answers by calls of `process::response(content)`, in order, and
-- what it returns.
pub mod Typed
mod Examples
use stp.Prelude.{
  ℕ, zero, suc, ◌+◌, ◌<◌, ◌≡◌, ◌≢◌, refl, sym, ap, subst, ◌∙◌, inl, inr, List, [], ◌∷◌, ◌++◌,
  Option, none, some, arith, ◌==◌, ==→eq, ==_refl, if◌then◌else◌, update, Bool-cases, true, false,
}
use stp.Message.{Message}
use stp.Coroutine.{Content, empty}
use stp.Dict.{find, find-assign, find-assign_other}
use stp.Process.{Process}
use stp.Process.Serve.{
  HandlerMode, HandlerInfo, k_callback, k_coroutine, message_callback, message_coroutine, Served,
  suspends, drops, calls, spawns, serve, serve_inbox, serve_message,
}

-- wild::SharedAny: the type of its content, a cast to a pointer, which is not null for that type, and a
-- value as content.
pub record SharedAny (Value : Type 0) (Carrier : ℕ → Type 0) : Type 0 where
  pub type_of : Content Value → ℕ
  pub cast : (type : ℕ) → Content Value → Option (Carrier type)
  pub content_of : (type : ℕ) → Carrier type → Content Value
  pub cast-type_of : (a : Content Value) → (x : Carrier (type_of a)) × (cast (type_of a) a ≡ some x)

-- The functions that the templates take, for the type of a request or a notification.
pub data Handler (Value : Type 0) (Carrier : ℕ → Type 0) (type : ℕ) : Type 0 where
  returns_void : (Option (Carrier type) → List (Content Value)) → Handler Value Carrier type
  returns :
      (response : ℕ)
      → (Option (Carrier type) → List (Content Value) × Carrier response)
      → Handler Value Carrier type
  returns_empty : (Option (Carrier type) → List (Content Value)) → Handler Value Carrier type

-- A call that registers a handler.
pub data Registration (Value : Type 0) (Carrier : ℕ → Type 0) : Type 0 where
  request_callback : (type : ℕ) → Handler Value Carrier type → Registration Value Carrier
  request_coroutine :
      (type : ℕ) → Handler Value Carrier type → (addstack : ℕ) → Registration Value Carrier
  notification_callback :
      (type : ℕ) → (Option (Carrier type) → List (Content Value)) → Registration Value Carrier
  notification_coroutine :
      (type : ℕ)
      → (Option (Carrier type) → List (Content Value))
      → (addstack : ℕ) → Registration Value Carrier

-- `_message_handlers`, and the functions that it holds by their names.
pub record Handlers (Value : Type 0) : Type 0 where
  pub infos : List (ℕ × HandlerInfo)
  pub funcs : ℕ → Content Value → List (Content Value)
  pub made : ℕ

module _ {Value : Type 0} {Carrier : ℕ → Type 0} (any : SharedAny Value Carrier) where
  -- What a handler answers when it is given a pointer.
  pub answers :
      (type : ℕ) → Handler Value Carrier type → Option (Carrier type) → List (Content Value)
  answers type (returns_void body) x = body x
  answers type (returns response body) x = (body x).0 ++ any.content_of response (body x).1 ∷ []
  answers type (returns_empty body) x = body x ++ empty ∷ []

  -- The function that a template hands on.
  pub wrapped : (type : ℕ) → Handler Value Carrier type → Content Value → List (Content Value)
  wrapped type handler content = answers type handler (any.cast type content)

  pub add_callback :
      Handlers Value → (type : ℕ) → (Content Value → List (Content Value)) → Handlers Value
  add_callback h type func = record {
    infos = message_callback h.infos type h.made;
    funcs = update h.funcs h.made func;
    made = h.made + 1;
  }

  pub add_coroutine :
      Handlers Value
      → (type : ℕ) → (Content Value → List (Content Value))
      → (addstack : ℕ) → Handlers Value
  add_coroutine h type func addstack = record {
    infos = message_coroutine h.infos type h.made addstack;
    funcs = update h.funcs h.made func;
    made = h.made + 1;
  }

  pub register : Handlers Value → Registration Value Carrier → Handlers Value
  register h (request_callback type handler) = add_callback h type (wrapped type handler)
  register h (request_coroutine type handler addstack) =
      add_coroutine h type (wrapped type handler) addstack
  register h (notification_callback type body) =
      add_callback h type (wrapped type (returns_void body))
  register h (notification_coroutine type body addstack) =
      add_coroutine h type (wrapped type (returns_void body)) addstack

  pub no_handlers : Handlers Value
  no_handlers = record { infos = []; funcs = λ n content. []; made = 0 }

  -- The calls, the last one first.
  pub registered : List (Registration Value Carrier) → Handlers Value
  registered [] = no_handlers
  registered (r ∷ rs) = register (registered rs) r

  abbrev pub type_index : Registration Value Carrier → ℕ
  type_index (request_callback type handler) = type
  type_index (request_coroutine type handler addstack) = type
  type_index (notification_callback type body) = type
  type_index (notification_coroutine type body addstack) = type

  abbrev pub handler_of : (r : Registration Value Carrier) → Handler Value Carrier (type_index r)
  handler_of (request_callback type handler) = handler
  handler_of (request_coroutine type handler addstack) = handler
  handler_of (notification_callback type body) = returns_void body
  handler_of (notification_coroutine type body addstack) = returns_void body

  abbrev pub info_of : Registration Value Carrier → (func : ℕ) → HandlerInfo
  info_of (request_callback type handler) func = record {
    mode = k_callback;
    func = func;
    addstack = 0;
  }
  info_of (request_coroutine type handler addstack) func = record {
    mode = k_coroutine;
    func = func;
    addstack = addstack;
  }
  info_of (notification_callback type body) func = record {
    mode = k_callback;
    func = func;
    addstack = 0;
  }
  info_of (notification_coroutine type body addstack) func = record {
    mode = k_coroutine;
    func = func;
    addstack = addstack;
  }

  -- The last registration for a type.
  abbrev pub latest : List (Registration Value Carrier) → ℕ → Option (Registration Value Carrier)
  latest [] type = none
  latest (r ∷ rs) type = if type_index r == type then some r else latest rs type
