-- ===== src/Process/Serve/Handlers/Typed.antt =====
-- The handlers of src/process.hpp are called with content of their type.
use stp.Prelude.{
  ℕ, ◌+◌, ◌<◌, ◌≡◌, ◌≢◌, refl, sym, ap, subst, ◌∙◌, inl, inr, List, [], ◌∷◌, some, arith, ◌==◌,
  ==→eq, ==_refl, update, Bool-cases, false,
}
use stp.Message.{Message}
use stp.Coroutine.{Content}
use stp.Dict.{find, assign, find-assign, find-assign_other}
use stp.Process.{Process}
use stp.Process.Serve.{
  HandlerInfo, k_callback, k_coroutine, message_callback, message_coroutine, Served, calls, spawns,
  serve, serve_inbox, serve_message,
}
use stp.Process.Serve.Handlers.{
  SharedAny, Handlers, Registration, request_callback, request_coroutine, notification_callback,
  notification_coroutine, answers, wrapped, add_callback, add_coroutine, register, registered,
  type_index, handler_of, info_of, latest,
}

-- How `serve` hands a message to a handler.
abbrev pub called : {Value : Type 0} → HandlerInfo → Message (Content Value) → Served Value
called info msg = elim info.mode [
  | k_callback ↦ calls info.func msg.content
  | k_coroutine ↦ spawns info.func info.addstack msg
]

module _ {Value : Type 0} {Carrier : ℕ → Type 0} (any : SharedAny Value Carrier) where
  register_lem :
      (h : Handlers Value) (r : Registration Value Carrier)
      → register any h r ≡ record {
        infos = assign (type_index any r) (info_of any r h.made) h.infos;
        funcs = update h.funcs h.made (wrapped any (type_index any r) (handler_of any r));
        made = h.made + 1;
      }
  unfolding register add_callback add_coroutine message_callback message_coroutine
  register_lem h (request_callback type handler) = refl
  register_lem h (request_coroutine type handler addstack) = refl
  register_lem h (notification_callback type body) = refl
  register_lem h (notification_coroutine type body addstack) = refl

  -- The table has the last registration for a type.
  record Finds (h : Handlers Value) (type : ℕ) (r : Registration Value Carrier) : Type 0 where
    func : ℕ
    made : func < h.made
    found : find type h.infos ≡ some (info_of any r func)
    does : h.funcs func ≡ wrapped any (type_index any r) (handler_of any r)
    typed : type_index any r ≡ type

  register-Finds :
      (h : Handlers Value) (r : Registration Value Carrier)
      → Finds (register any h r) (type_index any r) r
  register-Finds h r =
      subst (λ x. Finds x (type_index any r) r) (sym (register_lem h r))
        (record {
          func = h.made;
          made = omega arith;
          found = find-assign (type_index any r) (info_of any r h.made) h.infos;
          does = rw (==_refl h.made) refl;
          typed = refl;
        })

  register-Finds_other :
      (h : Handlers Value) (r : Registration Value Carrier) (type : ℕ)
      (s : Registration Value Carrier)
      → type ≢ type_index any r
      → Finds h type s
      → Finds (register any h r) type s
  register-Finds_other h r type s ne f =
      subst (λ x. Finds x type s) (sym (register_lem h r))
        (record {
          func = f.func;
          made = omega (arith, f.made);
          found =
              find-assign_other (type_index any r) type (info_of any r h.made) h.infos ne ∙ f.found;
          does =
              (let other : (h.made == f.func) ≡ false = ground (arith, f.made) in rw other f.does);
          typed = f.typed;
        })

  registered-Finds :
      (rs : List (Registration Value Carrier)) (type : ℕ) (r : Registration Value Carrier)
      → latest any rs type ≡ some r
      → Finds (registered any rs) type r
  unfolding registered
  registered-Finds [] type r e = absurd (cc e)
  registered-Finds (s ∷ rs) type r e = elim (Bool-cases (type_index any s == type)) [
    | inl q ↦
        let now : latest any (s ∷ rs) type ≡ some s = rw q refl in
        let same : s ≡ r = cc (now, e) in
        subst (λ x. Finds (register any (registered any rs) s) type x) same
          (subst (λ x. Finds (register any (registered any rs) s) x s)
            (==→eq (type_index any s) type q) (register-Finds (registered any rs) s))
    | inr q ↦
        let before : latest any (s ∷ rs) type ≡ latest any rs type = rw q refl in
        register-Finds_other (registered any rs) s type r (λ k. ground (arith, k, q))
          (registered-Finds rs type r (sym before ∙ e))
  ]

  serve_message-called :
      (r : Registration Value Carrier) (func : ℕ) (p : Process Value) (running : ℕ)
      (msg : Message (Content Value))
      → (serve_message any.type_of (some (info_of any r func)) p running msg).0
        ≡ called (info_of any r func) msg
  unfolding serve_message
  serve_message-called (request_callback type handler) func p running msg = refl
  serve_message-called (request_coroutine type handler addstack) func p running msg = refl
  serve_message-called (notification_callback type body) func p running msg = refl
  serve_message-called (notification_coroutine type body addstack) func p running msg = refl

  -- A message whose type has a handler is handed to the one that was registered last, which is given
  -- a pointer to the content, not null, as a value of the type that it was registered for.
  pub serve-registered :
      (rs : List (Registration Value Carrier)) (p : Process Value) (running : ℕ)
      (msg : Message (Content Value)) (rest : List (Message (Content Value)))
      (r : Registration Value Carrier)
      → p.inbox ≡ msg ∷ rest
      → latest any rs (any.type_of msg.content) ≡ some r
      → (func : ℕ) × (x : Carrier (type_index any r)) × ((serve any.type_of
            (registered any rs).infos
            p
            running).0
          ≡ called (info_of any r func) msg)
        × (any.cast (type_index any r) msg.content ≡ some x)
        × ((registered any rs).funcs func msg.content
            ≡ answers any (type_index any r) (handler_of any r) (some x))
  unfolding serve serve_inbox wrapped
  serve-registered rs p running msg rest r waiting last =
      let f = registered-Finds rs (any.type_of msg.content) r last in
      let (x, cast) : (x : Carrier (type_index any r)) × (any.cast (type_index any r) msg.content
            ≡ some x) =
        subst (λ t. (x : Carrier t) × (any.cast t msg.content ≡ some x)) (sym f.typed)
          (any.cast-type_of msg.content) in
      (
        f.func,
        x,
        rw (waiting, f.found)
            (serve_message-called r f.func (record p { inbox = rest }) running msg),
        cast,
        ap (λ g. g msg.content) f.does
            ∙ ap (answers any (type_index any r) (handler_of any r)) cast,
      )
