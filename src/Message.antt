-- ===== src/Message.antt =====
-- struct Message and the sessions of src/process.cpp. A process id and a session id are their
-- uint32 values; the content stands for wild::SharedAny.
mod Examples
use stp.Prelude.{
  ℕ, ◌+◌, ◌-◌, ◌%◌, ◌^◌, ◌≤◌, ◌<◌, ◌≡◌, ◌↔◌, Bool, true, false, arith, ltb, ◌==◌, if◌then◌else◌,
}

abbrev pub uint32_mod : ℕ
uint32_mod = 2 ^ 32

pub record Message (Content : Type 0) : Type 0 where
  pub source : ℕ
  pub session : ℕ
  pub content : Content

pub data MessageType : Type 0 where
  notify request response : MessageType

-- `-session.Value()` on uint32.
unfoldable pub session_for_response : ℕ → ℕ
session_for_response session = (uint32_mod - session) % uint32_mod

-- `static_cast<int32>`: the sign is the highest bit.
unfoldable pub type_of_session : ℕ → MessageType
type_of_session session =
    if session == 0 then notify else (if ltb session (2 ^ 31) then request else response)

unfoldable pub type_of_message : {Content : Type 0} → Message Content → MessageType
unfolding type_of_session
type_of_message msg = type_of_session msg.session

-- The session that a waiting coroutine blocks on is found again from the response: the session of
-- a request below 2^31 is answered under a session that is a response, and `-` takes that one back.
pub session_for_response-request :
    (s : ℕ)
    → s < uint32_mod
    → type_of_session s ≡ request
    → (type_of_session (session_for_response s) ≡ response)
      × (session_for_response (session_for_response s) ≡ s)
unfolding type_of_session session_for_response
session_for_response-request s p h = ground arith

-- Below 2^31 a session other than 0 is a request and its negation a response, above 2^31 it is a
-- response and its negation a request; 2^31 and its negation, which is the same, are both responses, so
-- that a request under it is taken for a response.
pub type_of_session-negated :
    (s : ℕ)
    → s < uint32_mod
    → 0 < s
    → ((s < 2 ^ 31)
        ↔ ((type_of_session s ≡ request) × (type_of_session (session_for_response s) ≡ response)))
      × ((2 ^ 31 < s)
          ↔ ((type_of_session s ≡ response) × (type_of_session (session_for_response s) ≡ request)))
      × ((s ≡ 2 ^ 31) ↔ (
          (type_of_session s ≡ response) × (type_of_session (session_for_response s) ≡ response)))
unfolding type_of_session session_for_response
type_of_session-negated s p q = (
  (λ e. ground arith, λ e. ground arith),
  (λ e. ground arith, λ e. ground arith),
  (λ e. ground arith, λ e. ground arith),
)
