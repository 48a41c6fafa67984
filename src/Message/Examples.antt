-- ===== src/Message/Examples.antt =====
-- The theorems on sessions at concrete sessions.
use stp.Prelude.{◌^◌, ◌<◌, ◌≡◌, ◌↔◌, arith}
use stp.Message.{request, response, session_for_response, type_of_session, type_of_session-negated}

type_of_session-negated_example :
    ((2 ^ 31 < 2 ^ 31) ↔ (
      (type_of_session (2 ^ 31) ≡ request)
      × (type_of_session (session_for_response (2 ^ 31)) ≡ response)))
    × ((2 ^ 31 < 2 ^ 31) ↔ (
        (type_of_session (2 ^ 31) ≡ response)
        × (type_of_session (session_for_response (2 ^ 31)) ≡ request)))
    × ((2 ^ 31 ≡ 2 ^ 31) ↔ (
        (type_of_session (2 ^ 31) ≡ response)
        × (type_of_session (session_for_response (2 ^ 31)) ≡ response)))
type_of_session-negated_example = type_of_session-negated (2 ^ 31) (omega arith) (omega arith)
