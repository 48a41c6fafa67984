-- ===== src/Registry/Requests/Examples.antt =====
-- The theorem on requests where the coroutine 12 of the process 3 asks the process 8.
use stp.Prelude.{ℕ, ◌≡◌, refl, [], ◌∷◌, ◌++◌, some, arith}
use stp.Message.{Message}
use stp.Dict.{find}
use stp.Coroutine.{Content, user, get_value, returned}
use stp.Process.{Process}
use stp.Process.Run.{k_resume, handle}
use stp.Process.Examples.{killed, ends_at_once}
use stp.Registry.{Registry}
use stp.Registry.Requests.{asks, request_from, respond, request-respond}
use stp.Session.Examples.{numbers}

abbrev pub two : Registry
two = record { seq = 8; procs_map = (3, 60) ∷ (8, 80) ∷ []; refcnt = λ p. 1; destroyed = [] }

abbrev eight : Process ℕ
eight = record killed { pid = 8 }

request-respond_example :
    (msg : Message (Content ℕ)) × (r' : Registry) × (q : Process ℕ) × (request_from numbers two []
        killed 12 8
        (user 0 5)
      ≡ asks 80 msg r' (1 ∷ []) q)
    × (reply : Message (Content ℕ)) × (q' : Process ℕ) × ((respond r' eight msg.source msg.session
          (user 0 6)).0.0
        ≡ some (60, reply))
    × (handle ends_at_once 0 q reply ≡ some (q', k_resume))
    × (q'.wakeup_coroutines ≡ [] ++ 12 ∷ [])
    × ((get_value (q'.coroutines 12).result).0 ≡ returned (user 0 6))
unfolding find
request-respond_example =
    request-respond numbers ends_at_once two [] killed eight 60 80 12 0 (user 0 5) 6 0 refl refl
      (omega arith) refl
