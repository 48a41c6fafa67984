-- ===== src/Registry/Requests.antt =====
-- `process::request` of src/process.cpp and its way back: the target answers by `Process::response`, and
-- the response wakes the coroutine that made the request.
--
-- The pointer to the target and the Session live until `block` returns or throws.
pub mod Examples
use stp.Prelude.{
  ℕ, ◌^◌, ◌<◌, ◌≡◌, ◌≢◌, refl, ap, ◌∙◌, List, [], ◌∷◌, ◌++◌, Option, none, some, arith,
}
use stp.Message.{Message, request, session_for_response, type_of_session}
use stp.Wild.{IdAllocator}
use stp.Dict.{find}
use stp.Coroutine.{Exception, process_not_exist, Content, empty, user, get_value, Try, returned}
use stp.Process.{Process, Action, Stop, blocks, stop, close_request}
use stp.Process.Run.{ResumeResult, k_resume, handle, handle-stop}
use stp.Registry.{Registry, ref, unref, find_process, deliver, send, response}

module _ (Value : Type 0) (a : IdAllocator) where
  -- `request` up to `block`: it throws, or a message goes to the target.
  pub data Requested : Type 0 where
    throws : Exception → Requested
    asks :
        (target : ℕ) (msg : Message (Content Value)) (registry : Registry) (ids : a.Ids)
        (process : Process Value)
        → Requested

module _ {Value : Type 0} (a : IdAllocator) where
  pub request_to :
      Option ℕ × Registry → a.Ids → Process Value → (co : ℕ) → Content Value → Requested Value a
  request_to (none, r) ids p co content = throws process_not_exist
  request_to (some target, r) ids p co content =
      let id : ℕ = (a.new_id ids).0 in
      asks target (record { source = p.pid; session = id; content = content }) r (a.new_id ids).1
        (stop p co (blocks id))

  pub request_from :
      Registry → a.Ids → Process Value → (co pid : ℕ) → Content Value → Requested Value a
  request_from r ids p co pid content = request_to (find_process r pid) ids p co content

  -- `Process::yield`: the message to the own mailbox, and the process that blocks.
  pub yield_from :
      a.Ids → Process Value → (co : ℕ) → Message (Content Value) × a.Ids × Process Value
  yield_from ids p co =
      let id : ℕ = (a.new_id ids).0 in
      (
        record { source = 0; session = session_for_response id; content = empty },
        (a.new_id ids).1,
        stop p co (blocks id),
      )

-- The ends of the scopes of the session and of the pointer.
pub request_ends : (a : IdAllocator) → Registry → a.Ids → (target session : ℕ) → Registry × a.Ids
request_ends a r ids target session = (unref r target, a.erase session ids)

-- `Process::response`: who gets the message, and the process without the request.
pub respond :
    {Value : Type 0}
    → Registry
    → Process Value
    → (source session : ℕ) → Content Value
    → (Option (ℕ × Message (Content Value)) × Registry) × Process Value
respond r p source session content =
    (response r p.pid source session content, close_request p source session)

find_process-found :
    (r : Registry) (pid p : ℕ)
    → find pid r.procs_map ≡ some p
    → find_process r pid ≡ (some p, ref r p)
unfolding find_process
find_process-found r pid p h = rw (h, find_process) refl

find-ref : (r : Registry) (p pid : ℕ) → find pid (ref r p).procs_map ≡ find pid r.procs_map
unfolding ref
find-ref r p pid = refl

-- The response to a known process.
pub respond-found :
    {Value : Type 0} (r : Registry) (p : Process Value) (source session asker : ℕ)
    (content : Content Value)
    → find source r.procs_map ≡ some asker
    → ((respond r p source session content).0.0
        ≡ some (
          asker,
          record { source = p.pid; session = session_for_response session; content = content },
        ))
      × ((respond r p source session content).1 ≡ close_request p source session)
unfolding respond response send deliver
respond-found r p source session asker content known = (
  ap
      (λ f.
        (deliver f
          (record { source = p.pid; session = session_for_response session; content = content })).0)
      (find_process-found r source asker known),
  refl,
)

type_of_session-low :
    (session : ℕ) → session < 2 ^ 31 → session ≢ 0 → type_of_session session ≡ request
unfolding type_of_session
type_of_session-low session low ne = ground arith

module _ {Value : Type 0} (a : IdAllocator)
    (body : ℕ → Try (Content Value) → Process Value → List Action × Stop) where
  -- Where the new session is below 2^31 and no exception was set before: a coroutine of a known process
  -- that makes a request to a known process sends it a message under this session; when the target
  -- answers this message with a value, the response goes to the process of the coroutine, and wakes the
  -- coroutine with this value.
  pub request-respond :
      (r : Registry) (ids : a.Ids) (p target_process : Process Value) (self target co type : ℕ)
      (content : Content Value) (v : Value) (fuel : ℕ)
      → find target_process.pid r.procs_map ≡ some target
      → find p.pid r.procs_map ≡ some self
      → (a.new_id ids).0 < 2 ^ 31
      → (p.coroutines co).result.exception_ptr ≡ none
      → (msg : Message (Content Value)) × (r' : Registry) × (q : Process Value) × (request_from a r
            ids p co target_process.pid content
          ≡ asks target msg r' (a.new_id ids).1 q)
        × (reply : Message (Content Value)) × (q' : Process Value) × ((respond r' target_process
              msg.source msg.session
              (user type v)).0.0
            ≡ some (self, reply))
        × (handle body fuel q reply ≡ some (q', k_resume))
        × (q'.wakeup_coroutines ≡ p.wakeup_coroutines ++ co ∷ [])
        × ((get_value (q'.coroutines co).result).0 ≡ returned (user type v))
  unfolding request_from request_to respond response send deliver
  request-respond r ids p target_process self target co type content v fuel known back low clean =
      let id : ℕ = (a.new_id ids).0 in
      let asking = type_of_session-low id low (a.new_id-ne-0 ids) in
      let r' : Registry = ref r target in
      let reply : Message (Content Value) = record {
        source = target_process.pid;
        session = session_for_response id;
        content = user type v;
      } in
      let (q', wakes, ready, rest, told) =
        handle-stop body fuel p co id target_process.pid type v (omega (arith, low)) asking clean in
      (
        record { source = p.pid; session = id; content = content },
        r',
        stop p co (blocks id),
        ap (λ f. request_to a f ids p co content)
            (find_process-found r target_process.pid target known),
        reply,
        q',
        ap (λ f. (deliver f reply).0)
            (find_process-found r' p.pid self (find-ref r target p.pid ∙ back)),
        wakes,
        ready,
        told,
      )
