-- ===== src/Process.antt =====
-- class Process of src/process.cpp: one process between two switches of a coroutine.
--
-- A coroutine is named by a number, its address. What a coroutine does while it runs is the
-- parameter `body`: told what `yield` returned or threw, the calls of the API that it makes on its
-- process, in order, and how it stops.
-- The queues are the containers of the source; a set and a map are lists without duplicate keys.
pub mod Places
pub mod Conserve
pub mod Caught
pub mod Interrupt
pub mod Exit
pub mod Run
pub mod Abort
pub mod Serve
pub mod Examples
use stp.Dict
use stp.Dict.{find, assign}
use stp.Prelude.{
  ℕ, zero, suc, ◌+◌, Bool, true, false, ◌&&◌, ◌||◌, List, [], ◌∷◌, ◌++◌, map, Option, none, some,
  ◌==◌, if◌then◌else◌, update,
}
use stp.Message.{
  Message, MessageType, notify, request, response, session_for_response, type_of_message,
}
use stp.Coroutine.{
  Exception, coroutine_exit, process_exit, aborted_request, Content, empty, kill_process, exception,
  user, Coroutine, Result, set_value, set_exception, get_value, Try, returned, thrown,
}

pub record Process (Value : Type 0) : Type 0 where
  pub pid : ℕ
  pub inbox : List (Message (Content Value))
  pub inbox_coroutine : Option ℕ
  pub spawn_coroutines : List ℕ
  pub wakeup_coroutines : List ℕ
  pub zombie_coroutines : List ℕ
  pub suspend_coroutines : List ℕ
  pub block_sessions : List (ℕ × ℕ)
  pub requests_map : List (ℕ × ℕ)
  pub coroutines : ℕ → Coroutine Value
  -- The coroutines that `Coroutine::destroy` was called on, in order.
  pub destroyed : List ℕ

-- A call on the process that a running coroutine makes and that returns at once.
pub data Action : Type 0 where
  spawns wakes : ℕ → Action
  closes : (source session : ℕ) → Action

-- How a running coroutine gives up control: `yield` in `suspend` or `block`, or the end of its
-- function, by the exception that `run` stores.
pub data Stop : Type 0 where
  suspends : Stop
  blocks : (session : ℕ) → Stop
  finishes : Exception → Stop

pub insert : ℕ → List ℕ → List ℕ
insert c [] = c ∷ []
insert c (x ∷ xs) = if x == c then x ∷ xs else x ∷ insert c xs

pub erase : ℕ → List ℕ → List ℕ
erase c [] = []
erase c (x ∷ xs) = if x == c then xs else x ∷ erase c xs

pub contains : ℕ → List ℕ → Bool
contains c [] = false
contains c (x ∷ xs) = x == c || contains c xs

pub erase_pair : ℕ → ℕ → List (ℕ × ℕ) → List (ℕ × ℕ)
erase_pair a b [] = []
erase_pair a b ((x, y) ∷ m) = if x == a && y == b then m else (x, y) ∷ erase_pair a b m

pub insert_pair : ℕ → ℕ → List (ℕ × ℕ) → List (ℕ × ℕ)
insert_pair a b [] = (a, b) ∷ []
insert_pair a b ((x, y) ∷ m) = if x == a && y == b then (x, y) ∷ m else (x, y) ∷ insert_pair a b m

module _ {Value : Type 0} where
  abbrev pub set_result_of : Process Value → ℕ → Result Value → Process Value
  set_result_of p co r = record p {
    coroutines = update p.coroutines co (record (p.coroutines co) { result = r });
  }

  -- `co->set_exception(e)`.
  pub throw_in : Process Value → ℕ → Exception → Process Value
  throw_in p co e = set_result_of p co (set_exception (p.coroutines co).result e)

  pub wakeup : Process Value → ℕ → Process Value
  wakeup p co =
      if contains co p.suspend_coroutines
      then record p {
        suspend_coroutines = erase co p.suspend_coroutines;
        wakeup_coroutines = p.wakeup_coroutines ++ co ∷ [];
      }
      else p

  pub unblock : Process Value → (session : ℕ) → Option ℕ × Process Value
  unblock p session = elim (find session p.block_sessions) [
    | none ↦ (none, p)
    | some co ↦ (some co, record p { block_sessions = Dict.erase session p.block_sessions })
  ]

  pub sweep_zombies : Process Value → Process Value
  sweep_zombies p = record p {
    zombie_coroutines = [];
    destroyed = p.destroyed ++ p.zombie_coroutines;
  }

  -- `abandon(_spawn_coroutines)`.
  pub abandon_spawned : Process Value → Process Value
  abandon_spawned p = record p {
    zombie_coroutines = p.zombie_coroutines ++ p.spawn_coroutines;
    spawn_coroutines = [];
  }

  -- The loop of the two `interrupt` functions over the coroutines of a container.
  pub interrupt_all : Process Value → List ℕ → Exception → Process Value
  interrupt_all p [] e = p
  interrupt_all p (co ∷ cos) e =
      interrupt_all
        (record (throw_in p co e) { wakeup_coroutines = p.wakeup_coroutines ++ co ∷ [] }) cos e

  pub interrupt_block_coroutines : Process Value → Exception → Process Value
  interrupt_block_coroutines p e = record (interrupt_all p (map (λ b. b.1) p.block_sessions) e) {
    block_sessions = [];
  }

  pub interrupt_suspend_coroutines : Process Value → Exception → Process Value
  interrupt_suspend_coroutines p e = record (interrupt_all p p.suspend_coroutines e) {
    suspend_coroutines = [];
  }

  -- What `exit` does first in each round.
  pub interrupt : Process Value → Process Value
  interrupt p =
      interrupt_suspend_coroutines (interrupt_block_coroutines p coroutine_exit) coroutine_exit

  pub serve_request : Process Value → (source session : ℕ) → Process Value
  serve_request p source session = record p {
    requests_map = insert_pair source session p.requests_map;
  }

  pub close_request : Process Value → (source session : ℕ) → Process Value
  close_request p source session = record p {
    requests_map = erase_pair source session p.requests_map;
  }

  pub act : Process Value → Action → Process Value
  act p (spawns co) = record p { spawn_coroutines = p.spawn_coroutines ++ co ∷ [] }
  act p (wakes co) = wakeup p co
  act p (closes source session) = close_request p source session

  pub act_all : Process Value → List Action → Process Value
  act_all p [] = p
  act_all p (a ∷ actions) = act_all (act p a) actions

  pub stop : Process Value → ℕ → Stop → Process Value
  stop p co suspends = record p { suspend_coroutines = insert co p.suspend_coroutines }
  stop p co (blocks session) = record p { block_sessions = assign session co p.block_sessions }
  stop p co (finishes e) = throw_in p co e

  abbrev pub zombie : Process Value → ℕ → Process Value
  zombie p co = record p { zombie_coroutines = p.zombie_coroutines ++ co ∷ [] }

  -- The `try` of `resume(co, exiting)`: the process, and whether it throws process::ExitException.
  pub settle : Process Value → ℕ → Bool → Try (Content Value) → Process Value × Bool
  settle p co exiting (returned v) = (p, false)
  settle p co exiting (thrown process_exit) = (zombie p co, (if exiting then false else true))
  settle p co exiting (thrown _) = (zombie p co, false)

module _ {Value : Type 0}
    (body : ℕ → Try (Content Value) → Process Value → List Action × Stop) where
  -- `co->resume()`: `yield` asks for the result, which is moved out or thrown into the coroutine's
  -- code, and this runs until it yields or ends. At the first switch there is no result to ask for.
  pub switch : Process Value → ℕ → Process Value
  switch p co =
      let (got, r) = get_value (p.coroutines co).result in
      let p' : Process Value = set_result_of p co r in
      stop (act_all p' (body co got p').0) co (body co got p').1

  pub resume : Process Value → ℕ → (exiting : Bool) → Process Value × Bool
  resume p co exiting =
      let p' : Process Value = switch p co in
      let (got, r) = get_value (p'.coroutines co).result in
      settle (set_result_of p' co r) co exiting got

  -- `do … while (!_wakeup_coroutines.empty())` of `exit`, over the queue with its front taken off.
  pub drain : (fuel : ℕ) → Process Value → List ℕ → Option (Process Value)
  drain fuel p [] = some p
  drain zero p (co ∷ queue) = none
  drain (suc fuel) p (co ∷ queue) =
      let p' : Process Value = (resume (record p { wakeup_coroutines = queue }) co true).0 in
      drain fuel p' p'.wakeup_coroutines

  pub exit_loop : (fuel : ℕ) → Process Value → Option (Process Value)
  exit_loop zero p = none
  exit_loop (suc fuel) p =
      let p' : Process Value = interrupt p in
      elim p'.wakeup_coroutines [
        | [] ↦ some p'
        | co ∷ queue ↦ elim (drain fuel p' (co ∷ queue)) [ none ↦ none | some q ↦ exit_loop fuel q ]
      ]

  pub exit : (fuel : ℕ) → Process Value → Option (Process Value)
  exit fuel p = elim (exit_loop fuel p) [
    | none ↦ none
    | some q ↦ some (sweep_zombies (abandon_spawned q))
  ]
