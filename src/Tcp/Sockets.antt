-- ===== src/Tcp/Sockets.antt =====
-- `_getaddrinfo`, `listen`, `connect` and `accept` of src/tcp.cpp.
--
-- `Use` records what was opened and given back, in order. A `wild::Fd` that is not moved out closes
-- its descriptor at the end of its scope.
pub mod Uses
pub mod Listen
pub mod Answers
pub mod Connect
use stp.Prelude.{
  ℕ, zero, suc, ◌+◌, Bool, true, false, not, ◌&&◌, List, [], ◌∷◌, ◌++◌, Option, none, some, ◌==◌,
  leb, length, if◌then◌else◌,
}
use stp.Tcp.{Family, Parsed, illegal, aborted, parsed, parse}
use stp.Tcp.Os.{Os, Found, found, eai_system, gai_failed}

pub data Use : Type 0 where
  opens closes : (fd : ℕ) → Use
  allocates frees : Use

pub data Category : Type 0 where
  net gai system : Category

pub record Condition : Type 0 where
  pub category : Category
  pub value : ℕ

abbrev pub illegal_address : Condition
illegal_address = record { category = net; value = 1 }

abbrev pub no_match_addrinfo : Condition
no_match_addrinfo = record { category = net; value = 3 }

abbrev pub ambiguous_address : Condition
ambiguous_address = record { category = net; value = 4 }

-- A socket, an error, a failed assertion or an access through NULL, or an exception.
pub data Outcome : Type 0 where
  opened : (fd : ℕ) → Outcome
  failed : Condition → Outcome
  crashed thrown : Outcome

module _ (os : Os) where
  -- The state and what was used so far.
  pub record World : Type 0 where
    pub state : os.State
    pub used : List Use

  abbrev pub goes : World → os.State → World
  goes w s = record w { state = s }

  abbrev pub uses : World → Use → World
  uses w u = record w { used = w.used ++ u ∷ [] }

  abbrev pub closes_fd : World → ℕ → World
  closes_fd w fd = record { state = os.close fd w.state; used = w.used ++ closes fd ∷ [] }

  abbrev pub system_error : os.State → Condition
  system_error s = record { category = system; value = os.errno s }

  -- The error of `_getaddrinfo`, the addresses and the world after it.
  pub addresses : Found × os.State → World → Option Condition × List ℕ × World
  addresses (found [], s) w = (some no_match_addrinfo, [], goes w s)
  addresses (found (ai ∷ ais), s) w = (none, ai ∷ ais, uses (goes w s) allocates)
  addresses (eai_system, s) w =
      if os.errno s == 0 then (none, [], goes w s) else (some (system_error s), [], goes w s)
  addresses (gai_failed code, s) w = (some (record { category = gai; value = code }), [], goes w s)

  pub getaddrinfo_of :
      Parsed → (passive : Bool) → World → Option (Option Condition × List ℕ × World)
  getaddrinfo_of illegal passive w = some (some illegal_address, [], w)
  getaddrinfo_of aborted passive w = none
  getaddrinfo_of (parsed family host port) passive w =
      some (addresses (os.getaddrinfo family host port passive w.state) w)

  -- `none` is a failed assertion of `_parse`.
  unfoldable pub getaddrinfo :
      (addr : List ℕ) → (passive : Bool) → World → Option (Option Condition × List ℕ × World)
  getaddrinfo addr passive w = getaddrinfo_of (parse addr) passive w

  -- `_option(fd) == 0 && bind(...) == 0 && ::listen(...) == 0`.
  pub prepare : (fd ai : ℕ) → os.State → Bool × os.State
  prepare fd ai s =
      let reuse = os.set_reuse fd s in
      let bound = os.bind fd ai reuse.1 in
      if reuse.0
      then (if bound.0 then os.listen fd bound.1 else (false, bound.1))
      else (false, reuse.1)

  -- The loop of `listen`; `sockets` has the last one in front.
  pub record Listening : Type 0 where
    pub world : World
    pub sockets : List ℕ
    pub last_errno : ℕ

  pub prepared : (fd : ℕ) → Bool × os.State → Listening → Listening
  prepared fd (true, s) l = record l { world = goes l.world s; sockets = fd ∷ l.sockets }
  prepared fd (false, s) l =
      let w = closes_fd (goes l.world s) fd in record l { world = w; last_errno = os.errno w.state }

  pub listen_on : (ai : ℕ) → Option ℕ × os.State → Listening → Listening
  listen_on ai (none, s) l = record l { world = goes l.world s; last_errno = os.errno s }
  listen_on ai (some fd, s) l =
      prepared fd (prepare fd ai s) (record l { world = uses (goes l.world s) (opens fd) })

  pub listen_loop : List ℕ → Listening → Listening
  listen_loop [] l = l
  listen_loop (ai ∷ ais) l =
      let rest = listen_loop ais (listen_on ai (os.socket ai l.world.state) l) in
      if leb 2 (length l.sockets) then l else rest

  pub closen : World → List ℕ → World
  closen w [] = w
  closen w (fd ∷ fds) = closen (closes_fd w fd) fds

  -- What follows `freeaddrinfo`.
  pub one_socket : Listening → Outcome × World
  one_socket l = elim l.sockets [
    | [] ↦
        if l.last_errno == 0
        then (crashed, l.world)
        else (failed (record { category = system; value = l.last_errno }), l.world)
    | fd ∷ [] ↦ (opened fd, l.world)
    | fd ∷ more ∷ fds ↦ (failed ambiguous_address, closen l.world (fd ∷ more ∷ fds))
  ]

  pub listen_to : Option (Option Condition × List ℕ × World) → World → Outcome × World
  listen_to none w = (crashed, w)
  listen_to (some (some err, ais, w')) w = (failed err, w')
  listen_to (some (none, ais, w')) w =
      let l = listen_loop ais (record { world = w'; sockets = []; last_errno = 0 }) in
      one_socket (record l { world = uses l.world frees })

  pub listen : (addr : List ℕ) → World → Outcome × World
  listen addr w = listen_to (getaddrinfo addr true w) w
