-- ===== src/Tcp/Sockets/Connect.antt =====
-- `connect` and `accept` of src/tcp.cpp.
pub mod Descriptors
pub mod Pauses
pub mod Answers
mod Examples
use stp.Prelude.{
  ℕ, zero, suc, ◌+◌, Bool, true, false, not, ◌&&◌, ◌||◌, List, [], ◌∷◌, ◌++◌, Option, none, some,
  ◌==◌, if◌then◌else◌,
}
use stp.Tcp.Os.{Os}
use stp.Tcp.Sockets.{
  Use, opens, frees, Condition, system, Outcome, opened, failed, crashed, thrown, World, goes, uses,
  closes_fd, system_error, getaddrinfo,
}

module _ (os : Os) where
  -- `_getsockerr`.
  pub getsockerr : Option ℕ × os.State → ℕ × os.State
  getsockerr (none, s) = (os.errno s, s)
  getsockerr (some err, s) = (err, s)

  -- One round of the loop of `connect`: `none` is a `continue`, beside `lastErrno`.
  pub record Connecting : Type 0 where
    pub world : World os
    pub last_errno : ℕ
    pub outcome : Option Outcome

  -- The scope of `wildfd` ends.
  abbrev pub drops : World os → (fd last_errno : ℕ) → Option Outcome → Connecting
  drops w fd last_errno outcome = record {
    world = closes_fd os w fd;
    last_errno = last_errno;
    outcome = outcome;
  }

  -- What follows `_getsockerr`.
  pub answered : (fd : ℕ) → ℕ × os.State → World os → Connecting
  answered fd (err, s) w =
      if err == 0
      then record { world = goes os w s; last_errno = 0; outcome = some (opened fd) }
      else drops (goes os w s) fd err none

  -- What follows `fd::wait`.
  pub waited : (fd last_errno : ℕ) → Bool × os.State → World os → Connecting
  waited fd last_errno (false, s) w = drops (goes os w s) fd last_errno (some thrown)
  waited fd last_errno (true, s) w = answered fd (getsockerr (os.so_error fd s)) (goes os w s)

  -- What follows `::connect`.
  pub connecting : (fd last_errno : ℕ) → Bool × os.State → World os → Connecting
  connecting fd last_errno (ok, s) w =
      if not ok && not (os.errno s == os.einprogress)
      then drops (goes os w s) fd (os.errno s) none
      else waited fd last_errno (os.wait fd s) (goes os w s)

  -- What follows `::socket`.
  pub connect_to : (ai last_errno : ℕ) → Option ℕ × os.State → World os → Connecting
  connect_to ai last_errno (none, s) w = record {
    world = goes os w s;
    last_errno = os.errno s;
    outcome = none;
  }
  connect_to ai last_errno (some fd, s) w =
      connecting fd last_errno (os.connect fd ai s) (uses os (goes os w s) (opens fd))

  pub connect_loop : List ℕ → (last_errno : ℕ) → World os → Outcome × World os
  connect_loop [] last_errno w = (
    if last_errno == 0 then crashed else failed (record { category = system; value = last_errno }),
    w,
  )
  connect_loop (ai ∷ ais) last_errno w =
      let c = connect_to ai last_errno (os.socket ai w.state) w in
      let rest = connect_loop ais c.last_errno c.world in
      elim c.outcome [ none ↦ rest | some o ↦ (o, c.world) ]

  -- `SCOPE_EXIT` frees the addresses.
  abbrev pub scope_exit : Outcome × World os → Outcome × World os
  scope_exit (o, w) = (o, uses os w frees)

  pub connect_all : Option (Option Condition × List ℕ × World os) → World os → Outcome × World os
  connect_all none w = (crashed, w)
  connect_all (some (some err, ais, w')) w = (failed err, w')
  connect_all (some (none, [], w')) w = (crashed, w')
  connect_all (some (none, ai ∷ ais, w')) w = scope_exit (connect_loop (ai ∷ ais) 0 w')

  pub connect : (addr : List ℕ) → World os → Outcome × World os
  connect addr w = connect_all (getaddrinfo os addr false w) w

  -- `addressString`.
  pub address_string : (addr : ℕ) → List ℕ
  address_string addr = elim (os.inet_ntop addr) [
    | none ↦ []
    | some text ↦
        (if os.is_inet addr
          then b't' ∷ b'c' ∷ b'p' ∷ b'4' ∷ b':' ∷ b'/' ∷ b'/' ∷ []
          else b't' ∷ b'c' ∷ b'p' ∷ b'6' ∷ b':' ∷ b'/' ∷ b'/' ∷ [])
        ++ text
  ]

  -- One round of the loop of `accept`: `none` is a `continue`. With the outcome stands `*from`.
  pub refused : (listener : ℕ) → World os → Option (Outcome × List ℕ) × World os
  refused listener w =
      let paused = os.wait listener w.state in
      if os.errno w.state == os.eagain
      then (if paused.0 then none else some (thrown, []), goes os w paused.1)
      else (
        if os.errno w.state == os.eintr then none else some (failed (system_error os w.state), []),
        w,
      )

  pub accepted :
      (listener : ℕ) → Option (ℕ × ℕ) × os.State → World os → Option (Outcome × List ℕ) × World os
  accepted listener (none, s) w = refused listener (goes os w s)
  accepted listener (some (fd, addr), s) w =
      (some (opened fd, address_string addr), uses os (goes os w s) (opens fd))

  -- The loop of `accept`, which waits as long as nobody connects.
  pub accept : (fuel listener : ℕ) → World os → Option ((Outcome × List ℕ) × World os)
  accept zero listener w = none
  accept (suc fuel) listener w =
      let r = accepted listener (os.accept4 listener w.state) w in
      let rest = accept fuel listener r.1 in elim r.0 [ none ↦ rest | some o ↦ some (o, r.1) ]
