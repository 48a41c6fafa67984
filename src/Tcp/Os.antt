-- ===== src/Tcp/Os.antt =====
-- What src/tcp.cpp asks of the operating system, and of the coroutine that runs it.
--
-- An address that `getaddrinfo` finds is a number. A call gives the state after it; -1 is `none` or
-- `false`.
use stp.Prelude.{ℕ, Bool, List, Option, ◌≡◌, ◌≢◌, none, false}
use stp.Tcp.{Family}

-- What `getaddrinfo` returns: 0 and a list of addresses, EAI_SYSTEM, or another code.
pub data Found : Type 0 where
  found : List ℕ → Found
  eai_system : Found
  gai_failed : (code : ℕ) → Found

pub record Os : Type 1 where
  pub State : Type 0
  pub errno : State → ℕ
  pub eagain : ℕ
  pub eintr : ℕ
  pub einprogress : ℕ
  pub getaddrinfo :
      Family → (host : Option (List ℕ)) → (port : List ℕ) → (passive : Bool) → State → Found × State
  pub socket : (ai : ℕ) → State → Option ℕ × State
  pub set_reuse : (fd : ℕ) → State → Bool × State
  pub bind : (fd ai : ℕ) → State → Bool × State
  pub listen : (fd : ℕ) → State → Bool × State
  pub connect : (fd ai : ℕ) → State → Bool × State
  pub so_error : (fd : ℕ) → State → Option ℕ × State
  -- the descriptor and the address of the peer
  pub accept4 : (listener : ℕ) → State → Option (ℕ × ℕ) × State
  pub close : (fd : ℕ) → State → State
  -- `fd::wait`, which blocks the coroutine: `false` when it is interrupted and throws
  pub wait : (fd : ℕ) → State → Bool × State
  -- whether an address is of AF_INET, and what `inet_ntop` writes
  pub is_inet : (addr : ℕ) → Bool
  pub inet_ntop : (addr : ℕ) → Option (List ℕ)

-- The documented behaviour of errno: a call that fails sets it to a positive number, and no call sets
-- it to 0. EINPROGRESS is not 0.
pub record SetsErrno (os : Os) : Type 0 where
  pub eai_system-errno :
      (f : Family) (host : Option (List ℕ)) (port : List ℕ) (passive : Bool) (s : os.State)
      → (os.getaddrinfo f host port passive s).0 ≡ eai_system
      → os.errno (os.getaddrinfo f host port passive s).1 ≢ 0
  pub socket-errno :
      (ai : ℕ) (s : os.State) → (os.socket ai s).0 ≡ none → os.errno (os.socket ai s).1 ≢ 0
  pub set_reuse-errno :
      (fd : ℕ) (s : os.State) → (os.set_reuse fd s).0 ≡ false → os.errno (os.set_reuse fd s).1 ≢ 0
  pub bind-errno :
      (fd ai : ℕ) (s : os.State) → (os.bind fd ai s).0 ≡ false → os.errno (os.bind fd ai s).1 ≢ 0
  pub listen-errno :
      (fd : ℕ) (s : os.State) → (os.listen fd s).0 ≡ false → os.errno (os.listen fd s).1 ≢ 0
  pub connect-errno :
      (fd ai : ℕ) (s : os.State)
      → (os.connect fd ai s).0 ≡ false
      → os.errno (os.connect fd ai s).1 ≢ 0
  pub so_error-errno :
      (fd : ℕ) (s : os.State) → (os.so_error fd s).0 ≡ none → os.errno (os.so_error fd s).1 ≢ 0
  pub close-errno : (fd : ℕ) (s : os.State) → os.errno s ≢ 0 → os.errno (os.close fd s) ≢ 0
