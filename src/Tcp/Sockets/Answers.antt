-- ===== src/Tcp/Sockets/Answers.antt =====
-- `listen` of src/tcp.cpp fails no assertion, and gives back the addresses.
use stp.Prelude.{
  ℕ, ◌≡◌, ◌≢◌, refl, inl, inr, Bool, true, false, List, [], ◌∷◌, Option, none, some, arith, leb,
  length, Bool-cases,
}
use stp.Tcp.{Family, Parsed, illegal, aborted, parsed, parse}
use stp.Tcp.Parse.{parse-ne-aborted}
use stp.Tcp.Os.{Os, SetsErrno, Found, found, eai_system, gai_failed}
use stp.Tcp.Sockets.{
  uses, frees, Condition, crashed, World, addresses, getaddrinfo_of, getaddrinfo, prepare,
  Listening, prepared, listen_on, listen_loop, one_socket, listen_to, listen,
}

module _ (os : Os) (errno : SetsErrno os) where
  prepare-errno :
      (fd ai : ℕ) (s : os.State)
      → (prepare os fd ai s).0 ≡ false
      → os.errno (prepare os fd ai s).1 ≢ 0
  unfolding prepare
  prepare-errno fd ai s h = elim (Bool-cases (os.set_reuse fd s).0) [
    | inr e ↦ rw e (errno.set_reuse-errno fd s e)
    | inl e ↦ elim (Bool-cases (os.bind fd ai (os.set_reuse fd s).1).0) [
      | inr b ↦ rw (e, b) (errno.bind-errno fd ai (os.set_reuse fd s).1 b)
      | inl b ↦
          rw (e, b)
            (errno.listen-errno fd (os.bind fd ai (os.set_reuse fd s).1).1
              (ground (arith, h, e, b)))
    ]
  ]

  -- A socket was opened, or there is an error to report.
  abbrev Answers : Listening os → Type 0
  Answers l = l.sockets ≡ [] → l.last_errno ≢ 0

  prepared-Answers :
      (fd : ℕ) (r : Bool × os.State) (l : Listening os)
      → (r.0 ≡ false → os.errno r.1 ≢ 0)
      → Answers (prepared os fd r l)
  unfolding prepared
  prepared-Answers fd (true, s) l h e = absurd (cc e)
  prepared-Answers fd (false, s) l h e = errno.close-errno fd s (h refl)

  listen_on-Answers :
      (ai : ℕ) (s : os.State) (l : Listening os) → Answers (listen_on os ai (os.socket ai s) l)
  unfolding listen_on
  listen_on-Answers ai s l = by_socket (os.socket ai s) (errno.socket-errno ai s)
    where
      by_socket :
          (r : Option ℕ × os.State)
          → (r.0 ≡ none → os.errno r.1 ≢ 0)
          → Answers (listen_on os ai r l)
      by_socket (none, t) h = λ e. h refl
      by_socket (some fd, t) h = prepared-Answers fd (prepare os fd ai t) _ (prepare-errno fd ai t)

  listen_loop-Answers :
      (ais : List ℕ) (l : Listening os) → Answers l → Answers (listen_loop os ais l)
  unfolding listen_loop
  listen_loop-Answers [] l h = h
  listen_loop-Answers (ai ∷ ais) l h = elim (Bool-cases (leb 2 (length l.sockets))) [
    | inl e ↦ rw e h
    | inr e ↦ rw e (
        listen_loop-Answers ais (listen_on os ai (os.socket ai l.world.state) l)
          (listen_on-Answers ai l.world.state l))
  ]

  one_socket-ne-crashed : (l : Listening os) → Answers l → (one_socket os l).0 ≢ crashed
  unfolding one_socket
  one_socket-ne-crashed l h = by_sockets l.sockets refl
    where
      by_sockets : (fds : List ℕ) → l.sockets ≡ fds → (one_socket os l).0 ≢ crashed
      by_sockets [] e = ground (arith, h e, e)
      by_sockets (fd ∷ []) e = ground (arith, e)
      by_sockets (fd ∷ more ∷ fds) e = ground (arith, e)

  addresses-Answers :
      (f : Family) (host : Option (List ℕ)) (port : List ℕ) (passive : Bool) (w v : World os)
      (ais : List ℕ)
      → addresses os (os.getaddrinfo f host port passive w.state) w ≡ (none, ais, v)
      → ais ≢ []
  unfolding addresses
  addresses-Answers f host port passive w v ais =
      by_found (os.getaddrinfo f host port passive w.state)
        (errno.eai_system-errno f host port passive w.state)
    where
      by_found :
          (r : Found × os.State)
          → (r.0 ≡ eai_system → os.errno r.1 ≢ 0)
          → addresses os r w ≡ (none, ais, v)
          → ais ≢ []
      by_found (found [], t) h e = λ z. cc
      by_found (found (ai ∷ rest), t) h e = λ z. absurd (cc (e, z))
      by_found (eai_system, t) h e = λ z. ground (arith, h refl, e)
      by_found (gai_failed code, t) h e = λ z. cc

  getaddrinfo_of-Answers :
      (p : Parsed) (passive : Bool) (w v : World os) (ais : List ℕ)
      → getaddrinfo_of os p passive w ≡ some (none, ais, v)
      → ais ≢ []
  unfolding getaddrinfo_of
  getaddrinfo_of-Answers illegal passive w v ais e = λ z. cc
  getaddrinfo_of-Answers aborted passive w v ais e = λ z. cc
  getaddrinfo_of-Answers (parsed family host port) passive w v ais e =
      addresses-Answers family host port passive w v ais (cc e)

  pub getaddrinfo-Answers :
      (addr : List ℕ) (passive : Bool) (w v : World os) (ais : List ℕ)
      → getaddrinfo os addr passive w ≡ some (none, ais, v)
      → ais ≢ []
  unfolding getaddrinfo
  getaddrinfo-Answers addr passive w v ais e = getaddrinfo_of-Answers (parse addr) passive w v ais e

  pub getaddrinfo-some :
      (addr : List ℕ) (passive : Bool) (w : World os) → getaddrinfo os addr passive w ≢ none
  unfolding getaddrinfo getaddrinfo_of
  getaddrinfo-some addr passive w = by_parse (parse addr) (parse-ne-aborted addr)
    where
      by_parse : (p : Parsed) → p ≢ aborted → getaddrinfo_of os p passive w ≢ none
      by_parse illegal h = λ e. cc
      by_parse aborted h = λ e. h refl
      by_parse (parsed family host port) h = λ e. cc

  -- listen fails no assertion, whatever address it is given, where the calls of the operating system
  -- set errno as they are documented to.
  pub listen-ne-crashed : (addr : List ℕ) (w : World os) → (listen os addr w).0 ≢ crashed
  unfolding listen listen_to listen_loop
  listen-ne-crashed addr w =
      by_addresses (getaddrinfo os addr true w) (getaddrinfo-some addr true w)
        (getaddrinfo-Answers addr true w)
    where
      by_addresses :
          (r : Option (Option Condition × List ℕ × World os))
          → r ≢ none
          → ((v : World os) (ais : List ℕ) → r ≡ some (none, ais, v) → ais ≢ [])
          → (listen_to os r w).0 ≢ crashed
      by_addresses none some_found h = λ e. some_found refl
      by_addresses (some (some err, ais, v)) some_found h = λ e. cc
      by_addresses (some (none, [], v)) some_found h = λ e. h v [] refl refl
      by_addresses (some (none, ai ∷ ais, v)) some_found h =
          let l0 : Listening os = record { world = v; sockets = []; last_errno = 0 } in
          let first : Listening os = listen_on os ai (os.socket ai v.state) l0 in
          let l = listen_loop os ais first in
          one_socket-ne-crashed (record l { world = uses os l.world frees })
            (listen_loop-Answers ais first (listen_on-Answers ai v.state l0))
