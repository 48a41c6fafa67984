-- ===== src/Tcp/Sockets/Listen.antt =====
-- `listen` of src/tcp.cpp leaks no descriptor, whatever the operating system answers.
use stp.Prelude.{
  ℕ, ◌≡◌, refl, subst, inl, inr, Bool, true, false, List, [], ◌∷◌, Option, none, some, ◌==◌, leb,
  length, Bool-cases,
}
use stp.Tcp.Os.{Os, Found, found, eai_system, gai_failed}
use stp.Tcp.{Parsed, illegal, aborted, parsed, parse}
use stp.Tcp.Sockets.{
  opens, frees, Condition, World, goes, uses, closes_fd, addresses, getaddrinfo_of, getaddrinfo,
  prepare, Listening, prepared, listen_on, listen_loop, closen, one_socket, listen_to, listen,
}
use stp.Tcp.Sockets.Uses.{
  returned, Leaves, opens-Leaves, closes-Leaves, frees-Leaves, allocates-Leaves, goes-Leaves,
  Leaves-refl,
}

module _ (os : Os) where
  addresses-Leaves : (r : Found × os.State) (w : World os) → Leaves w (addresses os r w).2 []
  unfolding addresses
  addresses-Leaves (found [], s) w = goes-Leaves s (Leaves-refl w)
  addresses-Leaves (found (ai ∷ ais), s) w = allocates-Leaves (goes-Leaves s (Leaves-refl w))
  addresses-Leaves (eai_system, s) w = elim (Bool-cases (os.errno s == 0)) [
    | inl e ↦ rw e (goes-Leaves s (Leaves-refl w))
    | inr e ↦ rw e (goes-Leaves s (Leaves-refl w))
  ]
  addresses-Leaves (gai_failed code, s) w = goes-Leaves s (Leaves-refl w)

  prepared-Leaves :
      {w : World os} (fd : ℕ) (r : Bool × os.State) (l : Listening os)
      → Leaves w l.world (fd ∷ l.sockets)
      → Leaves w (prepared os fd r l).world (prepared os fd r l).sockets
  unfolding prepared
  prepared-Leaves fd (true, s) l h = goes-Leaves s h
  prepared-Leaves fd (false, s) l h = closes-Leaves fd (goes-Leaves s h)

  listen_on-Leaves :
      {w : World os} (ai : ℕ) (r : Option ℕ × os.State) (l : Listening os)
      → Leaves w l.world l.sockets
      → Leaves w (listen_on os ai r l).world (listen_on os ai r l).sockets
  unfolding listen_on
  listen_on-Leaves ai (none, s) l h = goes-Leaves s h
  listen_on-Leaves ai (some fd, s) l h =
      prepared-Leaves fd (prepare os fd ai s)
        (record l { world = uses os (goes os l.world s) (opens fd) }) (opens-Leaves s fd h)

  listen_loop-Leaves :
      {w : World os} (ais : List ℕ) (l : Listening os)
      → Leaves w l.world l.sockets
      → Leaves w (listen_loop os ais l).world (listen_loop os ais l).sockets
  unfolding listen_loop
  listen_loop-Leaves [] l h = h
  listen_loop-Leaves (ai ∷ ais) l h = elim (Bool-cases (leb 2 (length l.sockets))) [
    | inl e ↦ rw e h
    | inr e ↦ rw e (
        listen_loop-Leaves ais (listen_on os ai (os.socket ai l.world.state) l)
          (listen_on-Leaves ai (os.socket ai l.world.state) l h))
  ]

  closen-Leaves :
      {w : World os} (w' : World os) (fds : List ℕ)
      → Leaves w w' fds
      → Leaves w (closen os w' fds) []
  unfolding closen
  closen-Leaves w' [] h = h
  closen-Leaves w' (fd ∷ fds) h = closen-Leaves (closes_fd os w' fd) fds (closes-Leaves fd h)

  one_socket-Leaves :
      {w : World os} (l : Listening os)
      → Leaves w l.world l.sockets
      → Leaves w (one_socket os l).1 (returned (one_socket os l).0)
  unfolding one_socket
  one_socket-Leaves {w} l h = by_sockets l.sockets refl
    where
      by_sockets :
          (fds : List ℕ)
          → l.sockets ≡ fds
          → Leaves w (one_socket os l).1 (returned (one_socket os l).0)
      by_sockets [] e = elim (Bool-cases (l.last_errno == 0)) [
        | inl z ↦ rw (e, z) (subst (Leaves w l.world) e h)
        | inr z ↦ rw (e, z) (subst (Leaves w l.world) e h)
      ]
      by_sockets (fd ∷ []) e = rw e (subst (Leaves w l.world) e h)
      by_sockets (fd ∷ more ∷ fds) e =
          rw e (closen-Leaves l.world (fd ∷ more ∷ fds) (subst (Leaves w l.world) e h))

  listen_to-Leaves :
      (r : Option (Option Condition × List ℕ × World os)) (w : World os)
      → ((err : Option Condition) (ais : List ℕ) (w' : World os)
          → r ≡ some (err, ais, w')
          → Leaves w w' [])
      → Leaves w (listen_to os r w).1 (returned (listen_to os r w).0)
  unfolding listen_to
  listen_to-Leaves none w h = Leaves-refl w
  listen_to-Leaves (some (some err, ais, w')) w h = h (some err) ais w' refl
  listen_to-Leaves (some (none, ais, w')) w h =
      let l = listen_loop os ais (record { world = w'; sockets = []; last_errno = 0 }) in
      one_socket-Leaves (record l { world = uses os l.world frees })
        (frees-Leaves (
          listen_loop-Leaves ais (record { world = w'; sockets = []; last_errno = 0 })
            (h none ais w' refl)))

  pub getaddrinfo-Leaves :
      (p : Parsed) (passive : Bool) (w : World os) (err : Option Condition) (ais : List ℕ)
      (w' : World os)
      → getaddrinfo_of os p passive w ≡ some (err, ais, w')
      → Leaves w w' []
  unfolding getaddrinfo_of
  getaddrinfo-Leaves illegal passive w err ais w' e =
      let same : w ≡ w' = cc e in subst (λ x. Leaves w x []) same (Leaves-refl w)
  getaddrinfo-Leaves aborted passive w err ais w' e = absurd (cc e)
  getaddrinfo-Leaves (parsed family host port) passive w err ais w' e =
      let r = os.getaddrinfo family host port passive w.state in
      let same : (addresses os r w).2 ≡ w' = cc e in
      subst (λ x. Leaves w x []) same (addresses-Leaves r w)

  -- listen, whatever the operating system answers, leaves open the descriptor that it returns and no
  -- other: each that it opened else it closed, as often as it was opened.
  pub listen-Leaves :
      (addr : List ℕ) (w : World os) → Leaves w (listen os addr w).1 (returned (listen os addr w).0)
  unfolding listen getaddrinfo
  listen-Leaves addr w =
      listen_to-Leaves (getaddrinfo os addr true w) w (getaddrinfo-Leaves (parse addr) true w)
