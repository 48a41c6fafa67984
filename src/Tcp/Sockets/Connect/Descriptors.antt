-- ===== src/Tcp/Sockets/Connect/Descriptors.antt =====
-- `connect` and `accept` of src/tcp.cpp leak no descriptor, whatever the operating system answers.
use stp.Prelude.{
  ℕ, zero, suc, ◌≡◌, refl, subst, inl, inr, Bool, true, false, not, ◌&&◌, List, [], ◌∷◌, Option,
  none, some, arith, ◌==◌, Bool-cases, Option-cases,
}
use stp.Tcp.Os.{Os}
use stp.Tcp.{parse}
use stp.Tcp.Sockets.{opens, Condition, Outcome, World, goes, uses, getaddrinfo}
use stp.Tcp.Sockets.Connect.{
  answered, waited, connecting, connect_to, connect_loop, connect_all, connect, getsockerr, refused,
  accepted, accept,
}
use stp.Tcp.Sockets.Listen.{getaddrinfo-Leaves}
use stp.Tcp.Sockets.Uses.{
  returned, Leaves, opens-Leaves, closes-Leaves, frees-Leaves, goes-Leaves, Leaves-refl,
}

-- What one round of `connect` hands out.
abbrev kept : Option Outcome → List ℕ
kept none = []
kept (some o) = returned o

-- What one round of `accept` hands out.
abbrev handed : Option (Outcome × List ℕ) → List ℕ
handed none = []
handed (some (o, from)) = returned o

module _ (os : Os) where
  answered-Leaves :
      {w : World os} (fd : ℕ) (r : ℕ × os.State) (w' : World os)
      → Leaves w w' (fd ∷ [])
      → Leaves w (answered os fd r w').world (kept (answered os fd r w').outcome)
  unfolding answered
  answered-Leaves fd (err, s) w' h = elim (Bool-cases (err == 0)) [
    | inl e ↦ rw e (goes-Leaves s h)
    | inr e ↦ rw e (closes-Leaves fd (goes-Leaves s h))
  ]

  waited-Leaves :
      {w : World os} (fd last_errno : ℕ) (r : Bool × os.State) (w' : World os)
      → Leaves w w' (fd ∷ [])
      → Leaves w (waited os fd last_errno r w').world (kept (waited os fd last_errno r w').outcome)
  unfolding waited
  waited-Leaves fd last_errno (false, s) w' h = closes-Leaves fd (goes-Leaves s h)
  waited-Leaves fd last_errno (true, s) w' h =
      answered-Leaves fd (getsockerr os (os.so_error fd s)) (goes os w' s) (goes-Leaves s h)

  connecting-Leaves :
      {w : World os} (fd last_errno : ℕ) (r : Bool × os.State) (w' : World os)
      → Leaves w w' (fd ∷ [])
      → Leaves w
          (connecting os fd last_errno r w').world
          (kept (connecting os fd last_errno r w').outcome)
  unfolding connecting
  connecting-Leaves fd last_errno (ok, s) w' h =
      elim (Bool-cases (not ok && not (os.errno s == os.einprogress))) [
        | inl e ↦ rw e (closes-Leaves fd (goes-Leaves s h))
        | inr e ↦ rw e (waited-Leaves fd last_errno (os.wait fd s) (goes os w' s) (goes-Leaves s h))
      ]

  connect_to-Leaves :
      {w : World os} (ai last_errno : ℕ) (r : Option ℕ × os.State) (w' : World os)
      → Leaves w w' []
      → Leaves w
          (connect_to os ai last_errno r w').world
          (kept (connect_to os ai last_errno r w').outcome)
  unfolding connect_to
  connect_to-Leaves ai last_errno (none, s) w' h = goes-Leaves s h
  connect_to-Leaves ai last_errno (some fd, s) w' h =
      connecting-Leaves fd last_errno (os.connect fd ai s) (uses os (goes os w' s) (opens fd))
        (opens-Leaves s fd h)

  connect_loop-Leaves :
      {w : World os} (ais : List ℕ) (last_errno : ℕ) (w' : World os)
      → Leaves w w' []
      → Leaves w
          (connect_loop os ais last_errno w').1
          (returned (connect_loop os ais last_errno w').0)
  unfolding connect_loop
  connect_loop-Leaves [] last_errno w' h = elim (Bool-cases (last_errno == 0)) [
    | inl e ↦ rw e h
    | inr e ↦ rw e h
  ]
  connect_loop-Leaves {w} (ai ∷ ais) last_errno w' h =
      let c = connect_to os ai last_errno (os.socket ai w'.state) w' in
      let k : Leaves w c.world (kept c.outcome) =
        connect_to-Leaves ai last_errno (os.socket ai w'.state) w' h in
      elim (Option-cases c.outcome) [
        | inl e ↦
            rw (e, connect_loop, returned)
              (connect_loop-Leaves ais c.last_errno c.world
                (subst (λ o. Leaves w c.world (kept o)) e k))
        | inr (o, e) ↦ rw (e, connect_loop, returned) (subst (λ x. Leaves w c.world (kept x)) e k)
      ]

  connect_all-Leaves :
      (r : Option (Option Condition × List ℕ × World os)) (w : World os)
      → ((err : Option Condition) (ais : List ℕ) (w' : World os)
          → r ≡ some (err, ais, w')
          → Leaves w w' [])
      → Leaves w (connect_all os r w).1 (returned (connect_all os r w).0)
  unfolding connect_all
  connect_all-Leaves none w h = Leaves-refl w
  connect_all-Leaves (some (some err, ais, w')) w h = h (some err) ais w' refl
  connect_all-Leaves (some (none, [], w')) w h = h none [] w' refl
  connect_all-Leaves (some (none, ai ∷ ais, w')) w h =
      frees-Leaves (connect_loop-Leaves (ai ∷ ais) 0 w' (h none (ai ∷ ais) w' refl))

  -- connect, whatever the operating system answers and also when it is interrupted while it waits,
  -- leaves open the descriptor that it returns and no other: each that it opened else it closed, as
  -- often as it was opened.
  pub connect-Leaves :
      (addr : List ℕ) (w : World os)
      → Leaves w (connect os addr w).1 (returned (connect os addr w).0)
  unfolding connect getaddrinfo
  connect-Leaves addr w =
      connect_all-Leaves (getaddrinfo os addr false w) w
        (getaddrinfo-Leaves os (parse addr) false w)

  refused-Leaves :
      {w : World os} (listener : ℕ) (w' : World os)
      → Leaves w w' []
      → Leaves w (refused os listener w').1 (handed (refused os listener w').0)
  unfolding refused
  refused-Leaves listener w' h = elim (Bool-cases (os.errno w'.state == os.eagain)) [
    | inl e ↦ elim (Bool-cases (os.wait listener w'.state).0) [
      | inl b ↦ rw (e, b) (goes-Leaves (os.wait listener w'.state).1 h)
      | inr b ↦ rw (e, b) (goes-Leaves (os.wait listener w'.state).1 h)
    ]
    | inr e ↦ elim (Bool-cases (os.errno w'.state == os.eintr)) [
      | inl b ↦ rw (e, b) h
      | inr b ↦ rw (e, b) h
    ]
  ]

  accepted-Leaves :
      {w : World os} (listener : ℕ) (r : Option (ℕ × ℕ) × os.State) (w' : World os)
      → Leaves w w' []
      → Leaves w (accepted os listener r w').1 (handed (accepted os listener r w').0)
  unfolding accepted
  accepted-Leaves listener (none, s) w' h = refused-Leaves listener (goes os w' s) (goes-Leaves s h)
  accepted-Leaves listener (some (fd, addr), s) w' h = opens-Leaves s fd h

  accept_from-Leaves :
      {w : World os} (fuel listener : ℕ) (w' v : World os) (o : Outcome) (from : List ℕ)
      → Leaves w w' []
      → accept os fuel listener w' ≡ some ((o, from), v)
      → Leaves w v (returned o)
  unfolding accept
  accept_from-Leaves zero listener w' v o from h e = absurd (cc e)
  accept_from-Leaves {w} (suc fuel) listener w' v o from h e =
      let r = accepted os listener (os.accept4 listener w'.state) w' in
      let k : Leaves w r.1 (handed r.0) =
        accepted-Leaves listener (os.accept4 listener w'.state) w' h in
      elim (Option-cases r.0) [
        | inl n ↦
            accept_from-Leaves fuel listener r.1 v o from (subst (λ x. Leaves w r.1 (handed x)) n k)
              (ground (arith, n, e))
        | inr ((x, text), n) ↦
            let same : r.1 ≡ v = ground (arith, n, e) in
            let out : x ≡ o = ground (arith, n, e) in
            subst (λ z. Leaves w z (returned o)) same
              (subst (λ z. Leaves w r.1 (returned z)) out
                (subst (λ z. Leaves w r.1 (handed z)) n k))
      ]

  -- accept, if it ends, leaves open the descriptor that it returns and no other.
  pub accept-Leaves :
      (fuel listener : ℕ) (w v : World os) (o : Outcome) (from : List ℕ)
      → accept os fuel listener w ≡ some ((o, from), v)
      → Leaves w v (returned o)
  accept-Leaves fuel listener w v o from e =
      accept_from-Leaves fuel listener w v o from (Leaves-refl w) e
