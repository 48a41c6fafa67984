-- ===== src/Tcp/Sockets/Connect/Answers.antt =====
-- `connect` of src/tcp.cpp fails no assertion.
use stp.Prelude.{
  ℕ, ◌≡◌, ◌≢◌, subst, refl, inl, inr, Bool, true, false, List, [], ◌∷◌, Option, none, some, arith,
  ◌==◌, Bool-cases, Option-cases,
}
use stp.Tcp.Os.{Os, SetsErrno}
use stp.Tcp.Sockets.{Condition, Outcome, opens, crashed, World, goes, uses, getaddrinfo}
use stp.Tcp.Sockets.Answers.{getaddrinfo-Answers, getaddrinfo-some}
use stp.Tcp.Sockets.Connect.{
  getsockerr, answered, waited, connecting, connect_to, connect_loop, connect_all, connect,
}

module _ (os : Os) (errno : SetsErrno os) where
  -- A round that goes on has an error to report, and one that ends did not crash.
  abbrev Reports : Option Outcome → (last_errno : ℕ) → Type 0
  Reports none last_errno = last_errno ≢ 0
  Reports (some o) last_errno = o ≢ crashed

  answered-Reports :
      (fd : ℕ) (r : ℕ × os.State) (w : World os)
      → Reports (answered os fd r w).outcome (answered os fd r w).last_errno
  unfolding answered
  answered-Reports fd (err, s) w = elim (Bool-cases (err == 0)) [
    | inl e ↦ rw e (λ x. cc)
    | inr e ↦ rw e (ground (arith, e))
  ]

  waited-Reports :
      (fd last_errno : ℕ) (r : Bool × os.State) (w : World os)
      → Reports (waited os fd last_errno r w).outcome (waited os fd last_errno r w).last_errno
  unfolding waited
  waited-Reports fd last_errno (false, s) w = λ x. cc
  waited-Reports fd last_errno (true, s) w =
      answered-Reports fd (getsockerr os (os.so_error fd s)) (goes os w s)

  connecting-Reports :
      (fd last_errno : ℕ) (r : Bool × os.State) (w : World os)
      → (r.0 ≡ false → os.errno r.1 ≢ 0)
      → Reports
          (connecting os fd last_errno r w).outcome
          (connecting os fd last_errno r w).last_errno
  unfolding connecting
  connecting-Reports fd last_errno (true, s) w h =
      waited-Reports fd last_errno (os.wait fd s) (goes os w s)
  connecting-Reports fd last_errno (false, s) w h =
      elim (Bool-cases (os.errno s == os.einprogress)) [
        | inr e ↦ rw e (h refl)
        | inl e ↦ rw e (waited-Reports fd last_errno (os.wait fd s) (goes os w s))
      ]

  connect_to-Reports :
      (ai last_errno : ℕ) (r : Option ℕ × os.State) (w : World os)
      → (r.0 ≡ none → os.errno r.1 ≢ 0)
      → Reports
          (connect_to os ai last_errno r w).outcome
          (connect_to os ai last_errno r w).last_errno
  unfolding connect_to
  connect_to-Reports ai last_errno (none, s) w h = h refl
  connect_to-Reports ai last_errno (some fd, s) w h =
      connecting-Reports fd last_errno (os.connect fd ai s) (uses os (goes os w s) (opens fd))
        (errno.connect-errno fd ai s)

  connect_loop-Reports :
      (ais : List ℕ) (last_errno : ℕ) (w : World os)
      → (ais ≡ [] → last_errno ≢ 0)
      → (connect_loop os ais last_errno w).0 ≢ crashed
  unfolding connect_loop
  connect_loop-Reports [] last_errno w h = ground (arith, h refl)
  connect_loop-Reports (ai ∷ ais) last_errno w h =
      let c = connect_to os ai last_errno (os.socket ai w.state) w in
      let k : Reports c.outcome c.last_errno =
        connect_to-Reports ai last_errno (os.socket ai w.state) w (errno.socket-errno ai w.state) in
      elim (Option-cases c.outcome) [
        | inl e ↦
            rw (e, connect_loop)
              (connect_loop-Reports ais c.last_errno c.world
                (λ z. subst (λ o. Reports o c.last_errno) e k))
        | inr (o, e) ↦ rw (e, connect_loop) (subst (λ x. Reports x c.last_errno) e k)
      ]

  -- connect fails no assertion and follows no null pointer, whatever address it is given, where the
  -- calls of the operating system set errno as they are documented to.
  pub connect-ne-crashed : (addr : List ℕ) (w : World os) → (connect os addr w).0 ≢ crashed
  unfolding connect connect_all
  connect-ne-crashed addr w =
      by_addresses (getaddrinfo os addr false w) (getaddrinfo-some os errno addr false w)
        (getaddrinfo-Answers os errno addr false w)
    where
      by_addresses :
          (r : Option (Option Condition × List ℕ × World os))
          → r ≢ none
          → ((v : World os) (ais : List ℕ) → r ≡ some (none, ais, v) → ais ≢ [])
          → (connect_all os r w).0 ≢ crashed
      by_addresses none some_found h = λ e. some_found refl
      by_addresses (some (some err, ais, v)) some_found h = λ e. cc
      by_addresses (some (none, [], v)) some_found h = λ e. h v [] refl refl
      by_addresses (some (none, ai ∷ ais, v)) some_found h =
          connect_loop-Reports (ai ∷ ais) 0 v (λ z. absurd (cc z))
