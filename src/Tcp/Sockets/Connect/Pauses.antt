-- ===== src/Tcp/Sockets/Connect/Pauses.antt =====
-- `accept` of src/tcp.cpp waits until a connection arrives, and then returns it.
use stp.Prelude.{
  ◌∙◌, ap, ℕ, zero, suc, ◌≡◌, ◌≢◌, refl, true, List, [], ◌∷◌, ◌++◌, Option, none, some, arith,
  ==_refl,
}
use stp.Tcp.Os.{Os}
use stp.Tcp.Sockets.{Use, opens, Outcome, opened, World, goes, uses}
use stp.Tcp.Sockets.Connect.{refused, accepted, accept, address_string}

module _ (os : Os) (listener : ℕ) where
  -- The calls of accept4 in which nobody had connected yet, or a signal came; after the first kind the
  -- coroutine waits for the listener.
  pub data Pauses : ℕ → os.State → os.State → Type 0 where
    arrives : {s : os.State} → Pauses 0 s s
    would_block :
        {n : ℕ} {s t : os.State}
        → (os.accept4 listener s).0 ≡ none
        → os.errno (os.accept4 listener s).1 ≡ os.eagain
        → (os.wait listener (os.accept4 listener s).1).0 ≡ true
        → Pauses n (os.wait listener (os.accept4 listener s).1).1 t
        → Pauses (suc n) s t
    signalled :
        {n : ℕ} {s t : os.State}
        → (os.accept4 listener s).0 ≡ none
        → os.errno (os.accept4 listener s).1 ≢ os.eagain
        → os.errno (os.accept4 listener s).1 ≡ os.eintr
        → Pauses n (os.accept4 listener s).1 t
        → Pauses (suc n) s t

  accepted-none :
      (r : Option (ℕ × ℕ) × os.State) (w : World os)
      → r.0 ≡ none
      → accepted os listener r w ≡ refused os listener (goes os w r.1)
  unfolding accepted
  accepted-none (none, s) w e = refl
  accepted-none (some c, s) w e = absurd (cc e)

  accepted-some :
      (r : Option (ℕ × ℕ) × os.State) (w : World os) (fd peer : ℕ)
      → r.0 ≡ some (fd, peer)
      → accepted os listener r w
        ≡ (some (opened fd, address_string os peer), uses os (goes os w r.1) (opens fd))
  unfolding accepted
  accepted-some (none, s) w fd peer e = absurd (cc e)
  accepted-some (some c, s) w fd peer e = cc e

  refused-eagain :
      (w : World os)
      → os.errno w.state ≡ os.eagain
      → (os.wait listener w.state).0 ≡ true
      → refused os listener w ≡ (none, goes os w (os.wait listener w.state).1)
  unfolding refused
  refused-eagain w e b = rw (e, ==_refl os.eagain, b) refl

  refused-eintr :
      (w : World os)
      → os.errno w.state ≢ os.eagain
      → os.errno w.state ≡ os.eintr
      → refused os listener w ≡ (none, w)
  unfolding refused
  refused-eintr w ne e = ground (arith, ne, e)

  again :
      (n : ℕ) (w v : World os)
      → accepted os listener (os.accept4 listener w.state) w ≡ (none, v)
      → accept os (suc n) listener w ≡ accept os n listener v
  unfolding accept
  again n w v e =
      rw (e, accept) (ap (λ (r : Option (Outcome × List ℕ) × World os). accept os n listener r.1) e)

  -- A connection that arrives after n calls of accept4 that would have blocked or that a signal
  -- interrupted is returned, with the text of its peer, in n + 1 rounds; it is the only descriptor that
  -- was opened.
  pub accept-Pauses :
      (n : ℕ) (s t : os.State) (fd peer : ℕ) (used : List Use)
      → Pauses n s t
      → (os.accept4 listener t).0 ≡ some (fd, peer)
      → accept os (suc n) listener (record { state = s; used = used })
        ≡ some (
          (opened fd, address_string os peer),
          record { state = (os.accept4 listener t).1; used = used ++ opens fd ∷ [] },
        )
  unfolding accept
  accept-Pauses zero s t fd peer used arrives e =
      let got =
        accepted-some (os.accept4 listener s) (record { state = s; used = used }) fd peer e in
      rw (got, accept)
        (ap
          (λ (r : Option (Outcome × List ℕ) × World os).
            some ((opened fd, address_string os peer), r.1))
          got)
  accept-Pauses (suc n) s t fd peer used (would_block nobody err waits p) e =
      let w : World os = record { state = s; used = used } in
      let r = os.accept4 listener s in
      again (suc n) w (goes os w (os.wait listener r.1).1)
        (accepted-none r w nobody ∙ refused-eagain (goes os w r.1) err waits)
      ∙ accept-Pauses n (os.wait listener r.1).1 t fd peer used p e
  accept-Pauses (suc n) s t fd peer used (signalled nobody ne err p) e =
      let w : World os = record { state = s; used = used } in
      let r = os.accept4 listener s in
      again (suc n) w (goes os w r.1)
        (accepted-none r w nobody ∙ refused-eintr (goes os w r.1) ne err)
      ∙ accept-Pauses n r.1 t fd peer used p e
