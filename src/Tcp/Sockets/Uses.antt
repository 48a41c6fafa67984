-- ===== src/Tcp/Sockets/Uses.antt =====
-- What a run of src/tcp.cpp leaves open, by what it opened and closed.
use stp.Prelude.{ℕ, ◌+◌, ◌≡◌, List, [], ◌∷◌, ◌++◌, arith, one_if, occurs}
use stp.Tcp.Os.{Os}
use stp.Tcp.Sockets.{
  Use, opens, closes, allocates, frees, Outcome, opened, failed, crashed, thrown, World, goes, uses,
  closes_fd,
}

-- How often a descriptor was opened, less how often it was closed, is compared on both sides.
abbrev pub opened_in : (fd : ℕ) → List Use → ℕ
opened_in fd [] = 0
opened_in fd (opens x ∷ l) = one_if x fd + opened_in fd l
opened_in fd (closes x ∷ l) = opened_in fd l
opened_in fd (allocates ∷ l) = opened_in fd l
opened_in fd (frees ∷ l) = opened_in fd l

abbrev pub closed_in : (fd : ℕ) → List Use → ℕ
closed_in fd [] = 0
closed_in fd (opens x ∷ l) = closed_in fd l
closed_in fd (closes x ∷ l) = one_if x fd + closed_in fd l
closed_in fd (allocates ∷ l) = closed_in fd l
closed_in fd (frees ∷ l) = closed_in fd l

opened_in-append :
    (fd : ℕ) (l : List Use) (u : Use)
    → opened_in fd (l ++ u ∷ []) ≡ opened_in fd l + opened_in fd (u ∷ [])
opened_in-append fd [] u = omega arith
opened_in-append fd (opens x ∷ l) u = omega (arith, opened_in-append fd l u)
opened_in-append fd (closes x ∷ l) u = opened_in-append fd l u
opened_in-append fd (allocates ∷ l) u = opened_in-append fd l u
opened_in-append fd (frees ∷ l) u = opened_in-append fd l u

closed_in-append :
    (fd : ℕ) (l : List Use) (u : Use)
    → closed_in fd (l ++ u ∷ []) ≡ closed_in fd l + closed_in fd (u ∷ [])
closed_in-append fd [] u = omega arith
closed_in-append fd (opens x ∷ l) u = closed_in-append fd l u
closed_in-append fd (closes x ∷ l) u = omega (arith, closed_in-append fd l u)
closed_in-append fd (allocates ∷ l) u = closed_in-append fd l u
closed_in-append fd (frees ∷ l) u = closed_in-append fd l u

-- The descriptor that a call hands out.
abbrev pub returned : Outcome → List ℕ
returned (opened fd) = fd ∷ []
returned (failed c) = []
returned crashed = []
returned thrown = []

-- Beside what was open in `w`, the descriptors of `fds` are open in `w'`, each opened once more
-- than it was closed, and nothing else.
pub record Leaves {os : Os} (w w' : World os) (fds : List ℕ) : Type 0 where
  pub net :
      (fd : ℕ)
      → opened_in fd w'.used + closed_in fd w.used
        ≡ opened_in fd w.used + closed_in fd w'.used + occurs fd fds

module _ {os : Os} where
  pub opens-Leaves :
      {w w' : World os} {fds : List ℕ} (s : os.State) (fd : ℕ)
      → Leaves w w' fds
      → Leaves w (uses os (goes os w' s) (opens fd)) (fd ∷ fds)
  opens-Leaves {w'} s fd h = record {
    net = λ x. omega (
      arith,
      h.net x,
      opened_in-append x w'.used (opens fd),
      closed_in-append x w'.used (opens fd),
    );
  }

  pub closes-Leaves :
      {w w' : World os} {fds : List ℕ} (fd : ℕ)
      → Leaves w w' (fd ∷ fds)
      → Leaves w (closes_fd os w' fd) fds
  closes-Leaves {w'} fd h = record {
    net = λ x. omega (
      arith,
      h.net x,
      opened_in-append x w'.used (closes fd),
      closed_in-append x w'.used (closes fd),
    );
  }

  pub frees-Leaves :
      {w w' : World os} {fds : List ℕ} → Leaves w w' fds → Leaves w (uses os w' frees) fds
  frees-Leaves {w'} h = record {
    net = λ x.
        omega (arith, h.net x, opened_in-append x w'.used frees, closed_in-append x w'.used frees);
  }

  pub allocates-Leaves :
      {w w' : World os} {fds : List ℕ} → Leaves w w' fds → Leaves w (uses os w' allocates) fds
  allocates-Leaves {w'} h = record {
    net = λ x. omega (
      arith,
      h.net x,
      opened_in-append x w'.used allocates,
      closed_in-append x w'.used allocates,
    );
  }

  pub goes-Leaves :
      {w w' : World os} {fds : List ℕ} (s : os.State)
      → Leaves w w' fds
      → Leaves w (goes os w' s) fds
  goes-Leaves s h = record { net = h.net }

  pub Leaves-refl : (w : World os) → Leaves w w []
  Leaves-refl w = record { net = λ x. omega arith }
