-- ===== src/Tcp/Sockets/Connect/Examples.antt =====
-- The theorems on sockets at a machine whose descriptors are numbered from 3 on: an address other
-- than 1 cannot be bound, one other than 2 cannot be connected to, and somebody connects to a
-- listener once it was waited for.
use stp.Prelude.{
  ℕ, ◌+◌, ◌≡◌, ◌≢◌, refl, Bool, true, false, List, [], ◌∷◌, Option, none, some, arith, ◌==◌,
}
use stp.Tcp.Os.{Os, SetsErrno, found}
use stp.Tcp.Sockets.{opens, crashed, opened, World, listen}
use stp.Tcp.Sockets.Uses.{returned, Leaves}
use stp.Tcp.Sockets.Listen.{listen-Leaves}
use stp.Tcp.Sockets.Connect.{connect, accept, address_string}
use stp.Tcp.Sockets.Connect.Descriptors.{connect-Leaves}
use stp.Tcp.Sockets.Connect.Answers.{connect-ne-crashed}
use stp.Tcp.Sockets.Connect.Pauses.{arrives, would_block, accept-Pauses}

record Machine : Type 0 where
  next : ℕ
  errno : ℕ
  waiting : Bool

abbrev fails : Machine → ℕ → Machine
fails s err = record s { errno = err }

-- A call that fails with an error number unless a test holds.
abbrev tries : Bool → ℕ → Machine → Bool × Machine
tries true err s = (true, s)
tries false err s = (false, fails s err)

abbrev accepts : Bool → Machine → Option (ℕ × ℕ) × Machine
accepts true s = (some (s.next, 9), record s { next = s.next + 1; waiting = false })
accepts false s = (none, fails s 11)

abbrev machine : Os
machine = record {
  State = Machine;
  errno = λ s. s.errno;
  eagain = 11;
  eintr = 4;
  einprogress = 115;
  getaddrinfo = λ family host port passive s. (found (5 ∷ 1 ∷ 2 ∷ []), s);
  socket = λ ai s. (some s.next, record s { next = s.next + 1 });
  set_reuse = λ fd s. (true, s);
  bind = λ fd ai s. tries (ai == 1) 98 s;
  listen = λ fd s. (true, s);
  connect = λ fd ai s. tries (ai == 2) 111 s;
  so_error = λ fd s. (some 0, s);
  accept4 = λ listener s. accepts s.waiting s;
  close = λ fd s. s;
  wait = λ fd s. (true, record s { waiting = true });
  is_inet = λ addr. true;
  inet_ntop = λ addr. some (b'h' ∷ []);
}

abbrev start : World machine
start = record { state = record { next = 3; errno = 0; waiting = false }; used = [] }

abbrev address : List ℕ
address = b':' ∷ b'8' ∷ b'0' ∷ []

tries-errno :
    (b : Bool) (err : ℕ) (s : Machine)
    → err ≢ 0
    → (tries b err s).0 ≡ false
    → (tries b err s).1.errno ≢ 0
tries-errno true err s h e = absurd (cc e)
tries-errno false err s h e = h

machine-SetsErrno : SetsErrno machine
machine-SetsErrno = record {
  eai_system-errno = λ f host port passive s e. absurd (cc e);
  socket-errno = λ ai s e. absurd (cc e);
  set_reuse-errno = λ fd s e. absurd (cc e);
  bind-errno = λ fd ai s e. tries-errno (ai == 1) 98 s (omega arith) e;
  listen-errno = λ fd s e. absurd (cc e);
  connect-errno = λ fd ai s e. tries-errno (ai == 2) 111 s (omega arith) e;
  so_error-errno = λ fd s e. absurd (cc e);
  close-errno = λ fd s h. h;
}

listen-Leaves_example :
    Leaves start (listen machine address start).1 (returned (listen machine address start).0)
listen-Leaves_example = listen-Leaves machine address start

connect-Leaves_example :
    Leaves start (connect machine address start).1 (returned (connect machine address start).0)
connect-Leaves_example = connect-Leaves machine address start

connect-ne-crashed_example : (connect machine address start).0 ≢ crashed
connect-ne-crashed_example = connect-ne-crashed machine machine-SetsErrno address start

-- The first call would block; somebody connects while the coroutine waits.
accept-Pauses_example :
    accept machine 2 7 start
    ≡ some (
      (opened 3, address_string machine 9),
      record { state = record { next = 4; errno = 11; waiting = false }; used = opens 3 ∷ [] },
    )
accept-Pauses_example =
    accept-Pauses machine 7 1 (record { next = 3; errno = 0; waiting = false })
      (record { next = 3; errno = 11; waiting = true }) 3 9 [] (would_block refl refl refl arrives)
      refl
