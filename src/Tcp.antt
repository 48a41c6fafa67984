-- ===== src/Tcp.antt =====
-- src/tcp.cpp: the address parser. The sockets are in Sockets.
--
-- A C string is the list of its bytes. `memrchr`, `strncmp` and the like are written out; `byte_at`
-- gives 0 for the NUL behind the string.
pub mod Os
pub mod Sockets
pub mod Parse
mod Examples
use stp.Prelude.{
  ℕ, zero, suc, ◌+◌, ◌-◌, Bool, true, false, ◌&&◌, ◌||◌, List, [], ◌∷◌, Option, none, some, ltb,
  ◌==◌, if◌then◌else◌, length,
}

-- AF_UNSPEC, AF_INET and AF_INET6.
pub data Family : Type 0 where
  unspec inet inet6 : Family

abbrev pub tcp_prefix : List ℕ
tcp_prefix = b't' ∷ b'c' ∷ b'p' ∷ b':' ∷ b'/' ∷ b'/' ∷ []

abbrev pub tcp4_prefix : List ℕ
tcp4_prefix = b't' ∷ b'c' ∷ b'p' ∷ b'4' ∷ b':' ∷ b'/' ∷ b'/' ∷ []

abbrev pub tcp6_prefix : List ℕ
tcp6_prefix = b't' ∷ b'c' ∷ b'p' ∷ b'6' ∷ b':' ∷ b'/' ∷ b'/' ∷ []

-- `strncmp(addr, prefix, sizeof(prefix)-1) == 0`.
abbrev pub starts_with : List ℕ → List ℕ → Bool
starts_with [] addr = true
starts_with (p ∷ prefix) [] = false
starts_with (p ∷ prefix) (c ∷ addr) = p == c && starts_with prefix addr

pub trim : List ℕ → Family × ℕ
trim addr =
    if starts_with tcp_prefix addr
    then (unspec, length tcp_prefix)
    else (if starts_with tcp4_prefix addr
        then (inet, length tcp4_prefix)
        else (if starts_with tcp6_prefix addr then (inet6, length tcp6_prefix) else (unspec, 0)))

abbrev pub drop : ℕ → List ℕ → List ℕ
drop zero s = s
drop (suc n) [] = []
drop (suc n) (c ∷ s) = drop n s

abbrev pub take : ℕ → List ℕ → List ℕ
take zero s = []
take (suc n) [] = []
take (suc n) (c ∷ s) = c ∷ take n s

abbrev pub byte_at : List ℕ → ℕ → ℕ
byte_at [] i = 0
byte_at (c ∷ s) zero = c
byte_at (c ∷ s) (suc i) = byte_at s i

-- `memrchr`: the place of the last such byte.
pub memrchr : ℕ → List ℕ → Option ℕ
memrchr c [] = none
memrchr c (x ∷ s) = elim (memrchr c s) [
  | some i ↦ some (i + 1)
  | none ↦ if x == c then some 0 else none
]

-- `false` is `illegal`, a failed assertion is `aborted`; a host that is NULL is `none`.
pub data Parsed : Type 0 where
  illegal aborted : Parsed
  parsed : Family → (host : Option (List ℕ)) → (port : List ℕ) → Parsed

-- From `assert(beg <= end)` on. The NUL at `*end` ends the host.
pub split_host : Family → List ℕ → (beg end sep : ℕ) → Parsed
split_host family addr beg end sep =
    if ltb end beg
    then aborted
    else (if (beg == end) || ((beg + 1 == end) && (byte_at addr beg == b'*'))
        then parsed family none (drop (sep + 1) addr)
        else parsed family (some (take (end - beg) (drop beg addr))) (drop (sep + 1) addr))

pub split_brackets : Family → List ℕ → (sep : ℕ) → Parsed
split_brackets family addr sep =
    if byte_at addr 0 == b'['
    then (if byte_at addr (sep - 1) == b']'
        then split_host family addr 1 (sep - 1) sep
        else illegal)
    else split_host family addr 0 sep sep

pub split_port : Family → List ℕ → Parsed
split_port family addr = elim (memrchr b':' addr) [
  | none ↦ illegal
  | some sep ↦ split_brackets family addr sep
]

pub parse : List ℕ → Parsed
parse addr = split_port (trim addr).0 (drop (trim addr).1 addr)
