-- ===== src/Io.antt =====
-- src/io.cpp: read_full, read and write on a nonblocking file descriptor.
--
-- A call of wild::io::Read or wild::io::Write moves some bytes and reports an error number; what a
-- run of them does is a list of such outcomes, which the operating system chooses. `fd::wait`
-- returns when the descriptor is ready, and the loop goes on. `none` is a run that still waits when
-- the list ends. A buffer is the memory from the caller's pointer on, `at` is where the moved
-- pointer is in it, and size_t is taken modulo 2^64. `eagain` is the number EAGAIN.
pub mod Buffer
pub mod Laws
mod Examples
use stp.Prelude.{
  ℕ, ◌+◌, ◌-◌, ◌%◌, ◌^◌, List, [], ◌∷◌, ◌++◌, Option, none, some, Bool, true, false, ◌==◌,
  if◌then◌else◌, length,
}
use Buffer.{write_at, window}

abbrev size_mod : ℕ
size_mod = 2 ^ 64

abbrev pub plus : ℕ → ℕ → ℕ
plus a n = (a + n) % size_mod

abbrev pub minus : ℕ → ℕ → ℕ
minus a n = (a + size_mod - n) % size_mod

-- What one call of wild::io::Read put into the buffer, and its error number.
pub record Received (Byte : Type 0) : Type 0 where
  pub bytes : List Byte
  pub err : ℕ

-- How many bytes one call of wild::io::Write sent, and its error number.
pub record Accepted : Type 0 where
  pub n : ℕ
  pub err : ℕ

module _ (eagain : ℕ) {Byte : Type 0} where
  -- The loop of `read_full`: the count, the error number and the buffer.
  pub read_full_loop :
      List (Received Byte) → (rd len at : ℕ) → (ℕ → Byte) → Option (ℕ × ℕ × (ℕ → Byte))
  read_full_loop [] rd len at buf = none
  read_full_loop (r ∷ rs) rd len at buf =
      let n : ℕ = length r.bytes in
      let buf' : ℕ → Byte = write_at buf at r.bytes in
      let again : Option (ℕ × ℕ × (ℕ → Byte)) =
        read_full_loop rs (plus rd n) (minus len n) (at + n) buf' in
      if minus len n == 0
      then some (plus rd n, 0, buf')
      else (if r.err == eagain then again else some (plus rd n, r.err, buf'))

  pub read_full : List (Received Byte) → (len : ℕ) → (ℕ → Byte) → Option (ℕ × ℕ × (ℕ → Byte))
  read_full rs len buf = read_full_loop rs 0 len 0 buf

  -- The loop of `read`, which never moves the pointer: it goes on only while nothing was read.
  pub read_loop : List (Received Byte) → (rd len : ℕ) → (ℕ → Byte) → Option (ℕ × ℕ × (ℕ → Byte))
  read_loop [] rd len buf = none
  read_loop (r ∷ rs) rd len buf =
      let n : ℕ = length r.bytes in
      let buf' : ℕ → Byte = write_at buf 0 r.bytes in
      let again : Option (ℕ × ℕ × (ℕ → Byte)) = read_loop rs (plus rd n) (minus len n) buf' in
      if minus len n == 0
      then some (plus rd n, 0, buf')
      else (if r.err == eagain
          then (if plus rd n == 0 then again else some (plus rd n, 0, buf'))
          else some (plus rd n, r.err, buf'))

  pub read : List (Received Byte) → (len : ℕ) → (ℕ → Byte) → Option (ℕ × ℕ × (ℕ → Byte))
  read rs len buf = read_loop rs 0 len buf

  -- The loop of `write`: the count, the error number and the bytes that were sent.
  pub write_loop :
      List Accepted → (wr size at : ℕ) → (ℕ → Byte) → List Byte → Option (ℕ × ℕ × List Byte)
  write_loop [] wr size at data_ sent = none
  write_loop (a ∷ as_) wr size at data_ sent =
      let sent' : List Byte = sent ++ window data_ at a.n in
      let again : Option (ℕ × ℕ × List Byte) =
        write_loop as_ (plus wr a.n) (minus size a.n) (at + a.n) data_ sent' in
      if minus size a.n == 0
      then some (plus wr a.n, 0, sent')
      else (if a.err == eagain then again else some (plus wr a.n, a.err, sent'))

  pub write : List Accepted → (size : ℕ) → (ℕ → Byte) → Option (ℕ × ℕ × List Byte)
  write as_ size data_ = write_loop as_ 0 size 0 data_ []
