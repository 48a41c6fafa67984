-- ===== src/Io/Laws.antt =====
-- The three loops of src/io.cpp, for every run of outcomes.
use mathlib.Core.List.{append_assoc}
use stp.Prelude.{
  ℕ, ◌+◌, ◌-◌, ◌^◌, ◌≤◌, ◌<◌, ◌≡◌, ◌≢◌, refl, ap, ◌∙◌, ◌⊎◌, inr, List, [], ◌∷◌, ◌++◌, All, some,
  none, length, length-append, arith, ◌==◌, if◌then◌else◌,
}
use stp.Io.{
  Received, Accepted, plus, minus, read_full_loop, read_full, read_loop, read, write_loop, write,
}
use stp.Io.Buffer.{
  write_at, window, write_at-append, window-write_at, write_at-outside, window-append,
}

-- The bytes that a run of calls of wild::io::Write has sent.
abbrev pub accepted : List Accepted → ℕ
accepted [] = 0
accepted (a ∷ rest) = a.n + accepted rest

-- What the caller of a read finds: the bytes at the start of the buffer, and the memory behind
-- the `len` bytes that were asked for as it was.
pub record Filled {Byte : Type 0} (buf buf' : ℕ → Byte) (len : ℕ) (bytes : List Byte) : Type 0 where
  pub start : window buf' 0 (length bytes) ≡ bytes
  pub outside : (i : ℕ) → len ≤ i → buf' i ≡ buf i

write_at-Filled :
    {Byte : Type 0} (buf : ℕ → Byte) (len : ℕ) (bytes : List Byte)
    → length bytes ≤ len
    → Filled buf (write_at buf 0 bytes) len bytes
write_at-Filled buf len bytes h = record {
  start = window-write_at buf 0 bytes;
  outside = λ i p. write_at-outside buf 0 bytes i (inr (omega arith));
}

module _ (eagain : ℕ) {Byte : Type 0} where
  -- All the bytes of a run.
  abbrev pub payload : List (Received Byte) → List Byte
  payload [] = []
  payload (r ∷ rs) = r.bytes ++ payload rs

  -- The loop of `read_full` from any of its states: `got` bytes were read and stand in the buffer.
  read_full_loop_lem :
      (waits : List (Received Byte)) (last : Received Byte) (rest : List (Received Byte))
      (rd len : ℕ) (buf : ℕ → Byte)
      → rd + len < 2 ^ 64
      → All (λ r. r.err ≡ eagain) waits
      → length (payload waits) < len
      → length (payload waits ++ last.bytes) ≤ len
      → (length (payload waits ++ last.bytes) ≡ len) ⊎ (last.err ≢ eagain)
      → read_full_loop eagain (waits ++ last ∷ rest) rd len rd buf
        ≡ some (
          rd + length (payload waits ++ last.bytes),
          (if length (payload waits ++ last.bytes) == len then 0 else last.err),
          write_at buf rd (payload waits ++ last.bytes),
        )
  unfolding read_full_loop
  read_full_loop_lem [] last rest rd len buf fits h p q e = ground arith
  read_full_loop_lem (r ∷ waits) last rest rd len buf fits h p q e =
      let n : ℕ = length r.bytes in
      let some_left : n + length (payload waits) < len =
        omega (arith, length-append r.bytes (payload waits)) in
      let sum : plus rd n ≡ rd + n = omega arith in
      let left : minus len n ≡ len - n = omega arith in
      let split = append_assoc r.bytes (payload waits) last.bytes in
      let total = length-append r.bytes (payload waits ++ last.bytes) in
      rw (split, sum, left, total)
        (ground (
          arith,
          h.0,
          ap length split,
          write_at-append buf rd r.bytes (payload waits ++ last.bytes),
          read_full_loop_lem waits last rest (rd + n) (len - n) (write_at buf rd r.bytes)
              (omega arith) h.1 (omega arith) (omega (arith, ap length split))
              (ground (arith, ap length split)),
        ))

  -- `read_full`, where the calls before the last one would have blocked and did not fill the buffer,
  -- no call exceeds what it was asked for, and the last one fills the buffer or fails: all the bytes
  -- of these calls stand in the buffer one after another, the count is their number, the error is 0
  -- if the buffer is full and the last call's otherwise, and no memory outside the buffer changes.
  pub read_full-Filled :
      (waits : List (Received Byte)) (last : Received Byte) (rest : List (Received Byte)) (len : ℕ)
      (buf : ℕ → Byte)
      → len < 2 ^ 64
      → All (λ r. r.err ≡ eagain) waits
      → length (payload waits) < len
      → length (payload waits ++ last.bytes) ≤ len
      → (length (payload waits ++ last.bytes) ≡ len) ⊎ (last.err ≢ eagain)
      → (buf' : ℕ → Byte) × (read_full eagain (waits ++ last ∷ rest) len buf
          ≡ some (
            length (payload waits ++ last.bytes),
            (if length (payload waits ++ last.bytes) == len then 0 else last.err),
            buf',
          ))
        × Filled buf buf' len (payload waits ++ last.bytes)
  unfolding read_full
  read_full-Filled waits last rest len buf fits h p q e =
      let bytes : List Byte = payload waits ++ last.bytes in
      (
        write_at buf 0 bytes,
        read_full_loop_lem waits last rest 0 len buf (omega arith) h p q e ∙ ground arith,
        write_at-Filled buf len bytes q,
      )

  -- While every call would block and the buffer is not full, `read_full` waits.
  pub read_full-waits :
      (waits : List (Received Byte)) (rd len at : ℕ) (buf : ℕ → Byte)
      → len < 2 ^ 64
      → All (λ r. r.err ≡ eagain) waits
      → length (payload waits) < len
      → read_full_loop eagain waits rd len at buf ≡ none
  unfolding read_full_loop
  read_full-waits [] rd len at buf fits h p = refl
  read_full-waits (r ∷ waits) rd len at buf fits h p =
      let n : ℕ = length r.bytes in
      let some_left : n + length (payload waits) < len =
        omega (arith, length-append r.bytes (payload waits)) in
      let left : minus len n ≡ len - n = omega arith in
      rw left (
        ground (
          arith,
          h.0,
          read_full-waits waits (plus rd n) (len - n) (at + n) (write_at buf at r.bytes)
              (omega arith) h.1 (omega arith),
        ))

  read_loop_lem :
      (waits : List (Received Byte)) (last : Received Byte) (rest : List (Received Byte)) (len : ℕ)
      (buf : ℕ → Byte)
      → 0 < len
      → len < 2 ^ 64
      → All (λ r. (r.err ≡ eagain) × (r.bytes ≡ [])) waits
      → length last.bytes ≤ len
      → (0 < length last.bytes) ⊎ (last.err ≢ eagain)
      → read_loop eagain (waits ++ last ∷ rest) 0 len buf
        ≡ some (
          length last.bytes,
          (if length last.bytes == len then 0 else (if last.err == eagain then 0 else last.err)),
          write_at buf 0 last.bytes,
        )
  unfolding read_loop write_at
  read_loop_lem [] last rest len buf pos fits h q e = ground arith
  read_loop_lem (r ∷ waits) last rest len buf pos fits h q e =
      let same : minus len 0 ≡ len = omega arith in
      rw (h.0.1, same)
        (ground (arith, h.0.0, read_loop_lem waits last rest len buf pos fits h.1 q e))

  -- `read`, where the calls before the last one would have blocked and moved nothing: it returns
  -- what the last call read, at the start of the buffer, without its error if that was EAGAIN or
  -- the buffer is full, and no memory outside the buffer changes.
  pub read-Filled :
      (waits : List (Received Byte)) (last : Received Byte) (rest : List (Received Byte)) (len : ℕ)
      (buf : ℕ → Byte)
      → 0 < len
      → len < 2 ^ 64
      → All (λ r. (r.err ≡ eagain) × (r.bytes ≡ [])) waits
      → length last.bytes ≤ len
      → (0 < length last.bytes) ⊎ (last.err ≢ eagain)
      → (buf' : ℕ → Byte) × (read eagain (waits ++ last ∷ rest) len buf
          ≡ some (
            length last.bytes,
            (if length last.bytes == len then 0 else (if last.err == eagain then 0 else last.err)),
            buf',
          ))
        × Filled buf buf' len last.bytes
  unfolding read
  read-Filled waits last rest len buf pos fits h q e = (
    write_at buf 0 last.bytes,
    read_loop_lem waits last rest len buf pos fits h q e,
    write_at-Filled buf len last.bytes q,
  )

  write_loop_lem :
      (waits : List Accepted) (last : Accepted) (rest : List Accepted) (wr size : ℕ)
      (buf : ℕ → Byte) (sent : List Byte)
      → wr + size < 2 ^ 64
      → All (λ a. a.err ≡ eagain) waits
      → accepted waits < size
      → accepted waits + last.n ≤ size
      → (accepted waits + last.n ≡ size) ⊎ (last.err ≢ eagain)
      → write_loop eagain (waits ++ last ∷ rest) wr size wr buf sent
        ≡ some (
          wr + (accepted waits + last.n),
          (if accepted waits + last.n == size then 0 else last.err),
          sent ++ window buf wr (accepted waits + last.n),
        )
  unfolding write_loop
  write_loop_lem [] last rest wr size buf sent fits h p q e = ground arith
  write_loop_lem (a ∷ waits) last rest wr size buf sent fits h p q e =
      let m : ℕ = accepted waits + last.n in
      let sum : plus wr a.n ≡ wr + a.n = omega arith in
      let left : minus size a.n ≡ size - a.n = omega arith in
      let split = window-append buf wr a.n m in
      rw (sum, left)
        (ground (
          arith,
          h.0,
          split,
          append_assoc sent (window buf wr a.n) (window buf (wr + a.n) m),
          write_loop_lem waits last rest (wr + a.n) (size - a.n) buf (sent ++ window buf wr a.n)
              (omega arith) h.1 (omega arith) (omega arith) (ground arith),
        ))

  -- `write`, where the calls before the last one would have blocked and did not send all, no call
  -- exceeds what it was given, and the last one sends the rest or fails: the bytes that were sent
  -- are the first ones of the data, in order and each once, the count is their number, and the error
  -- is 0 if all were sent and the last call's otherwise.
  pub write-window :
      (waits : List Accepted) (last : Accepted) (rest : List Accepted) (size : ℕ) (buf : ℕ → Byte)
      → size < 2 ^ 64
      → All (λ a. a.err ≡ eagain) waits
      → accepted waits < size
      → accepted waits + last.n ≤ size
      → (accepted waits + last.n ≡ size) ⊎ (last.err ≢ eagain)
      → write eagain (waits ++ last ∷ rest) size buf
        ≡ some (
          accepted waits + last.n,
          (if accepted waits + last.n == size then 0 else last.err),
          window buf 0 (accepted waits + last.n),
        )
  unfolding write
  write-window waits last rest size buf fits h p q e =
      write_loop_lem waits last rest 0 size buf [] (omega arith) h p q e ∙ ground arith
