-- ===== src/Tcp/Parse.antt =====
-- `_parse` of src/tcp.cpp: it takes apart what an address was put together from, and its assertion
-- never fails.
use mathlib.Core.List.{append_assoc}
use stp.Prelude.{
  ℕ, zero, suc, ◌+◌, ◌-◌, ◌≤◌, ◌<◌, ◌≡◌, ◌≢◌, refl, ap, ◌∙◌, inl, inr, Bool, true, false, List, [],
  ◌∷◌, ◌++◌, Option, none, some, ◌==◌, if◌then◌else◌, length, length-append, All, arith,
  Option-cases,
}
use stp.Tcp.{
  Family, unspec, inet, inet6, tcp_prefix, tcp4_prefix, tcp6_prefix, trim, drop, take, byte_at,
  memrchr, aborted, parsed, split_host, split_brackets, split_port, parse,
}

memrchr-none : (c : ℕ) (s : List ℕ) → All (λ x. x ≢ c) s → memrchr c s ≡ none
unfolding memrchr
memrchr-none c [] h = refl
memrchr-none c (x ∷ s) h = rw (memrchr-none c s h.1) (ground (arith, h.0))

-- The last colon is the one before the port.
memrchr-append :
    (c : ℕ) (xs ys : List ℕ) → All (λ x. x ≢ c) ys → memrchr c (xs ++ c ∷ ys) ≡ some (length xs)
unfolding memrchr
memrchr-append c [] ys h = rw (memrchr-none c ys h) (ground arith)
memrchr-append c (x ∷ xs) ys h = rw (memrchr-append c xs ys h) (ground arith)

memrchr-lt :
    (c : ℕ) (s : List ℕ) (i : ℕ) → memrchr c s ≡ some i → (i < length s) × (byte_at s i ≡ c)
unfolding memrchr
memrchr-lt c [] i e = cc
memrchr-lt c (x ∷ s) i e = elim (Option-cases (memrchr c s)) [
  | inl f ↦ let here : (i ≡ 0) × (x ≡ c) = ground arith in rw here.0 (omega arith, here.1)
  | inr (j, f) ↦
      let next : i ≡ suc j = ground arith in
      let (below, there) = memrchr-lt c s j f in rw next (omega arith, there)
]

drop-append : (xs ys : List ℕ) → drop (length xs) (xs ++ ys) ≡ ys
drop-append [] ys = refl
drop-append (x ∷ xs) ys = drop-append xs ys

take-append : (xs ys : List ℕ) → take (length xs) (xs ++ ys) ≡ xs
take-append [] ys = refl
take-append (x ∷ xs) ys = ap (◌∷◌ x) (take-append xs ys)

byte_at-append : (xs : List ℕ) (c : ℕ) (ys : List ℕ) → byte_at (xs ++ c ∷ ys) (length xs) ≡ c
byte_at-append [] c ys = refl
byte_at-append (x ∷ xs) c ys = byte_at-append xs c ys

byte_at-drop : (n : ℕ) (s : List ℕ) → byte_at s n ≡ byte_at (drop n s) 0
byte_at-drop zero s = refl
byte_at-drop (suc n) [] = refl
byte_at-drop (suc n) (x ∷ s) = byte_at-drop n s

drop-suc : (xs : List ℕ) (c : ℕ) (ys : List ℕ) → drop (length xs + 1) (xs ++ c ∷ ys) ≡ ys
drop-suc xs c ys = let e : length xs + 1 ≡ suc (length xs) = omega arith in rw e (go xs)
  where
    go : (l : List ℕ) → drop (suc (length l)) (l ++ c ∷ ys) ≡ ys
    go [] = refl
    go (x ∷ l) = go l

-- "" and "*" stand for any host.
unfoldable pub any_host : List ℕ → Bool
any_host [] = true
any_host (c ∷ []) = c == b'*'
any_host (c ∷ d ∷ host) = false

abbrev pub host_of : List ℕ → Option (List ℕ)
host_of host = if any_host host then none else some host

-- The addresses of a family begin with its prefix.
abbrev pub prefix_of : Family → List ℕ
prefix_of unspec = tcp_prefix
prefix_of inet = tcp4_prefix
prefix_of inet6 = tcp6_prefix

trim-prefix :
    (f : Family) (rest : List ℕ)
    → ((trim (prefix_of f ++ rest)).0 ≡ f)
      × (drop (trim (prefix_of f ++ rest)).1 (prefix_of f ++ rest) ≡ rest)
unfolding trim
trim-prefix unspec rest = (refl, refl)
trim-prefix inet rest = (refl, refl)
trim-prefix inet6 rest = (refl, refl)

-- The host that `split_host` sees between `beg` and `end`.
split_plain :
    (f : Family) (host rest port : List ℕ) (addr : List ℕ) (beg end sep : ℕ)
    → drop beg addr ≡ host ++ rest
    → beg + length host ≡ end
    → drop (sep + 1) addr ≡ port
    → split_host f addr beg end sep ≡ parsed f (host_of host) port
unfolding split_host any_host
split_plain f [] rest port addr beg end sep d e p = ground arith
split_plain f (c ∷ []) rest port addr beg end sep d e p =
    let first : byte_at addr beg ≡ c = byte_at-drop beg addr ∙ rw d in
    let one : end - beg ≡ 1 = omega arith in rw (first, one, d) (ground arith)
split_plain f (c ∷ c' ∷ host) rest port addr beg end sep d e p =
    let count : end - beg ≡ length (c ∷ c' ∷ host) = omega arith in
    rw (d, count, take-append (c ∷ c' ∷ host) rest) (ground arith)

parse-prefix :
    (f : Family) (rest : List ℕ) (sep : ℕ)
    → memrchr b':' rest ≡ some sep
    → parse (prefix_of f ++ rest) ≡ split_brackets f rest sep
unfolding parse split_port
parse-prefix f rest sep e = rw ((trim-prefix f rest).1, (trim-prefix f rest).0) (rw (e, split_port))

no_bracket :
    (host port : List ℕ) → byte_at host 0 ≢ b'[' → (byte_at (host ++ b':' ∷ port) 0 == b'[') ≡ false
no_bracket [] port h = refl
no_bracket (c ∷ host) port h = ground arith

-- An address of a family's prefix, a host without brackets, a colon and a port without a colon is
-- taken apart into these; no host and the host "*" become NULL.
pub parse-plain :
    (f : Family) (host port : List ℕ)
    → byte_at host 0 ≢ b'['
    → All (λ c. c ≢ b':') port
    → parse (prefix_of f ++ (host ++ b':' ∷ port)) ≡ parsed f (host_of host) port
unfolding split_brackets
parse-plain f host port open_ colon =
    let addr : List ℕ = host ++ b':' ∷ port in
    parse-prefix f addr (length host) (memrchr-append b':' host port colon)
    ∙ rw (no_bracket host port open_) (
        split_plain f host (b':' ∷ port) port addr 0 (length host) (length host) refl (omega arith)
          (drop-suc host b':' port))

-- With the host in brackets, as an IPv6 address has to be, the host may hold colons and brackets.
pub parse-brackets :
    (f : Family) (host port : List ℕ)
    → All (λ c. c ≢ b':') port
    → parse (prefix_of f ++ (b'[' ∷ (host ++ b']' ∷ b':' ∷ port))) ≡ parsed f (host_of host) port
unfolding split_brackets
parse-brackets f host port colon =
    let whole : List ℕ = b'[' ∷ (host ++ b']' ∷ []) in
    let addr : List ℕ = b'[' ∷ (host ++ b']' ∷ b':' ∷ port) in
    let split : whole ++ b':' ∷ port ≡ addr =
      ap (◌∷◌ b'[') (append_assoc host (b']' ∷ []) (b':' ∷ port)) in
    let len : length whole ≡ suc (length host + 1) =
      omega (arith, length-append host (b']' ∷ [])) in
    let back : length whole - 1 ≡ suc (length host) = omega arith in
    parse-prefix f addr (length whole) (rw (← split) (memrchr-append b':' whole port colon))
    ∙ rw (back, byte_at-append host b']' (b':' ∷ port))
        (split_plain f host (b']' ∷ b':' ∷ port) port addr 1 (suc (length host)) (length whole) refl
          (omega arith) (rw (← split) (drop-suc whole b':' port)))

split_host-ne-aborted :
    (f : Family) (addr : List ℕ) (beg end sep : ℕ)
    → beg ≤ end
    → split_host f addr beg end sep ≢ aborted
unfolding split_host
split_host-ne-aborted f addr beg end sep h e = ground arith

split_brackets-ne-aborted :
    (f : Family) (addr : List ℕ) (sep : ℕ)
    → byte_at addr sep ≡ b':'
    → split_brackets f addr sep ≢ aborted
unfolding split_brackets
split_brackets-ne-aborted f addr zero colon e =
    ground (arith, split_host-ne-aborted f addr 0 0 0 (omega arith))
split_brackets-ne-aborted f addr (suc zero) colon e =
    ground (arith, split_host-ne-aborted f addr 0 1 1 (omega arith))
split_brackets-ne-aborted f addr (suc (suc sep)) colon e =
    let back : suc (suc sep) - 1 ≡ suc sep = omega arith in
    ground (
      arith,
      back,
      split_host-ne-aborted f addr 0 (suc (suc sep)) (suc (suc sep)) (omega arith),
      split_host-ne-aborted f addr 1 (suc (suc sep) - 1) (suc (suc sep)) (omega arith),
    )

-- The assertion of `_parse` holds for every address.
pub parse-ne-aborted : (addr : List ℕ) → parse addr ≢ aborted
unfolding parse split_port
parse-ne-aborted addr = go (trim addr).0 (drop (trim addr).1 addr)
  where
    go : (f : Family) (s : List ℕ) → split_port f s ≢ aborted
    go f s = elim (Option-cases (memrchr b':' s)) [
      | inl none_left ↦ rw (none_left, split_port) (λ e. cc)
      | inr (sep, found) ↦
          rw (found, split_port) (split_brackets-ne-aborted f s sep (memrchr-lt b':' s sep found).1)
    ]
