-- ===== src/Tcp/Examples.antt =====
-- Tests of the address parser, and its theorems at the addresses that src/tcp.cpp lists.
use Prim.Native.Char.{code}
use Prim.Native.String.{String}
use stp.Prelude.{ℕ, ◌≡◌, refl, List, [], ◌∷◌, some, none, arith}
use stp.Tcp.{
  unspec, inet, inet6, illegal, parsed, parse, trim, memrchr, split_port, split_brackets,
  split_host,
}
use stp.Tcp.Parse.{parse-plain, any_host}

abbrev codes : String → List ℕ
codes String.[] = []
codes (String.◌∷◌ c s) = code c ∷ codes s

parse-plain_example :
    parse (codes "tcp4://12.34.0.39:6666") ≡ parsed inet (some (codes "12.34.0.39")) (codes "6666")
unfolding any_host
parse-plain_example =
    parse-plain inet (codes "12.34.0.39") (codes "6666") (λ e. omega arith) (omega arith)

parse_listed :
    (parse (codes ":6666") ≡ parsed unspec none (codes "6666"))
    × (parse (codes "*:6060") ≡ parsed unspec none (codes "6060"))
    × (parse (codes "tcp://*:6666") ≡ parsed unspec none (codes "6666"))
    × (parse (codes "tcp6://:6666") ≡ parsed inet6 none (codes "6666"))
    × (parse (codes "tcp6://[::1:80") ≡ illegal)
unfolding parse trim split_port split_brackets split_host memrchr
parse_listed = (refl, refl, refl, refl, refl)
