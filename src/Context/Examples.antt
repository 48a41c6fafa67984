-- ===== src/Context/Examples.antt =====
-- The theorems on src/context.cpp with pages of 4096 bytes.
use stp.Prelude.{ℕ, ◌+◌, ◌*◌, ◌%◌, ◌<◌, ◌≤◌, ◌≡◌, [], some, none, refl, arith}
use stp.Wild.{list_frees}
use stp.Context.Objects.{Contexts, create, destroy, create-destroy}
use stp.Context.{Cache, stack_size, round_up}
use stp.Context.Stacks.{stack_size-enough}

abbrev nothing_cached : Cache
nothing_cached i = []

stack_size-enough_example :
    (8 * 4096 + 5000 ≤ stack_size 4096 5000)
    × (stack_size 4096 5000 < 9 * 4096 + 5000)
    × (stack_size 4096 5000 % 4096 ≡ 0)
stack_size-enough_example = stack_size-enough 12 5000 (omega arith) (omega arith)

-- The context 77, whose stack is at 700.
abbrev one_context : Contexts list_frees
one_context = record {
  pool = record { common = []; own = λ t. [] };
  cache = nothing_cached;
  objects = λ x. record { stackbase = 700; stacksize = 40960; entry = none };
}

create-destroy_example :
    (given : Contexts list_frees) × (left : Contexts list_frees) × (destroy list_frees 4096
        one_context 2 77
      ≡ some (given, none))
    × (create list_frees 4096 given 2 88 5 6 5000 12288 ≡ some (77, left))
    × ((left.objects 77).stackbase ≡ 700)
    × ((i : ℕ) → left.cache i ≡ [])
unfolding stack_size round_up
create-destroy_example =
    create-destroy list_frees 4096 one_context 2 77 88 5 6 5000 12288 refl (omega arith) refl
      (λ e. omega arith) (omega arith)
