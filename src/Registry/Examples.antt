-- ===== src/Registry/Examples.antt =====
-- The theorems on the registry in a run: the process 60 is created, a worker runs it, and it ends.
use stp.Prelude.{◌+◌, ◌≡◌, refl, arith, occurs}
use stp.Dict.{find, assign, erase}
use stp.Process.Run.{k_resume, k_down}
use stp.Registry.{reg, unreg, is_found, ref, unref, retire, create, spawn, after_resume}
use stp.Registry.System.{Owners, init, Step, spawns, runs, Reach, start, later}
use stp.Registry.Safety.{Reach-refcnt, Reach-destroyed}

record Run : Type 0 where
  state : Owners
  reach : Reach state

abbrev go : (r : Run) {t : Owners} → Step r.state t → Run
go r {t} st = record { state = t; reach = later r.reach st }

abbrev spawned : Run
unfolding spawn create reg ref assign
spawned = go (record { state = init; reach = start }) (spawns 60 refl)

abbrev ended : Run
unfolding spawn create reg ref assign after_resume retire unreg unref is_found find erase
ended = go (go spawned (runs 60 k_resume (omega arith))) (runs 60 k_down (omega arith))

Reach-refcnt_example : spawned.state.registry.refcnt 60 ≡ 1 + 1
unfolding spawned
Reach-refcnt_example = Reach-refcnt spawned.reach (omega arith) 60

Reach-destroyed_example : 1 ≡ occurs 60 ended.state.registry.destroyed + 0
unfolding ended
Reach-destroyed_example = Reach-destroyed ended.reach (omega arith) 60
