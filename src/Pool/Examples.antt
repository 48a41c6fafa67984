-- ===== src/Pool/Examples.antt =====
-- The theorems on free lists at two threads: one allocates and frees, the other allocates.
use stp.Prelude.{refl, arith, total}
use stp.Wild.{list_frees}
use stp.Pool.{take_free, take_common, allocate, put_free}
use stp.Pool.Threads.{Heap, begin, Step, allocates, deallocates, Reach, start, later}
use stp.Pool.Safety.{Apart, Reach-Apart}

record Run : Type 0 where
  heap : Heap list_frees
  reached : Reach list_frees 2 10000 heap

abbrev go : (r : Run) {h : Heap list_frees} → Step list_frees 2 10000 r.heap h → Run
go r {h} step = record { heap = h; reached = later r.reached step }

-- The second thread has a free object of its own and takes it, the first has to call malloc.
abbrev ran : Run
unfolding allocate take_free put_free take_common total
ran =
    go
      (go
        (go
          (go (record { heap = begin list_frees 2 10000; reached = start })
            (allocates 1 64 (omega arith) refl))
          (deallocates 1 64 (omega arith) (omega arith)))
        (allocates 1 96 (omega arith) refl))
      (allocates 0 96 (omega arith) refl)

Reach-Apart_example : Apart list_frees 2 ran.heap
Reach-Apart_example = Reach-Apart list_frees 2 10000 ran.reached
