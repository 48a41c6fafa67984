-- ===== src/Mailbox/System.antt =====
-- The writers and the reader of one mailbox, interleaved, with what src/process.cpp does around
-- them: `Process::push_message` resumes the process if `push` returned true, and the process is the
-- reader, which stops when `take` returned nullptr and goes on when it is resumed.
--
-- A step is what happens under the lock, or one access to the flag. The reader's own list is not
-- shared. The reader holds the lock between finding nothing and setting the flag (`closing`).
use stp.Prelude.{ℕ, ◌+◌, ◌-◌, ◌<◌, ◌≡◌, ◌≢◌, Bool, true, List, [], ◌∷◌, ◌++◌, some, if◌then◌else◌}
use stp.Wild.{AppendList}
use stp.Mailbox.{Mailbox, new_mailbox, push_locked, push_notify, take, refill}

pub data Reader : Type 0 where
  running closing parked : Reader

pub record System (A Queue : Type 0) : Type 0 where
  pub box : Mailbox A Queue
  -- writers between the lock and the flag
  pub writers : ℕ
  -- calls of `sched::resume` that no worker has served
  pub resumes : ℕ
  pub reader : Reader
  -- all that was pushed, in the order of the lock, and all that `take` returned
  pub pushed : List A
  pub taken : List A

abbrev pub count_resume : Bool → ℕ → ℕ
count_resume woken resumes = if woken then resumes + 1 else resumes

module _ {A : Type 0} (L : AppendList A) where
  abbrev pub Sys : Type 0
  Sys = System A L.Queue

  -- The scheduler has taken a new process for the first time.
  abbrev pub init : Sys
  init = record {
    box = new_mailbox L;
    writers = 0;
    resumes = 0;
    reader = running;
    pushed = [];
    taken = [];
  }

  pub data Step (s : Sys) : Sys → Type 0 where
    append :
        (a : A)
        → s.reader ≢ closing
        → Step s (record s {
          box = push_locked L s.box a;
          writers = s.writers + 1;
          pushed = s.pushed ++ a ∷ [];
        })
    notify :
        0 < s.writers
        → Step s (record s {
          box = (push_notify L s.box).1;
          writers = s.writers - 1;
          resumes = count_resume (push_notify L s.box).0 s.resumes;
        })
    deliver :
        (a : A)
        → s.reader ≡ running
        → (take L s.box).0 ≡ some a
        → Step s (record s { box = (take L s.box).1; taken = s.taken ++ a ∷ [] })
    close :
        s.reader ≡ running
        → s.box.read ≡ []
        → (refill L s.box).read ≡ []
        → Step s (record s { box = refill L s.box; reader = closing })
    park :
        s.reader ≡ closing
        → Step s (record s { box = record s.box { wait = true }; reader = parked })
    resume :
        s.reader ≡ parked
        → 0 < s.resumes
        → Step s (record s { resumes = s.resumes - 1; reader = running })

  pub data Reach : Sys → Type 0 where
    start : Reach init
    later : {s t : Sys} → Reach s → Step s t → Reach t
