-- ===== src/Registry/Life.antt =====
-- A process between its creation and its end, in the registry of src/process.cpp.
use stp.Prelude.{ℕ, ◌≡◌, refl, ap, ◌∙◌, [], ◌∷◌, ◌++◌, none, some, arith}
use stp.Dict.{find, assign, erase, find-assign, assign-new, erase-append}
use stp.Registry.{
  Registry, next_id, reg, is_found, unreg, ref, unref, find_process, retire, create, deliver, send,
}

-- A process that was created under an unused id is found under this id.
find_process-create :
    (r : Registry) (p : ℕ)
    → find_process (create r p).1 (create r p).0 ≡ (some p, ref (create r p).1 p)
unfolding find_process create reg
find_process-create r p = rw (find-assign (next_id r) p r.procs_map, find_process) refl

-- A message that is sent to a process that was just created goes to it, and the reference that was
-- taken for it is given back: the process has the one of the registry, and none is destroyed.
pub send-create :
    {Content : Type 0} (r : Registry) (p self session : ℕ) (content : Content)
    → (r' : Registry) × (send (create r p).1 self (create r p).0 session content
        ≡ (some (p, record { source = self; session = session; content = content }), r'))
      × (r'.procs_map ≡ (create r p).1.procs_map)
      × (r'.refcnt p ≡ 1)
      × (r'.destroyed ≡ r.destroyed)
unfolding send deliver create reg ref unref
send-create r p self session content = (
  unref (ref (create r p).1 p) p,
  rw (find_process-create r p, send, deliver) refl,
  ground arith,
  ground arith,
  ground arith,
)

-- A process that was created under an unused id and is retired while the registry holds its only
-- reference is destroyed, the registry's map is as before, and to retire it again does nothing.
pub retire-create :
    (r : Registry) (p : ℕ)
    → find (next_id r) r.procs_map ≡ none
    → (r' : Registry) × (retire (create r p).1 p (create r p).0 ≡ r')
      × (r'.destroyed ≡ r.destroyed ++ p ∷ [])
      × (r'.procs_map ≡ r.procs_map)
      × (retire r' p (create r p).0 ≡ r')
unfolding retire unreg create reg unref is_found
retire-create r p unused =
    let id : ℕ = next_id r in
    let found = find-assign id p r.procs_map in
    let erased : erase id (assign id p r.procs_map) ≡ r.procs_map =
      ap (erase id) (assign-new id p r.procs_map unused) ∙ erase-append id p r.procs_map unused in
    (
      retire (create r p).1 p (create r p).0,
      refl,
      ground (arith, found),
      ground (arith, found, erased),
      ground (arith, found, erased, unused),
    )
