-- ===== src/Timer/Nodes.antt =====
-- The linked lists of src/time.cpp in memory: `struct timer_list` with its pointer to the last link,
-- the nodes, and the free list that they come from and go to.
--
-- A list is named by its place in the arrays of `struct Timer`, a node by its address, and NULL is 0.
-- `cells` holds the pointers of the lists and of the nodes, `last` the member of that name, `payload` the
-- other fields of a node. `wild::FreeList` links a free node: it may write any pointer into it.
pub mod Chain
pub mod Frame
pub mod Frees
pub mod Walk
pub mod Loose
pub mod Wheel
use stp.Prelude.{
  ℕ, zero, suc, ◌+◌, Bool, true, false, List, [], ◌∷◌, Option, none, some, ◌==◌, ◌&&◌,
  if◌then◌else◌, ◌>>=◌, update,
}
use stp.Wild.{FreeList}
use stp.Timer.{TimerNode}

-- A `struct timer_list` of the arrays `least` and `level`.
pub data TimerList : Type 0 where
  least_list : (index : ℕ) → TimerList
  level_list : (level index : ℕ) → TimerList

abbrev pub same_list : TimerList → TimerList → Bool
same_list (least_list i) (least_list j) = i == j
same_list (least_list i) (level_list k v) = false
same_list (level_list l v) (least_list j) = false
same_list (level_list l v) (level_list k w) = l == k && v == w

abbrev pub update_at {ℓ} : {A : Type ℓ} → (TimerList → A) → TimerList → A → TimerList → A
update_at f l a k = if same_list l k then a else f k

-- A variable of type `timer_node *`: the member `first` of a list, or `next` of a node.
pub data Slot : Type 0 where
  first_of : (list : TimerList) → Slot
  next_of : (node : ℕ) → Slot

abbrev pub same_slot : Slot → Slot → Bool
same_slot (first_of l) (first_of k) = same_list l k
same_slot (first_of l) (next_of n) = false
same_slot (next_of n) (first_of l) = false
same_slot (next_of n) (next_of p) = n == p

module _ (fl : FreeList) (link : ℕ → ℕ) where
  pub record Memory : Type 0 where
    pub cells : Slot → ℕ
    pub last : TimerList → Slot
    pub payload : ℕ → TimerNode
    pub frees : fl.Frees

  pub store : Memory → Slot → ℕ → Memory
  store m s p = record m { cells = λ x. if same_slot s x then p else m.cells x }

  -- `_list_init`.
  pub list_init : Memory → (list : TimerList) → Memory
  list_init m list = record m { last = update_at m.last list (first_of list) }

  pub list_append : Memory → (list : TimerList) (node : ℕ) → Memory
  list_append m list node = record (store m (m.last list) node) {
    last = update_at m.last list (next_of node);
  }

  -- The list that is taken out, and the memory.
  pub list_clear : Memory → (list : TimerList) → ℕ × Memory
  list_clear m list =
      let ended = store m (m.last list) 0 in (ended.cells (first_of list), list_init ended list)

  -- The node that `_new_node` returns, with what `new` would.
  pub new_node : Memory → (fresh : ℕ) → ℕ × Memory
  new_node m fresh = elim (fl.take m.frees).0 [
    | some node ↦ (node, record m { frees = (fl.take m.frees).1 })
    | none ↦ (fresh, record m { frees = (fl.take m.frees).1 })
  ]

  pub free_node : Memory → (node : ℕ) → Memory
  free_node m node = record (store m (next_of node) (link node)) { frees = fl.push m.frees node }

  -- `_send_list`: what is sent, and the memory. A list is walked on fuel.
  pub send_list : (fuel : ℕ) → Memory → (list : ℕ) → Option (List TimerNode × Memory)
  send_list zero m list = none
  send_list (suc fuel) m list =
      let rest = send_list fuel (free_node m list) (m.cells (next_of list)) >>= λ r.
      some (m.payload list ∷ r.0, r.1) in
      if list == 0 then some ([], m) else rest
