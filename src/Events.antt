-- ===== src/Events.antt =====
-- src/event.cpp: the responders and the subscribers of one process.
--
-- An Atom is its address, a number. A std::unordered_map is a list of its entries without a
-- duplicate key, in the order of its iteration, which the source leaves open: a new key goes to
-- the end here. A responder or a subscriber is the name of a function; what is called, with which
-- parameters, is what an operation returns.
use stp.Dict.{find, assign, erase, find-assign, find-assign_other, assign-new, erase-append}
use stp.Prelude.{ℕ, ◌≡◌, ◌≢◌, refl, ap, List, [], ◌∷◌, ◌++◌, map, Option, none, some, arith}

pub record Module : Type 0 where
  pub responsers : List (ℕ × ℕ)
  pub subscribers : List (ℕ × List (ℕ × ℕ))

-- `m->Subscribers[name]`, which is empty where there is none.
pub subscribers_of : Module → ℕ → List (ℕ × ℕ)
subscribers_of m name = elim (find name m.subscribers) [ none ↦ [] | some l ↦ l ]

-- The responder that is called, or none where a runtime_error is thrown.
pub request : Module → (name : ℕ) → Option ℕ
request m name = find name m.responsers

pub response : Module → (name responser : ℕ) → Module
response m name f = record m { responsers = assign name f m.responsers }

-- The subscribers that are called, one after another.
pub publish : Module → (name : ℕ) → List ℕ
publish m name = elim (find name m.subscribers) [ none ↦ [] | some l ↦ map (λ s. s.1) l ]

pub subscribe : Module → (name ident subscriber : ℕ) → Module
subscribe m name ident f = record m {
  subscribers = assign name (assign ident f (subscribers_of m name)) m.subscribers;
}

-- Without a subscriber of this name an empty entry is left.
pub unsubscribe : Module → (name ident : ℕ) → Module
unsubscribe m name ident = record m {
  subscribers = assign name (erase ident (subscribers_of m name)) m.subscribers;
}

publish-subscribers_of :
    (m : Module) (name : ℕ) → publish m name ≡ map (λ s. s.1) (subscribers_of m name)
unfolding publish subscribers_of
publish-subscribers_of m name = ground arith

subscribers_of-subscribe :
    (m : Module) (name ident f : ℕ)
    → subscribers_of (subscribe m name ident f) name ≡ assign ident f (subscribers_of m name)
unfolding subscribers_of subscribe
subscribers_of-subscribe m name ident f =
    rw (find-assign name (assign ident f (subscribers_of m name)) m.subscribers, subscribers_of)
      refl

subscribers_of-unsubscribe :
    (m : Module) (name ident : ℕ)
    → subscribers_of (unsubscribe m name ident) name ≡ erase ident (subscribers_of m name)
unfolding subscribers_of unsubscribe
subscribers_of-unsubscribe m name ident =
    rw (find-assign name (erase ident (subscribers_of m name)) m.subscribers, subscribers_of) refl

others :
    (m : Module) (name other ident f : ℕ)
    → other ≢ name
    → subscribers_of (subscribe m name ident f) other ≡ subscribers_of m other
unfolding subscribers_of subscribe
others m name other ident f ne =
    ap list_of
      (find-assign_other name other (assign ident f (subscribers_of m name)) m.subscribers ne)
  where
    list_of : Option (List (ℕ × ℕ)) → List (ℕ × ℕ)
    list_of o = elim o [ none ↦ [] | some l ↦ l ]

-- A responder answers the requests of its name, in place of an earlier one, and no others.
pub request-response :
    (m : Module) (name other f : ℕ)
    → other ≢ name
    → (request (response m name f) name ≡ some f)
      × (request (response m name f) other ≡ request m other)
unfolding request response
request-response m name other f ne =
    (find-assign name f m.responsers, find-assign_other name other f m.responsers ne)

map-append_one :
    {A B : Type 0} (f : A → B) (xs : List A) (y : A) → map f (xs ++ y ∷ []) ≡ map f xs ++ f y ∷ []
map-append_one f [] y = refl
map-append_one f (x ∷ xs) y = ap (◌∷◌ (f x)) (map-append_one f xs y)

-- A subscriber under a new identity is called once, after those that were there, by an event of its
-- name; an event of another name calls the same subscribers as before; and when it is taken back,
-- an event of its name calls again those that were there.
pub publish-subscribe :
    (m : Module) (name other ident f : ℕ)
    → find ident (subscribers_of m name) ≡ none
    → other ≢ name
    → (publish (subscribe m name ident f) name ≡ publish m name ++ f ∷ [])
      × (publish (subscribe m name ident f) other ≡ publish m other)
      × (publish (unsubscribe (subscribe m name ident f) name ident) name ≡ publish m name)
publish-subscribe m name other ident f new ne = (
  rw
      (
        publish-subscribers_of m name,
        publish-subscribers_of (subscribe m name ident f) name,
        subscribers_of-subscribe m name ident f,
        assign-new ident f (subscribers_of m name) new,
      )
      (map-append_one (λ s. s.1) (subscribers_of m name) (ident, f)),
  rw (publish-subscribers_of m other, publish-subscribers_of (subscribe m name ident f) other)
      (ap (map (λ s. s.1)) (others m name other ident f ne)),
  rw
      (
        publish-subscribers_of m name,
        publish-subscribers_of (unsubscribe (subscribe m name ident f) name ident) name,
        subscribers_of-unsubscribe (subscribe m name ident f) name ident,
        subscribers_of-subscribe m name ident f,
        assign-new ident f (subscribers_of m name) new,
        erase-append ident f (subscribers_of m name) new,
      )
      refl,
)
