-- ===== src/Queue/Spec.antt =====
-- What a queue of src/shm/queue.rs promises: a bounded queue of items, first in, first out.
use sandbox_ipc.Prelude.{
  ℕ, ◌≤◌, ◌<◌, ◌≡◌, refl, sym, ◌∙◌, inl, inr, List, [], ◌∷◌, ◌++◌, Option, none, some, length, ltb,
  if◌then◌else◌, Bool-cases, append_assoc, length-append, arith,
}

-- An event that the abstract queue sees: an item that a producer adds, or the item that a
-- consumer takes away, or none of the two.
pub data Event (Item : Type 0) : Type 0 where
  silent : Event Item
  pushed popped : Item → Event Item

module _ {Item : Type 0} where
  -- A push onto a full queue is refused.
  abbrev pub push : ℕ → Item → List Item → Option (List Item)
  push capacity item items =
      if ltb (length items) capacity then some (items ++ (item ∷ [])) else none

  -- The queues that an event leads to. A pop takes the oldest item.
  pub data After (capacity : ℕ) : Event Item → List Item → List Item → Type 0 where
    nothing : {items : List Item} → After capacity silent items items
    push_back :
        {items items' : List Item} (item : Item)
        → push capacity item items ≡ some items'
        → After capacity (pushed item) items items'
    pop_front :
        {items : List Item} (item : Item) → After capacity (popped item) (item ∷ items) items

  -- A run of the abstract queue from `items`, by the events, the last one first.
  pub data Run (capacity : ℕ) (items : List Item) : List (Event Item) → List Item → Type 0 where
    start : Run capacity items [] items
    then_ :
        {events : List (Event Item)} {event : Event Item} {items' items'' : List Item}
        → Run capacity items events items'
        → After capacity event items' items''
        → Run capacity items (event ∷ events) items''

  -- The items that a run adds and those that it takes, in the order in which it does.
  abbrev pub added : List (Event Item) → List Item
  added [] = []
  added (silent ∷ events) = added events
  added (pushed item ∷ events) = added events ++ (item ∷ [])
  added (popped item ∷ events) = added events

  abbrev pub taken : List (Event Item) → List Item
  taken [] = []
  taken (silent ∷ events) = taken events
  taken (pushed item ∷ events) = taken events
  taken (popped item ∷ events) = taken events ++ (item ∷ [])

  push-eq-some :
      (capacity : ℕ) (item : Item) (items items' : List Item)
      → push capacity item items ≡ some items'
      → (items' ≡ items ++ (item ∷ [])) × (length items < capacity)
  push-eq-some capacity item items items' e = elim (Bool-cases (ltb (length items) capacity)) [
    | inl room ↦ ground arith
    | inr full ↦ ground arith
  ]

  After-order :
      {capacity : ℕ} {event : Event Item} {items items' : List Item} (events : List (Event Item))
      → After capacity event items items'
      → added events ≡ taken events ++ items
      → added (event ∷ events) ≡ taken (event ∷ events) ++ items'
  After-order events nothing e = e
  After-order events (push_back {items} {items'} item g) e =
      let (same, lt) = push-eq-some _ item items items' g in
      rw e (rw same (append_assoc (taken events) items (item ∷ [])))
  After-order events (pop_front {items} item) e =
      e ∙ sym (append_assoc (taken events) (item ∷ []) items)

  -- What is taken, with what is left, is what was added.
  pub Run-order :
      {capacity : ℕ} {events : List (Event Item)} {items : List Item}
      → Run capacity [] events items
      → added events ≡ taken events ++ items
  Run-order start = refl
  Run-order (then_ {events} r step) = After-order events step (Run-order r)

  pub Run-room :
      {capacity : ℕ} {events : List (Event Item)} {items : List Item}
      → Run capacity [] events items
      → length items ≤ capacity
  Run-room start = omega arith
  Run-room (then_ r nothing) = Run-room r
  Run-room (then_ r (push_back {items} {items'} item g)) =
      let (same, lt) = push-eq-some _ item items items' g in
      rw same (omega (arith, length-append items (item ∷ []), lt))
  Run-room (then_ r (pop_front item)) = omega (arith, Run-room r)
