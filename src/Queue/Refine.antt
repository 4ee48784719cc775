-- ===== src/Queue/Refine.antt =====
-- The queue of src/shm/queue.rs against the bounded queue of Queue/Spec: the items that are sent
-- and not yet received, oldest first, are its contents.
use sandbox_ipc.Prelude.{
  ℕ, zero, suc, ◌+◌, ◌-◌, ◌%◌, ◌≤◌, ◌<◌, ◌≡◌, refl, sym, ap, inl, List, [], ◌∷◌, ◌++◌, length, some,
  arith, lt→ltb,
}
use sandbox_ipc.Prelude.Word.{isize_max, wrapping_add, wrapping_sub}
use sandbox_ipc.Queue.Agent.{Shared, Pc, push_drop, pop_drop, Move, publish, release}
use sandbox_ipc.Queue.Steps.{System, init, Step, pick, Steps, stay, more}
use sandbox_ipc.Queue.Invariant.{
  sent, recvd, Inv, IsWrapped, Reach-Inv, Steps-Inv, Step-IsWrapped, Steps-IsWrapped,
}
use sandbox_ipc.Queue.Fifo.{Move-slot}
use sandbox_ipc.Queue.Spec.{
  Event, silent, pushed, popped, push, After, nothing, push_back, pop_front, Run, start, then_,
  added, taken, Run-order, Run-room,
}

-- The slots of the indices from `first` on, `count` of them.
abbrev pub items : ℕ → (ℕ → List ℕ) → ℕ → ℕ → List (List ℕ)
items item_count slots first zero = []
items item_count slots first (suc count) =
    slots (first % item_count) ∷ items item_count slots (suc first) count

abbrev pub contents : ℕ → Shared → List (List ℕ)
contents item_count m = items item_count m.slots (recvd m) (sent m - recvd m)

-- What the abstract queue sees of a move: the slot that a producer publishes, or that a consumer
-- releases.
abbrev pub event_of :
    {item_count : ℕ} {m m' : Shared} {p p' : Pc} → Move item_count m p m' p' → Event (List ℕ)
event_of {item_count} {m} (publish {i} g) = pushed (m.slots (i % item_count))
event_of {item_count} {m} (release {i} g) = popped (m.slots (i % item_count))
event_of _ = silent

abbrev pub event_of_step :
    {item_count n : ℕ} {s t : System} → Step item_count n s t → Event (List ℕ)
event_of_step (pick a lt mv) = event_of mv

-- The events of a run, the last one first.
abbrev pub trace :
    {item_count n : ℕ} {s t : System} → Steps item_count n s t → List (Event (List ℕ))
trace stay = []
trace (more r st) = event_of_step st ∷ trace r

length-items :
    (item_count : ℕ) (slots : ℕ → List ℕ) (first count : ℕ)
    → length (items item_count slots first count) ≡ count
length-items item_count slots first zero = refl
length-items item_count slots first (suc count) =
    ap suc (length-items item_count slots (suc first) count)

items-snoc :
    (item_count : ℕ) (slots : ℕ → List ℕ) (first count : ℕ)
    → items item_count slots first (suc count)
      ≡ items item_count slots first count ++ (slots ((first + count) % item_count) ∷ [])
items-snoc item_count slots first zero = ground arith
items-snoc item_count slots first (suc count) =
    ground (arith, items-snoc item_count slots (suc first) count)

items_same :
    (item_count : ℕ) (f g : ℕ → List ℕ) (first count : ℕ)
    → ((i : ℕ) → first ≤ i → i < first + count → f (i % item_count) ≡ g (i % item_count))
    → items item_count f first count ≡ items item_count g first count
items_same item_count f g first zero h = refl
items_same item_count f g first (suc count) h = ground (
  arith,
  h first,
  items_same item_count f g (suc first) count
      (λ (i : ℕ) (le : suc first ≤ i) (lt : i < suc first + count).
        h i (omega arith) (omega arith)),
)

items_push :
    (item_count : ℕ) (slots : ℕ → List ℕ) (first i : ℕ)
    → first ≤ i
    → items item_count slots first (suc i - first)
      ≡ items item_count slots first (i - first) ++ (slots (i % item_count) ∷ [])
items_push item_count slots first i le =
    let more : suc i - first ≡ suc (i - first) = omega arith in
    let last : first + (i - first) ≡ i = omega arith in
    rw more (rw (items-snoc item_count slots first (i - first)) (rw last refl))

items_pop :
    (item_count : ℕ) (slots : ℕ → List ℕ) (first last : ℕ)
    → first < last
    → items item_count slots first (last - first)
      ≡ slots (first % item_count) ∷ items item_count slots (suc first) (last - suc first)
items_pop item_count slots first last lt =
    let one : last - first ≡ suc (last - suc first) = omega arith in rw one refl

publish-push :
    (item_count : ℕ) (m : Shared) (i : ℕ)
    → recvd m ≤ sent m
    → (sent m ≡ i) × (wrapping_add i 1 ≡ suc i) × (i < recvd m + item_count)
    → push item_count (m.slots (i % item_count)) (contents item_count m)
      ≡ some (contents item_count (record m { last_sent_index = i }))
publish-push item_count m i order (at, next, room) = rw at (
    rw next (
      rw (lt→ltb (length (items item_count m.slots (recvd m) (i - recvd m))) item_count fits)
        (ap some (sym (items_push item_count m.slots (recvd m) i (omega (arith, at, order)))))))
  where
    fits : length (items item_count m.slots (recvd m) (i - recvd m)) < item_count
    fits = omega (arith, room, at, order, length-items item_count m.slots (recvd m) (i - recvd m))

release-pop :
    (item_count : ℕ) (m : Shared) (i : ℕ)
    → (recvd m ≡ i) × (wrapping_add i 1 ≡ suc i) × (i < sent m)
    → After item_count
        (popped (m.slots (i % item_count)))
        (contents item_count m)
        (contents item_count (record m { last_recvd_index = i }))
release-pop item_count m i (at, next, left) = rw at (
    rw next
      (rw (items_pop item_count m.slots i (sent m) left) (pop_front (m.slots (i % item_count)))))

module _ {item_count n : ℕ} where
  -- A move that publishes and releases nothing leaves the contents as they were.
  contents_same :
      {m m' : Shared} {pc : ℕ → Pc} {p p' : Pc}
      → Inv item_count n m pc
      → (a : ℕ) → pc a ≡ p
      → Move item_count m p m' p'
      → m'.last_sent_index ≡ m.last_sent_index
      → m'.last_recvd_index ≡ m.last_recvd_index
      → contents item_count m' ≡ contents item_count m
  contents_same {m} {m'} inv a at mv same_sent same_recvd = rw same_sent (
      rw same_recvd (
        items_same item_count m'.slots m.slots (recvd m) (sent m - recvd m)
          (λ i le lt. Move-slot inv a i at mv le (inl (omega (arith, inv.order))))))

  publish_at :
      {m : Shared} {pc : ℕ → Pc}
      → Inv item_count n m pc
      → (a i : ℕ) → pc a ≡ push_drop i
      → m.last_sent_index ≡ wrapping_sub i 1
      → (sent m ≡ i) × (wrapping_add i 1 ≡ suc i) × (i < recvd m + item_count)
  publish_at inv a i at g = (
    ground (arith, inv.send_range a i, inv.ns_word),
    ground (arith, inv.send_range a i, inv.ns_word),
    ground (arith, inv.may_write a i),
  )

  release_at :
      {m : Shared} {pc : ℕ → Pc}
      → Inv item_count n m pc
      → (a i : ℕ) → pc a ≡ pop_drop i
      → m.last_recvd_index ≡ wrapping_sub i 1
      → (recvd m ≡ i) × (wrapping_add i 1 ≡ suc i) × (i < sent m)
  release_at inv a i at g = (
    ground (arith, inv.recv_range a i, inv.nr_word),
    ground (arith, inv.recv_range a i, inv.nr_word),
    ground (arith, inv.may_read a i),
  )

  Move-refines :
      {m m' : Shared} {pc : ℕ → Pc} {p p' : Pc}
      → Inv item_count n m pc
      → (a : ℕ) → pc a ≡ p
      → (mv : Move item_count m p m' p')
      → After item_count (event_of mv) (contents item_count m) (contents item_count m')
  Move-refines {m} inv a at (publish {i} g) =
      push_back (m.slots (i % item_count))
        (publish-push item_count m i inv.order (publish_at inv a i at g))
  Move-refines {m} inv a at (release {i} g) = release-pop item_count m i (release_at inv a i at g)
  Move-refines {m} inv a at mv = rw (contents_same inv a at mv refl refl) nothing

  Step-refines :
      {s t : System}
      → Inv item_count n s.mem s.pc
      → (st : Step item_count n s t)
      → After item_count (event_of_step st) (contents item_count s.mem) (contents item_count t.mem)
  Step-refines inv (pick a lt mv) = Move-refines inv a refl mv

  Steps-refines :
      {s t : System}
      → Inv item_count n s.mem s.pc
      → (r : Steps item_count n s t) → ¬ IsWrapped t.pc
      → Run item_count (contents item_count s.mem) (trace r) (contents item_count t.mem)
  Steps-refines inv stay calm = start
  Steps-refines inv (more {t} r st) calm =
      then_ (Steps-refines inv r before) (Step-refines (Steps-Inv inv r before) st)
    where
      before : ¬ IsWrapped t.pc
      before w = calm (Step-IsWrapped st w)

  -- The queue is a bounded queue, first in, first out: every run from a new queue is, by the items
  -- that producers publish and that consumers release, a run of the abstract queue of at most
  -- `item_count` items from the empty one, to the slots sent and not yet received. No push of the
  -- run meets a full queue, and each release lets go of the oldest item. So the items published, in
  -- order, are those released, in order, and then the contents, none lost and none twice. Slots and
  -- agents together number at most `isize::MAX`, and no agent has met the wrap-around.
  pub queue_refines :
      {t : System} (slots : ℕ → List ℕ)
      → item_count + n ≤ isize_max
      → (r : Steps item_count n (init slots) t) → ¬ IsWrapped t.pc
      → Run item_count [] (trace r) (contents item_count t.mem)
        × (added (trace r) ≡ taken (trace r) ++ contents item_count t.mem)
        × (length (contents item_count t.mem) ≤ item_count)
  queue_refines slots few r calm =
      let start_inv = Reach-Inv few (slots, stay) (λ w. calm (Steps-IsWrapped r w)) in
      let run = Steps-refines start_inv r calm in (run, Run-order run, Run-room run)
