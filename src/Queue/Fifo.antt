-- ===== src/Queue/Fifo.antt =====
-- The order and the integrity of the items of a queue of src/shm/queue.rs: what a producer has
-- finished stays in its slot until the consumer of that index has let go of it, once.
use sandbox_ipc.Prelude.{
  ℕ, ◌+◌, ◌%◌, ◌≤◌, ◌<◌, ◌≡◌, ◌≢◌, refl, ◌∙◌, ◌⊎◌, inl, inr, some, arith, ◌==◌, Bool-cases,
}
use sandbox_ipc.Prelude.Word.{isize_max}
use sandbox_ipc.Prelude.Agents.{update}
use sandbox_ipc.Queue.Agent.{
  Shared, Pc, push_hold, push_drop, Move, write_bytes, edit_bytes, publish, release,
}
use sandbox_ipc.Queue.Steps.{System, pick, Steps, stay, more, Reach}
use sandbox_ipc.Queue.Invariant.{
  sent, recvd, recv_index, reads, Inv, IsWrapped, Reach-Inv, Steps-Inv, Step-IsWrapped,
  Steps-IsWrapped,
}
use sandbox_ipc.Queue.Safety.{mod-ne}

-- The item of index `i` is finished: its producer is in the drop of its guard, or has published it.
abbrev pub Settled : Shared → (ℕ → Pc) → ℕ → Type 0
Settled m pc i = (i < sent m) ⊎ ((a : ℕ) × (pc a ≡ push_drop i))

module _ {item_count n : ℕ} where
  -- A producer that can still write is at another slot than a settled item.
  writer-ne :
      {m : Shared} {pc : ℕ → Pc}
      → Inv item_count n m pc
      → (a k off i : ℕ) → pc a ≡ push_hold k off
      → recvd m ≤ i
      → Settled m pc i
      → i % item_count ≢ k % item_count
  writer-ne inv a k off i at kept (inl done) =
      mod-ne item_count i k (omega (arith, (inv.send_range a k (ground arith)).0))
        (omega (arith, inv.may_write a k (ground arith)))
  writer-ne inv a k off i at kept (inr (b, e)) = ground (
    arith,
    inv.order,
    inv.send_range a k,
    inv.send_range b i,
    inv.may_write a k,
    inv.may_write b i,
    inv.send_unique a b i,
    mod-ne item_count i k,
    mod-ne item_count k i,
  )

  pub Move-slot :
      {m m' : Shared} {pc : ℕ → Pc} {p p' : Pc}
      → Inv item_count n m pc
      → (a i : ℕ) → pc a ≡ p
      → Move item_count m p m' p'
      → recvd m ≤ i
      → Settled m pc i
      → m'.slots (i % item_count) ≡ m.slots (i % item_count)
  Move-slot inv a i at (write_bytes {i = k} {off} bytes) kept settled =
      ground (arith, writer-ne inv a k off i at kept settled)
  Move-slot inv a i at (edit_bytes {i = k} {off} bytes same) kept settled =
      ground (arith, writer-ne inv a k off i at kept settled)
  Move-slot inv a i at mv kept settled = refl

  Move-Settled :
      {m m' : Shared} {pc : ℕ → Pc} {p p' : Pc}
      → Inv item_count n m pc
      → (a i : ℕ) → pc a ≡ p
      → Move item_count m p m' p'
      → Settled m pc i
      → Settled m' (update pc a p') i
  Move-Settled inv a i at (publish {i = k} g) (inl done) =
      inl (ground (arith, inv.send_range a k, inv.ns_word))
  Move-Settled inv a i at mv (inl done) = inl done
  Move-Settled inv a i at (publish {i = k} g) (inr (b, e)) = elim (Bool-cases (b == a)) [
    | inl same ↦ inl (ground (arith, inv.send_range a k, inv.ns_word))
    | inr other ↦ inr (b, ground arith)
  ]
  Move-Settled inv a i at mv (inr (b, e)) = inr (b, ground arith)

  -- The number of items received does not fall.
  Move-recvd :
      {m m' : Shared} {pc : ℕ → Pc} {p p' : Pc}
      → Inv item_count n m pc
      → (a : ℕ) → pc a ≡ p
      → Move item_count m p m' p'
      → recvd m ≤ recvd m'
  Move-recvd inv a at (release {i = k} g) = ground (arith, inv.recv_range a k, inv.nr_word)
  Move-recvd inv a at mv = omega arith

  Steps-recvd :
      {s t : System}
      → Inv item_count n s.mem s.pc
      → Steps item_count n s t
      → ¬ IsWrapped t.pc
      → recvd s.mem ≤ recvd t.mem
  Steps-recvd inv stay calm = omega arith
  Steps-recvd inv (more {t} r (pick a lt mv)) calm =
      omega (arith, Steps-recvd inv r before, Move-recvd (Steps-Inv inv r before) a refl mv)
    where
      before : ¬ IsWrapped t.pc
      before w = calm (Step-IsWrapped (pick a lt mv) w)

  Steps-slot :
      {s t : System} (i : ℕ)
      → Inv item_count n s.mem s.pc
      → Settled s.mem s.pc i
      → Steps item_count n s t
      → ¬ IsWrapped t.pc
      → recvd t.mem ≤ i
      → (t.mem.slots (i % item_count) ≡ s.mem.slots (i % item_count)) × Settled t.mem t.pc i
  Steps-slot i inv settled stay calm kept = (refl, settled)
  Steps-slot {s} i inv settled (more {t} r (pick a lt mv)) calm kept =
      let (same, settled') = Steps-slot i inv settled r before still in
      (Move-slot mid a i refl mv still settled' ∙ same, Move-Settled mid a i refl mv settled')
    where
      before : ¬ IsWrapped t.pc
      before w = calm (Step-IsWrapped (pick a lt mv) w)

      mid : Inv item_count n t.mem t.pc
      mid = Steps-Inv inv r before

      still : recvd t.mem ≤ i
      still = omega (arith, Move-recvd mid a refl mv)

  -- An item arrives as its producer left it: once the producer of index `i` has begun to drop its
  -- guard, whatever any agents do, a consumer that owns index `i` finds the slot unchanged. Slots
  -- and agents together number at most `isize::MAX`, and no agent has met the wrap-around.
  pub item_intact :
      {s t : System}
      → item_count + n ≤ isize_max
      → Reach item_count n s
      → Steps item_count n s t
      → ¬ IsWrapped t.pc
      → (a b i : ℕ) → s.pc a ≡ push_drop i
      → reads (t.pc b) ≡ some i
      → t.mem.slots (i % item_count) ≡ s.mem.slots (i % item_count)
  item_intact {s} {t} few reach r calm a b i dropping reading =
      (Steps-slot i inv (inr (a, dropping)) r calm (ground (arith, after.recv_range b i))).0
    where
      inv : Inv item_count n s.mem s.pc
      inv = Reach-Inv few reach (λ w. calm (Steps-IsWrapped r w))

      after : Inv item_count n t.mem t.pc
      after = Steps-Inv inv r calm

  -- An item is delivered once: if in a later state two agents hold index `i` as consumers, they are
  -- one agent, and `i` had not been received in the earlier state. Slots and agents together
  -- number at most `isize::MAX`, and no agent has met the wrap-around.
  pub delivered_once :
      {s t : System}
      → item_count + n ≤ isize_max
      → Reach item_count n s
      → Steps item_count n s t
      → ¬ IsWrapped t.pc
      → (b c i : ℕ) → recv_index (t.pc b) ≡ some i
      → recv_index (t.pc c) ≡ some i
      → (recvd s.mem ≤ i) × (b ≡ c)
  delivered_once {s} {t} few reach r calm b c i held held' = (
    omega (arith, Steps-recvd inv r calm, (after.recv_range b i held).0),
    after.recv_unique b c i held held',
  )
    where
      inv : Inv item_count n s.mem s.pc
      inv = Reach-Inv few reach (λ w. calm (Steps-IsWrapped r w))

      after : Inv item_count n t.mem t.pc
      after = Steps-Inv inv r calm
