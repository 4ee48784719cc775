-- ===== src/Queue/Safety.antt =====
-- What holds of a queue of src/shm/queue.rs in every state that its agents reach from a new one.
use sandbox_ipc.Prelude.{
  ℕ, ◌+◌, ◌%◌, ◌≤◌, ◌<◌, ◌≡◌, ◌≢◌, refl, ◌⊎◌, some, arith, if◌then◌else◌, ltb,
}
use sandbox_ipc.Prelude.Word.{isize_max}
use sandbox_ipc.Queue.Agent.{
  Shared, Pc, idle, push_check, push_full, push_hold, push_drop, pop_check, pop_empty, pop_clear,
  pop_hold, pop_drop, wrapped, check_send, check_recv,
}
use sandbox_ipc.Queue.Steps.{System, Reach}
use sandbox_ipc.Queue.Invariant.{
  sent, recvd, send_index, recv_index, owns, Inv, IsWrapped, Reach-Inv, tally-sending-le,
  tally-receiving-le,
}

-- Two indices less than `cap` apart name different slots.
pub mod-ne : (cap i j : ℕ) → i < j → j < i + cap → i % cap ≢ j % cap
mod-ne cap i j lt near e = grind arith

-- What the check of an agent comes to, at a program counter.
abbrev pub Exact : ℕ → Shared → Pc → Type 0
Exact item_count m (push_check i) =
    check_send item_count m.last_recvd_index i
    ≡ (if ltb i (recvd m + item_count) then push_hold i 0 else push_full i)
Exact item_count m (pop_check i) =
    check_recv m.last_sent_index i ≡ (if ltb i (sent m) then pop_clear i else pop_empty i)
Exact item_count m p = Unit {0}

module _ {item_count n : ℕ} where
  -- An agent that owns a slot is a producer or a consumer whose index lies in the window.
  owned :
      {m : Shared} {pc : ℕ → Pc}
      → Inv item_count n m pc
      → (a i : ℕ) → owns (pc a) ≡ some i
      → (recvd m ≤ i)
        × (i < recvd m + item_count)
        × (((send_index (pc a) ≡ some i) × (sent m ≤ i))
            ⊎ ((recv_index (pc a) ≡ some i) × (i < sent m)))
  owned inv a i e = ground (
    arith,
    inv.order,
    inv.room,
    inv.send_range a i,
    inv.recv_range a i,
    inv.may_write a i,
    inv.may_read a i,
  )

  -- Two different agents never own the same slot: of the producers and consumers past their checks,
  -- no two have indices that share a slot, provided that slots and agents together number at most
  -- `isize::MAX` and that no agent has met the wrap-around.
  pub slot_exclusive :
      {s : System}
      → item_count + n ≤ isize_max
      → Reach item_count n s
      → ¬ IsWrapped s.pc
      → (a b i j : ℕ) → a ≢ b
      → owns (s.pc a) ≡ some i
      → owns (s.pc b) ≡ some j
      → i % item_count ≢ j % item_count
  slot_exclusive {s} few r calm a b i j differ own_a own_b = ground (
    arith,
    mod-ne item_count i j,
    mod-ne item_count j i,
    owned inv a i own_a,
    owned inv b j own_b,
    inv.send_unique a b i,
    inv.recv_unique a b i,
  )
    where
      inv : Inv item_count n s.mem s.pc
      inv = Reach-Inv few r calm

  check_send_exact :
      {s : System}
      → item_count + n ≤ isize_max
      → Reach item_count n s
      → ¬ IsWrapped s.pc
      → (a i : ℕ) → s.pc a ≡ push_check i
      → check_send item_count s.mem.last_recvd_index i
        ≡ (if ltb i (recvd s.mem + item_count) then push_hold i 0 else push_full i)
  check_send_exact {s} few r calm a i at = ground (
    arith,
    inv.few,
    inv.lr_word,
    inv.order,
    inv.room,
    inv.sends,
    inv.send_range a i,
    tally-sending-le n s.pc,
  )
    where
      inv : Inv item_count n s.mem s.pc
      inv = Reach-Inv few r calm

  check_recv_exact :
      {s : System}
      → item_count + n ≤ isize_max
      → Reach item_count n s
      → ¬ IsWrapped s.pc
      → (a i : ℕ) → s.pc a ≡ pop_check i
      → check_recv s.mem.last_sent_index i
        ≡ (if ltb i (sent s.mem) then pop_clear i else pop_empty i)
  check_recv_exact {s} few r calm a i at = ground (
    arith,
    inv.few,
    inv.ls_word,
    inv.order,
    inv.room,
    inv.recvs,
    inv.recv_range a i,
    tally-receiving-le n s.pc,
  )
    where
      inv : Inv item_count n s.mem s.pc
      inv = Reach-Inv few r calm

  -- The wrapping subtractions and the signed tests of `try_push` and `try_pop` are exact: an agent at
  -- its check passes with a send index exactly when that lies less than `item_count` past the number
  -- of items received, and with a receive index exactly when that is less than the number of items
  -- sent, provided that slots and agents together number at most `isize::MAX` and that no agent has
  -- met the wrap-around.
  pub checks-Exact :
      {s : System}
      → item_count + n ≤ isize_max
      → Reach item_count n s
      → ¬ IsWrapped s.pc
      → (a : ℕ) → Exact item_count s.mem (s.pc a)
  checks-Exact {s} few r calm a = at (s.pc a) refl
    where
      at : (p : Pc) → s.pc a ≡ p → Exact item_count s.mem p
      at (push_check i) e = check_send_exact few r calm a i e
      at (pop_check i) e = check_recv_exact few r calm a i e
      at idle e = tt
      at (push_full i) e = tt
      at (push_hold i off) e = tt
      at (push_drop i) e = tt
      at (pop_empty i) e = tt
      at (pop_clear i) e = tt
      at (pop_hold i off poisoned) e = tt
      at (pop_drop i) e = tt
      at wrapped e = tt
