-- ===== src/Queue/Progress.antt =====
-- Who holds the indices of a queue of src/shm/queue.rs: among the agents that hold some there is always
-- one for whose index a counter has the value that its compare-exchange expects.
use sandbox_ipc.Prelude.{ℕ, ◌+◌, ◌-◌, ◌≤◌, ◌<◌, ◌≡◌, ◌≢◌, refl, Option, none, some, arith, dec_lt}
use sandbox_ipc.Prelude.Word.{isize_max, wrapping_add, wrapping_sub}
use sandbox_ipc.Prelude.Agents.{update}
use sandbox_ipc.Queue.Agent.{
  Shared, Pc, Move, try_push, put_back_send, publish, try_pop, put_back_recv, release, wrapped,
}
use sandbox_ipc.Queue.Steps.{System, pick, Steps, stay, more, Reach}
use sandbox_ipc.Queue.Invariant.{
  sent, recvd, send_index, recv_index, Inv, IsWrapped, Reach-Inv, Steps-Inv, Step-IsWrapped,
  init-Inv,
}

-- Each index that has been claimed and not finished has an agent.
record Covered (m : Shared) (pc : ℕ → Pc) : Type 0 where
  sender : (k : ℕ) → sent m ≤ k → k < m.next_send_index → (a : ℕ) × (send_index (pc a) ≡ some k)
  receiver : (k : ℕ) → recvd m ≤ k → k < m.next_recv_index → (a : ℕ) × (recv_index (pc a) ≡ some k)

-- If an index is held: who holds the first index that is not done, and who the last one claimed.
abbrev pub Progress : (Pc → Option ℕ) → (ℕ → Pc) → (last_done next : ℕ) → Option ℕ → Type 0
Progress index pc last_done next none = Unit {0}
Progress index pc last_done next (some i) =
    ((b k : ℕ) × (index (pc b) ≡ some k) × (last_done ≡ wrapping_sub k 1))
    × ((c k : ℕ) × (index (pc c) ≡ some k) × (next ≡ wrapping_add k 1))

module _ {item_count n : ℕ} where
  Move-sender :
      {m m' : Shared} {pc : ℕ → Pc} {p p' : Pc}
      → Inv item_count n m pc
      → Covered m pc
      → (a : ℕ) → pc a ≡ p
      → Move item_count m p m' p'
      → p' ≢ wrapped
      → (k : ℕ) → sent m' ≤ k
      → k < m'.next_send_index
      → (b : ℕ) × (send_index (update pc a p' b) ≡ some k)
  Move-sender {m} inv cov a at try_push ne k lo hi = elim (dec_lt k m.next_send_index) [
    | yes old ↦ let (b, e) = cov.sender k lo old in (b, ground arith)
    | no new ↦ (a, ground arith)
  ]
  Move-sender inv cov a at (put_back_send {i} g) ne k lo hi =
      let (b, e) = cov.sender k lo (ground (arith, inv.send_range a i)) in
      (b, ground (arith, inv.send_range a i))
  Move-sender inv cov a at (publish {i} g) ne k lo hi =
      let (b, e) = cov.sender k (ground (arith, inv.send_range a i, inv.ns_word)) hi in
      (b, ground (arith, inv.send_range a i, inv.ns_word))
  Move-sender inv cov a at mv ne k lo hi = let (b, e) = cov.sender k lo hi in (b, ground arith)

  Move-receiver :
      {m m' : Shared} {pc : ℕ → Pc} {p p' : Pc}
      → Inv item_count n m pc
      → Covered m pc
      → (a : ℕ) → pc a ≡ p
      → Move item_count m p m' p'
      → p' ≢ wrapped
      → (k : ℕ) → recvd m' ≤ k
      → k < m'.next_recv_index
      → (b : ℕ) × (recv_index (update pc a p' b) ≡ some k)
  Move-receiver {m} inv cov a at try_pop ne k lo hi = elim (dec_lt k m.next_recv_index) [
    | yes old ↦ let (b, e) = cov.receiver k lo old in (b, ground arith)
    | no new ↦ (a, ground arith)
  ]
  Move-receiver inv cov a at (put_back_recv {i} g) ne k lo hi =
      let (b, e) = cov.receiver k lo (ground (arith, inv.recv_range a i)) in
      (b, ground (arith, inv.recv_range a i))
  Move-receiver inv cov a at (release {i} g) ne k lo hi =
      let (b, e) = cov.receiver k (ground (arith, inv.recv_range a i, inv.nr_word)) hi in
      (b, ground (arith, inv.recv_range a i, inv.nr_word))
  Move-receiver inv cov a at mv ne k lo hi = let (b, e) = cov.receiver k lo hi in (b, ground arith)

  Steps-Covered :
      {s t : System}
      → Inv item_count n s.mem s.pc
      → Covered s.mem s.pc
      → Steps item_count n s t
      → ¬ IsWrapped t.pc
      → Covered t.mem t.pc
  Steps-Covered inv cov stay calm = cov
  Steps-Covered inv cov (more {t} r (pick a lt mv)) calm =
      let now = Steps-Covered inv cov r before in
      record {
        sender = Move-sender mid now a refl mv (λ e. calm (a, ground arith));
        receiver = Move-receiver mid now a refl mv (λ e. calm (a, ground arith));
      }
    where
      before : ¬ IsWrapped t.pc
      before w = calm (Step-IsWrapped (pick a lt mv) w)

      mid : Inv item_count n t.mem t.pc
      mid = Steps-Inv inv r before

  Reach-Covered :
      {s : System}
      → item_count + n ≤ isize_max
      → Reach item_count n s
      → ¬ IsWrapped s.pc
      → Covered s.mem s.pc
  Reach-Covered few (slots, r) calm =
      Steps-Covered (init-Inv slots few)
        (record {
          sender = λ k lo hi. absurd (omega arith);
          receiver = λ k lo hi. absurd (omega arith);
        })
        r calm

  producers_progress :
      {s : System}
      → item_count + n ≤ isize_max
      → Reach item_count n s
      → ¬ IsWrapped s.pc
      → (a i : ℕ) → send_index (s.pc a) ≡ some i
      → ((b k : ℕ) × (send_index (s.pc b) ≡ some k) × (s.mem.last_sent_index ≡ wrapping_sub k 1))
        × ((c k : ℕ) × (send_index (s.pc c) ≡ some k) × (s.mem.next_send_index ≡ wrapping_add k 1))
  producers_progress {s} few r calm a i held =
      let (b, first) =
        cov.sender (sent s.mem) (omega arith) (omega (arith, inv.send_range a i held)) in
      let (c, last) =
        cov.sender (s.mem.next_send_index - 1) (omega (arith, inv.send_range a i held))
          (omega (arith, inv.send_range a i held)) in
      (
        (b, sent s.mem, first, omega (arith, inv.ls_word)),
        (c, s.mem.next_send_index - 1, last, omega (arith, inv.ns_word, inv.send_range a i held)),
      )
    where
      inv : Inv item_count n s.mem s.pc
      inv = Reach-Inv few r calm

      cov : Covered s.mem s.pc
      cov = Reach-Covered few r calm

  consumers_progress :
      {s : System}
      → item_count + n ≤ isize_max
      → Reach item_count n s
      → ¬ IsWrapped s.pc
      → (a i : ℕ) → recv_index (s.pc a) ≡ some i
      → ((b k : ℕ) × (recv_index (s.pc b) ≡ some k) × (s.mem.last_recvd_index ≡ wrapping_sub k 1))
        × ((c k : ℕ) × (recv_index (s.pc c) ≡ some k) × (s.mem.next_recv_index ≡ wrapping_add k 1))
  consumers_progress {s} few r calm a i held =
      let (b, first) =
        cov.receiver (recvd s.mem) (omega arith) (omega (arith, inv.recv_range a i held)) in
      let (c, last) =
        cov.receiver (s.mem.next_recv_index - 1) (omega (arith, inv.recv_range a i held))
          (omega (arith, inv.recv_range a i held)) in
      (
        (b, recvd s.mem, first, omega (arith, inv.lr_word)),
        (c, s.mem.next_recv_index - 1, last, omega (arith, inv.nr_word, inv.recv_range a i held)),
      )
    where
      inv : Inv item_count n s.mem s.pc
      inv = Reach-Inv few r calm

      cov : Covered s.mem s.pc
      cov = Reach-Covered few r calm

  -- No index is orphaned: if an agent holds a send index, then some agent holds the first index that is
  -- not published, the one for which the count of published indices has the value that the
  -- compare-exchange in the drop of a guard expects; and some agent holds the last index that is
  -- claimed, the one for which the counter of claims has the value that putting the index back expects.
  -- If an agent holds a receive index, then the same holds of the first index not released and of the
  -- last one claimed. Slots and agents together number at most
  -- `isize::MAX`, and no agent has met the wrap-around.
  pub agents-Progress :
      {s : System}
      → item_count + n ≤ isize_max
      → Reach item_count n s
      → ¬ IsWrapped s.pc
      → (a b : ℕ)
      → Progress send_index s.pc s.mem.last_sent_index s.mem.next_send_index (send_index (s.pc a))
        × Progress recv_index s.pc s.mem.last_recvd_index s.mem.next_recv_index
            (recv_index (s.pc b))
  agents-Progress {s} few r calm a b =
      (sender (send_index (s.pc a)) refl, receiver (recv_index (s.pc b)) refl)
    where
      sender :
          (held : Option ℕ)
          → send_index (s.pc a) ≡ held
          → Progress send_index s.pc s.mem.last_sent_index s.mem.next_send_index held
      sender none e = tt
      sender (some i) e = producers_progress few r calm a i e

      receiver :
          (held : Option ℕ)
          → recv_index (s.pc b) ≡ held
          → Progress recv_index s.pc s.mem.last_recvd_index s.mem.next_recv_index held
      receiver none e = tt
      receiver (some i) e = consumers_progress few r calm b i e
