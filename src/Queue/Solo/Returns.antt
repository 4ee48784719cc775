-- ===== src/Queue/Solo/Returns.antt =====
-- That `try_push` and `try_pop` of src/shm/queue.rs return, while no other agent moves.
use sandbox_ipc.Prelude.{
  ℕ, suc, ◌+◌, ◌≤◌, ◌<◌, ◌≡◌, ◌≢◌, refl, ◌∙◌, Bool, true, false, some, arith, ◌==◌, ltb,
  if◌then◌else◌,
}
use sandbox_ipc.Prelude.Word.{isize_max, usize_max, usize_mod, wrapping_add}
use sandbox_ipc.Queue.Agent.{
  Shared, idle, push_check, push_full, push_hold, pop_check, pop_empty, pop_clear, claim_send,
  claim_recv, check_send, check_recv, try_push, try_pop,
}
use sandbox_ipc.Queue.Steps.{System, Reach}
use sandbox_ipc.Queue.Invariant.{
  sent, recvd, Inv, IsWrapped, Reach-Inv, tally-sending-le, tally-receiving-le,
}
use sandbox_ipc.Queue.Solo.{
  call_push, call_pop, push_result, pop_result, Reached, finish-returned, finish-access,
  finish-Steps, first_access,
}

push_run :
    (fuel item_count : ℕ) (m : Shared) (room : Bool)
    → m.next_send_index < usize_mod
    → m.next_send_index ≢ usize_max
    → check_send item_count m.last_recvd_index m.next_send_index
      ≡ (if room then push_hold m.next_send_index 0 else push_full m.next_send_index)
    → call_push (suc (suc fuel)) item_count m ≡ some (push_result room m)
push_run fuel item_count m true lt ne e =
    let claim : claim_send m.next_send_index ≡ push_check m.next_send_index = ground arith in
    let next : wrapping_add m.next_send_index 1 ≡ m.next_send_index + 1 = omega arith in
    rw claim (
      rw next (
        finish-access (suc fuel) item_count _ _ refl
        ∙ rw e (finish-returned (suc fuel) item_count _ _ refl)))
push_run fuel item_count m false lt ne e =
    let claim : claim_send m.next_send_index ≡ push_check m.next_send_index = ground arith in
    let same : (wrapping_add m.next_send_index 1 == wrapping_add m.next_send_index 1) ≡ true =
      ground arith in
    rw claim (
      finish-access (suc fuel) item_count _ _ refl
      ∙ rw e (
          finish-access fuel item_count _ _ refl
          ∙ rw same (finish-returned fuel item_count m idle refl)))

pop_run :
    (fuel item_count : ℕ) (m : Shared) (filled : Bool)
    → m.next_recv_index < usize_mod
    → m.next_recv_index ≢ usize_max
    → check_recv m.last_sent_index m.next_recv_index
      ≡ (if filled then pop_clear m.next_recv_index else pop_empty m.next_recv_index)
    → call_pop (suc (suc fuel)) item_count m ≡ some (pop_result filled m)
pop_run fuel item_count m true lt ne e =
    let claim : claim_recv m.next_recv_index ≡ pop_check m.next_recv_index = ground arith in
    let next : wrapping_add m.next_recv_index 1 ≡ m.next_recv_index + 1 = omega arith in
    rw claim (
      rw next (
        finish-access (suc fuel) item_count _ _ refl
        ∙ rw e (finish-access fuel item_count _ _ refl ∙ finish-returned fuel item_count _ _ refl)))
pop_run fuel item_count m false lt ne e =
    let claim : claim_recv m.next_recv_index ≡ pop_check m.next_recv_index = ground arith in
    let same : (wrapping_add m.next_recv_index 1 == wrapping_add m.next_recv_index 1) ≡ true =
      ground arith in
    rw claim (
      finish-access (suc fuel) item_count _ _ refl
      ∙ rw e (
          finish-access fuel item_count _ _ refl
          ∙ rw same (finish-returned fuel item_count m idle refl)))

module _ {item_count n : ℕ} {s : System} where
  send-range :
      item_count + n ≤ isize_max
      → Reach item_count n s
      → ¬ IsWrapped s.pc
      → check_send item_count s.mem.last_recvd_index s.mem.next_send_index ≡ (
          if ltb s.mem.next_send_index (recvd s.mem + item_count)
          then push_hold s.mem.next_send_index 0
          else push_full s.mem.next_send_index)
  send-range few r calm = ground (
    arith,
    inv.few,
    inv.lr_word,
    inv.order,
    inv.room,
    inv.sends,
    inv.ns_word,
    tally-sending-le n s.pc,
  )
    where
      inv : Inv item_count n s.mem s.pc
      inv = Reach-Inv few r calm

  recv-range :
      item_count + n ≤ isize_max
      → Reach item_count n s
      → ¬ IsWrapped s.pc
      → check_recv s.mem.last_sent_index s.mem.next_recv_index ≡ (
          if ltb s.mem.next_recv_index (sent s.mem)
          then pop_clear s.mem.next_recv_index
          else pop_empty s.mem.next_recv_index)
  recv-range few r calm = ground (
    arith,
    inv.few,
    inv.ls_word,
    inv.order,
    inv.room,
    inv.recvs,
    inv.nr_word,
    tally-receiving-le n s.pc,
  )
    where
      inv : Inv item_count n s.mem s.pc
      inv = Reach-Inv few r calm

  try_push_returns :
      item_count + n ≤ isize_max
      → Reach item_count n s
      → ¬ IsWrapped s.pc
      → s.mem.next_send_index ≢ usize_max
      → (a : ℕ) → a < n
      → s.pc a ≡ idle
      → (fuel : ℕ)
      → let (m, p) = push_result (ltb s.mem.next_send_index (recvd s.mem + item_count)) s.mem in
        (call_push (suc (suc fuel)) item_count s.mem ≡ some (m, p)) × Reached item_count n s a m p
  try_push_returns few r calm below a lt at fuel =
      let run =
        push_run fuel item_count s.mem _ (Inv.ns_word (Reach-Inv few r calm)) below
          (send-range few r calm) in
      (run, finish-Steps (suc (suc fuel)) a _ _ lt (first_access a lt at try_push) run)

  try_pop_returns :
      item_count + n ≤ isize_max
      → Reach item_count n s
      → ¬ IsWrapped s.pc
      → s.mem.next_recv_index ≢ usize_max
      → (a : ℕ) → a < n
      → s.pc a ≡ idle
      → (fuel : ℕ)
      → let (m, p) = pop_result (ltb s.mem.next_recv_index (sent s.mem)) s.mem in
        (call_pop (suc (suc fuel)) item_count s.mem ≡ some (m, p)) × Reached item_count n s a m p
  try_pop_returns few r calm below a lt at fuel =
      let run =
        pop_run fuel item_count s.mem _ (Inv.nr_word (Reach-Inv few r calm)) below
          (recv-range few r calm) in
      (run, finish-Steps (suc (suc fuel)) a _ _ lt (first_access a lt at try_pop) run)

  -- With nobody in the way, a call returns after three accesses at most. `try_push` returns a guard
  -- of the next index when that lies less than `item_count` past the number of items received;
  -- `try_pop` returns a guard of the next index, with the poison flag, when that is less than the
  -- number of items sent; else they return `None`, with the memory as it was. The state is one that
  -- agents reach, in which any of them may hold guards or stand in the middle of a call; no
  -- compare-exchange fails without cause; the next indices are not `usize::MAX`; slots and agents
  -- together number at most `isize::MAX`, and no agent has met the wrap-around. What a call does is
  -- a run of the agent that makes it.
  pub calls_return :
      item_count + n ≤ isize_max
      → Reach item_count n s
      → ¬ IsWrapped s.pc
      → s.mem.next_send_index ≢ usize_max
      → s.mem.next_recv_index ≢ usize_max
      → (a : ℕ) → a < n
      → s.pc a ≡ idle
      → (fuel : ℕ)
      → (let (m, p) = push_result (ltb s.mem.next_send_index (recvd s.mem + item_count)) s.mem in
          (call_push (suc (suc fuel)) item_count s.mem ≡ some (m, p))
          × Reached item_count n s a m p)
        × (let (m, p) = pop_result (ltb s.mem.next_recv_index (sent s.mem)) s.mem in
            (call_pop (suc (suc fuel)) item_count s.mem ≡ some (m, p))
            × Reached item_count n s a m p)
  calls_return few r calm send recv a lt at fuel =
      (try_push_returns few r calm send a lt at fuel, try_pop_returns few r calm recv a lt at fuel)
