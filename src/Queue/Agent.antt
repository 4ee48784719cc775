-- ===== src/Queue/Agent.antt =====
-- One call of `try_push` or `try_pop` of src/shm/queue.rs with the guard that it returns: an agent.
-- An agent touches shared memory one atomic access at a time. A thread that holds several guards
-- at once is several agents. All accesses are SeqCst, so that they interleave.
use sandbox_ipc.Prelude.{ℕ, ◌%◌, ◌≡◌, Bool, ◌||◌, List, length, ◌==◌, if◌then◌else◌, not}
use sandbox_ipc.Prelude.Word.{usize_max, wrapping_add, wrapping_sub, isize_lt}
use sandbox_ipc.Prelude.Agents.{update}
use sandbox_ipc.Queue.Guard
use sandbox_ipc.Queue.Guard.{PushGuard, PopGuard}

-- `SharedMemQueueCtrl`, and the item slots by their number, `index % item_count`.
pub record Shared : Type 0 where
  pub next_send_index : ℕ
  pub last_sent_index : ℕ
  pub next_recv_index : ℕ
  pub last_recvd_index : ℕ
  pub poison : Bool
  pub slots : ℕ → List ℕ

-- Where an agent stands, with the local variables that are live there.
pub data Pc : Type 0 where
  idle : Pc
  push_check : (send_index : ℕ) → Pc  -- head of 'check_send_clear
  push_full : (send_index : ℕ) → Pc  -- before the compare-exchange that puts the index back
  push_hold : (send_index write_offset : ℕ) → Pc  -- owns a `PushGuard`
  push_drop : (send_index : ℕ) → Pc  -- head of the loop in `PushGuard::drop`
  pop_check : (recv_index : ℕ) → Pc  -- head of 'check_recv_clear
  pop_empty : (recv_index : ℕ) → Pc  -- before the compare-exchange that puts the index back
  pop_clear : (recv_index : ℕ) → Pc  -- before the load of the poison flag
  pop_hold : (recv_index read_offset : ℕ) (poisoned : Bool) → Pc  -- owns a `PopGuard`
  pop_drop : (recv_index : ℕ) → Pc  -- head of the loop in `PopGuard::drop`
  wrapped : Pc  -- stopped by `unimplemented!()`

-- What `fetch_add` hands out; the last index of all is the wrap-around that is not implemented.
abbrev pub claim_send : ℕ → Pc
claim_send send_index = if send_index == usize_max then wrapped else push_check send_index

abbrev pub claim_recv : ℕ → Pc
claim_recv recv_index = if recv_index == usize_max then wrapped else pop_check recv_index

-- Whether the slot is free for index `send_index`, by the loaded `last_recvd_index`.
abbrev pub check_send : ℕ → ℕ → ℕ → Pc
check_send item_count last_recvd_index send_index =
    if isize_lt (wrapping_sub send_index (wrapping_add last_recvd_index 1)) item_count
    then push_hold send_index 0
    else push_full send_index

-- Whether index `recv_index` has been sent, by the loaded `last_sent_index`.
abbrev pub check_recv : ℕ → ℕ → Pc
check_recv last_sent_index recv_index =
    if not (isize_lt (wrapping_sub last_sent_index recv_index) 0)
    then pop_clear recv_index
    else pop_empty recv_index

-- The guard of an agent at `push_hold`, and of one at `pop_hold`.
abbrev pub push_guard : ℕ → Shared → ℕ → ℕ → PushGuard
push_guard item_count m i off = record {
  send_index = i;
  slice = m.slots (i % item_count);
  write_offset = off;
}

abbrev pub pop_guard : ℕ → Shared → ℕ → ℕ → PopGuard
pop_guard item_count m i off = record {
  recv_index = i;
  slice = m.slots (i % item_count);
  read_offset = off;
}

abbrev pub put_slot : ℕ → Shared → ℕ → List ℕ → Shared
put_slot item_count m i bytes = record m { slots = update m.slots (i % item_count) bytes }

-- One atomic access of one agent. A compare-exchange is weak: it may fail whatever it reads.
pub data Move (item_count : ℕ) (m : Shared) : Pc → Shared → Pc → Type 0 where
  try_push :
      Move item_count m idle
        (record m { next_send_index = wrapping_add m.next_send_index 1 })
        (claim_send m.next_send_index)
  load_recvd :
      {i : ℕ} → Move item_count m (push_check i) m (check_send item_count m.last_recvd_index i)
  put_back_send :
      {i : ℕ}
      → m.next_send_index ≡ wrapping_add i 1
      → Move item_count m (push_full i) (record m { next_send_index = i }) idle
  retry_send : {i : ℕ} → Move item_count m (push_full i) m (push_check i)
  write_bytes :
      {i off : ℕ} (bytes : List ℕ)
      → Move item_count m
          (push_hold i off)
          (put_slot item_count m i (Guard.write (push_guard item_count m i off) bytes).0.slice)
          (push_hold i (Guard.write (push_guard item_count m i off) bytes).0.write_offset)
  edit_bytes :
      {i off : ℕ} (bytes : List ℕ)
      → length bytes ≡ length (m.slots (i % item_count))
      → Move item_count m (push_hold i off) (put_slot item_count m i bytes) (push_hold i off)
  drop_push :
      {i off : ℕ} (panicking : Bool)
      → Move item_count m
          (push_hold i off)
          (record m { poison = panicking || m.poison })
          (push_drop i)
  publish :
      {i : ℕ}
      → m.last_sent_index ≡ wrapping_sub i 1
      → Move item_count m (push_drop i) (record m { last_sent_index = i }) idle
  wait_push : {i : ℕ} → Move item_count m (push_drop i) m (push_drop i)
  try_pop :
      Move item_count m idle
        (record m { next_recv_index = wrapping_add m.next_recv_index 1 })
        (claim_recv m.next_recv_index)
  load_sent : {i : ℕ} → Move item_count m (pop_check i) m (check_recv m.last_sent_index i)
  put_back_recv :
      {i : ℕ}
      → m.next_recv_index ≡ wrapping_add i 1
      → Move item_count m (pop_empty i) (record m { next_recv_index = i }) idle
  retry_recv : {i : ℕ} → Move item_count m (pop_empty i) m (pop_check i)
  load_poison : {i : ℕ} → Move item_count m (pop_clear i) m (pop_hold i 0 m.poison)
  read_bytes :
      {i off : ℕ} {poisoned : Bool} (buffer : List ℕ)
      → Move item_count m
          (pop_hold i off poisoned)
          m
          (pop_hold i (Guard.read (pop_guard item_count m i off) buffer).0.read_offset poisoned)
  drop_pop :
      {i off : ℕ} {poisoned : Bool} (panicking : Bool)
      → Move item_count m
          (pop_hold i off poisoned)
          (record m { poison = panicking || m.poison })
          (pop_drop i)
  release :
      {i : ℕ}
      → m.last_recvd_index ≡ wrapping_sub i 1
      → Move item_count m (pop_drop i) (record m { last_recvd_index = i }) idle
  wait_pop : {i : ℕ} → Move item_count m (pop_drop i) m (pop_drop i)
