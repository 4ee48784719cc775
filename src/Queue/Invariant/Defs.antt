-- ===== src/Queue/Invariant/Defs.antt =====
-- Which agent owns which index of a queue, and what the four counters of its control block say.
use sandbox_ipc.Prelude.{ℕ, ◌+◌, ◌≤◌, ◌<◌, ◌≡◌, Option, none, some}
use sandbox_ipc.Prelude.Word.{usize_mod, isize_max, wrapping_add}
use sandbox_ipc.Prelude.Agents.{tally}
use sandbox_ipc.Queue.Agent.{
  Shared, Pc, push_check, push_full, push_hold, push_drop, pop_check, pop_empty, pop_clear,
  pop_hold, pop_drop, wrapped,
}

-- The number of items sent and received: one more than the last index, which starts as
-- `usize::MAX`.
abbrev pub sent : Shared → ℕ
sent m = wrapping_add m.last_sent_index 1

abbrev pub recvd : Shared → ℕ
recvd m = wrapping_add m.last_recvd_index 1

-- The send index that an agent has claimed and neither published nor put back.
abbrev pub send_index : Pc → Option ℕ
send_index (push_check i) = some i
send_index (push_full i) = some i
send_index (push_hold i off) = some i
send_index (push_drop i) = some i
send_index _ = none

abbrev pub recv_index : Pc → Option ℕ
recv_index (pop_check i) = some i
recv_index (pop_empty i) = some i
recv_index (pop_clear i) = some i
recv_index (pop_hold i off poisoned) = some i
recv_index (pop_drop i) = some i
recv_index _ = none

-- The index whose slot a producer owns, and that whose slot a consumer owns: past their checks.
abbrev pub writes : Pc → Option ℕ
writes (push_hold i off) = some i
writes (push_drop i) = some i
writes _ = none

abbrev pub reads : Pc → Option ℕ
reads (pop_clear i) = some i
reads (pop_hold i off poisoned) = some i
reads (pop_drop i) = some i
reads _ = none

-- The index whose slot an agent owns.
abbrev pub owns : Pc → Option ℕ
owns (push_hold i off) = some i
owns (push_drop i) = some i
owns (pop_clear i) = some i
owns (pop_hold i off poisoned) = some i
owns (pop_drop i) = some i
owns _ = none

abbrev pub weight : Option ℕ → ℕ
weight none = 0
weight (some i) = 1

abbrev pub sending : Pc → ℕ
sending p = weight (send_index p)

abbrev pub receiving : Pc → ℕ
receiving p = weight (recv_index p)

pub record Inv (item_count n : ℕ) (m : Shared) (pc : ℕ → Pc) : Type 0 where
  pub few : item_count + n ≤ isize_max
  pub ls_word : m.last_sent_index < usize_mod
  pub lr_word : m.last_recvd_index < usize_mod
  pub ns_word : m.next_send_index < usize_mod
  pub nr_word : m.next_recv_index < usize_mod
  pub sends : m.next_send_index ≡ sent m + tally sending n pc
  pub recvs : m.next_recv_index ≡ recvd m + tally receiving n pc
  pub order : recvd m ≤ sent m
  pub room : sent m ≤ recvd m + item_count
  pub send_range : (a i : ℕ) → send_index (pc a) ≡ some i → (sent m ≤ i) × (i < m.next_send_index)
  pub recv_range : (a i : ℕ) → recv_index (pc a) ≡ some i → (recvd m ≤ i) × (i < m.next_recv_index)
  pub send_unique : (a b i : ℕ) → send_index (pc a) ≡ some i → send_index (pc b) ≡ some i → a ≡ b
  pub recv_unique : (a b i : ℕ) → recv_index (pc a) ≡ some i → recv_index (pc b) ≡ some i → a ≡ b
  pub may_write : (a i : ℕ) → writes (pc a) ≡ some i → i < recvd m + item_count
  pub may_read : (a i : ℕ) → reads (pc a) ≡ some i → i < sent m

-- An agent has met the wrap-around.
abbrev pub IsWrapped : (ℕ → Pc) → Type 0
IsWrapped pc = (a : ℕ) × (pc a ≡ wrapped)
