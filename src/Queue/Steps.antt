-- ===== src/Queue/Steps.antt =====
-- Agents over one queue of src/shm/queue.rs, interleaved in any order.
use sandbox_ipc.Prelude.{ℕ, ◌<◌, List, false}
use sandbox_ipc.Prelude.Word.{usize_max}
use sandbox_ipc.Prelude.Agents.{update}
use sandbox_ipc.Queue.Agent.{Shared, Pc, Move}

-- An index from the number of agents on names no agent: it is never picked.
pub record System : Type 0 where
  pub mem : Shared
  pub pc : ℕ → Pc

-- The control block that `new_with_memory` writes. The bytes of the slots are whatever is there.
abbrev pub new_control : (ℕ → List ℕ) → Shared
new_control slots = record {
  next_send_index = 0;
  last_sent_index = usize_max;
  next_recv_index = 0;
  last_recvd_index = usize_max;
  poison = false;
  slots = slots;
}

abbrev pub init : (ℕ → List ℕ) → System
init slots = record { mem = new_control slots; pc = λ _. Pc.idle }

-- A queue of `item_count` slots, used by at most `n` agents at once.
module _ (item_count n : ℕ) where
  pub data Step (s : System) : System → Type 0 where
    pick :
        (a : ℕ) {m : Shared} {p : Pc}
        → a < n
        → Move item_count s.mem (s.pc a) m p
        → Step s (record { mem = m; pc = update s.pc a p })

  -- Reachable from `s`, by any number of steps.
  pub data Steps (s : System) : System → Type 0 where
    stay : Steps s s
    more : {t u : System} → Steps s t → Step t u → Steps s u

  -- Reachable from a new queue.
  abbrev pub Reach : System → Type 0
  Reach s = (slots : ℕ → List ℕ) × Steps (init slots) s
