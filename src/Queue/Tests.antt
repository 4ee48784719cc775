-- ===== src/Queue/Tests.antt =====
-- A queue of two slots of src/shm/queue.rs, run by hand, and the theorems at states that it reaches.
mod Traces
use sandbox_ipc.Prelude.{
  ℕ, ◌+◌, ◌%◌, ◌≤◌, ◌≡◌, refl, length, List, [], ◌∷◌, false, arith, some, ◌≢◌, if◌then◌else◌, ltb,
}
use sandbox_ipc.Queue.Guard.{PushGuard, PopGuard, write, read}
use sandbox_ipc.Queue.Guard.Copy.{read-write}
use sandbox_ipc.Queue.Agent.{
  push_full, push_hold, try_push, load_recvd, write_bytes, drop_push, publish, try_pop, load_sent,
  load_poison, check_send, check_recv, pop_clear,
}
use sandbox_ipc.Queue.Steps.{System, init, Step, pick, Steps, stay, more}
use sandbox_ipc.Queue.Invariant.{recvd, IsWrapped, send_index, recv_index}
use sandbox_ipc.Queue.Safety.{slot_exclusive}
use sandbox_ipc.Queue.Progress.{Progress, agents-Progress}
use sandbox_ipc.Prelude.Word.{wrapping_add, wrapping_sub}
use sandbox_ipc.Queue.Fifo.{item_intact, delivered_once}

abbrev blank : ℕ → List ℕ
blank k = 0 ∷ 0 ∷ []

-- One more move, by agent `a` of two.
infixl 5 ◌▸◌
abbrev ◌▸◌ : {s t u : System} → Steps 2 2 s t → Step 2 2 t u → Steps 2 2 s u
r ▸ st = more r st

-- Agent 0 has written 7 into slot 0 and begun to drop its guard; agent 1 has claimed index 1.
abbrev filled : (s : System) × Steps 2 2 (init blank) s
filled = (
  _,
  stay
      ▸ pick 0 (omega arith) try_push
      ▸ pick 0 (omega arith) load_recvd
      ▸ pick 0 (omega arith) (write_bytes (7 ∷ []))
      ▸ pick 0 (omega arith) (drop_push false)
      ▸ pick 1 (omega arith) try_push,
)

-- Then both agents own slots.
abbrev owned : (s : System) × Steps 2 2 (init blank) s
owned = (_, filled.1 ▸ pick 1 (omega arith) load_recvd)

owned_calm : ¬ IsWrapped owned.0.pc
owned_calm (a, e) = ground arith

-- Or both agents own slots, agent 0 publishes, and receives its own item.
abbrev received : (s : System) × Steps 2 2 filled.0 s
unfolding write
received = (
  _,
  stay
      ▸ pick 1 (omega arith) load_recvd
      ▸ pick 1 (omega arith) (write_bytes (8 ∷ 9 ∷ 10 ∷ []))
      ▸ pick 0 (omega arith) (publish refl)
      ▸ pick 0 (omega arith) try_pop
      ▸ pick 0 (omega arith) load_sent
      ▸ pick 0 (omega arith) load_poison,
)

-- A second producer that finds both slots taken, before it puts its index back.
abbrev crowded : (s : System) × Steps 2 3 (init blank) s
crowded = (
  _,
  more
      (more
        (more
          (more (more (more stay (pick 0 (omega arith) try_push)) (pick 0 (omega arith) load_recvd))
            (pick 1 (omega arith) try_push))
          (pick 1 (omega arith) load_recvd))
        (pick 2 (omega arith) try_push))
      (pick 2 (omega arith) load_recvd),
)

crowded_full : crowded.0.pc 2 ≡ push_full 2
crowded_full = refl

filled_calm : ¬ IsWrapped filled.0.pc
filled_calm (a, e) = ground arith

received_calm : ¬ IsWrapped received.0.pc
unfolding write
received_calm (a, e) = ground arith

slot_exclusive_example : 0 % 2 ≢ 1 % 2
slot_exclusive_example =
    slot_exclusive {item_count = 2} {n = 2} {s = owned.0} (omega arith) (blank, owned.1) owned_calm
      0 1 0 1 (omega arith) refl refl

item_intact_example : received.0.mem.slots 0 ≡ filled.0.mem.slots 0
unfolding write
item_intact_example =
    item_intact {item_count = 2} {n = 2} {s = filled.0} {t = received.0} (omega arith)
      (blank, filled.1) received.1 received_calm 0 0 0 refl refl

delivered_once_example : (recvd filled.0.mem ≤ 0) × ◌≡◌ {A = ℕ} 0 0
unfolding write
delivered_once_example =
    delivered_once {item_count = 2} {n = 2} {s = filled.0} {t = received.0} (omega arith)
      (blank, filled.1) received.1 received_calm 0 0 0 refl refl

-- Agent 0 has published its item, and has claimed the first index to receive.
abbrev polled : (s : System) × Steps 2 2 (init blank) s
unfolding write
polled = (
  _,
  filled.1
      ▸ pick 1 (omega arith) load_recvd
      ▸ pick 1 (omega arith) (write_bytes (8 ∷ 9 ∷ 10 ∷ []))
      ▸ pick 0 (omega arith) (publish refl)
      ▸ pick 0 (omega arith) try_pop,
)

polled_calm : ¬ IsWrapped polled.0.pc
unfolding write
polled_calm (a, e) = ground arith

-- In `polled`, agent 1 holds a send index and agent 0 a receive index.
agents-Progress_example :
    Progress send_index polled.0.pc polled.0.mem.last_sent_index polled.0.mem.next_send_index
      (send_index (polled.0.pc 1))
    × Progress recv_index polled.0.pc polled.0.mem.last_recvd_index polled.0.mem.next_recv_index
        (recv_index (polled.0.pc 0))
unfolding write
agents-Progress_example =
    agents-Progress {item_count = 2} {n = 2} {s = polled.0} (omega arith) (blank, polled.1)
      polled_calm 1 0

abbrev slot : PushGuard
slot = record { send_index = 3; slice = 0 ∷ 0 ∷ 0 ∷ 0 ∷ []; write_offset = 1 }

read-write_example :
    let (g', n) = write slot (7 ∷ 8 ∷ []) in
    let p : PopGuard = record { recv_index = 3; slice = g'.slice; read_offset = 1 } in
    let (p', out, m) = read p (0 ∷ 0 ∷ []) in
    (n ≡ 2)
    × (length g'.slice ≡ 4)
    × (m ≡ 2)
    × (out ≡ 7 ∷ 8 ∷ [])
    × (p'.read_offset ≡ g'.write_offset)
read-write_example = read-write slot (7 ∷ 8 ∷ []) (0 ∷ 0 ∷ []) (omega arith) refl
