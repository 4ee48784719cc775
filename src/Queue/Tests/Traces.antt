-- ===== src/Queue/Tests/Traces.antt =====
-- Runs of a queue of two slots of src/shm/queue.rs against the bounded queue, and calls that return.
use sandbox_ipc.Prelude.{true, ◌≤◌, ◌≡◌, refl, [], ◌∷◌, ◌++◌, false, arith, some}
use sandbox_ipc.Queue.Guard.{write}
use sandbox_ipc.Queue.Agent.{
  Pc, load_recvd, write_bytes, publish, try_pop, load_sent, load_poison, drop_pop, release,
  push_hold,
}
use sandbox_ipc.Queue.Steps.{System, init, pick, Steps}
use sandbox_ipc.Queue.Invariant.{IsWrapped}
use sandbox_ipc.Queue.Spec.{Run, taken}
use sandbox_ipc.Queue.Refine.{contents, trace, queue_refines}
use sandbox_ipc.Queue.Solo.{call_push, call_pop, push_result, Reached}
use sandbox_ipc.Queue.Solo.Returns.{calls_return}
use sandbox_ipc.Queue.Tests.{filled, blank, ◌▸◌}

-- Agent 0 publishes, receives its own item and lets it go; agent 1 still holds its guard.
abbrev passed : (s : System) × Steps 2 2 (init blank) s
unfolding write
passed = (
  _,
  filled.1
      ▸ pick 1 (omega arith) load_recvd
      ▸ pick 1 (omega arith) (write_bytes (8 ∷ 9 ∷ 10 ∷ []))
      ▸ pick 0 (omega arith) (publish refl)
      ▸ pick 0 (omega arith) try_pop
      ▸ pick 0 (omega arith) load_sent
      ▸ pick 0 (omega arith) load_poison
      ▸ pick 0 (omega arith) (drop_pop false)
      ▸ pick 0 (omega arith) (release refl),
)

passed_calm : ¬ IsWrapped passed.0.pc
unfolding write
passed_calm (a, e) = ground arith

queue_refines_example :
    Run 2 [] (trace passed.1) (contents 2 passed.0.mem)
    × ((7 ∷ 0 ∷ []) ∷ [] ≡ taken (trace passed.1) ++ [])
    × (0 ≤ 2)
unfolding write
queue_refines_example =
    queue_refines {item_count = 2} {n = 2} blank (omega arith) passed.1 passed_calm

-- There is room for another item, and none to receive.
calls_return_example :
    ((call_push 2 2 passed.0.mem ≡ some (push_result true passed.0.mem))
      × Reached 2 2 passed.0 0 (push_result true passed.0.mem).0 (push_hold 2 0))
    × ((call_pop 2 2 passed.0.mem ≡ some (passed.0.mem, Pc.idle))
        × Reached 2 2 passed.0 0 passed.0.mem Pc.idle)
unfolding write
calls_return_example =
    calls_return {item_count = 2} {n = 2} {s = passed.0} (omega arith) (blank, passed.1) passed_calm
      (omega arith) (omega arith) 0 (omega arith) refl 0
