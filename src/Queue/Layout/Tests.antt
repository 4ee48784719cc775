-- ===== src/Queue/Layout/Tests.antt =====
-- Queues of src/shm/queue.rs in a mapping of one page, and the theorems at them.
use sandbox_ipc.Prelude.{ℕ, ◌+◌, ◌≡◌, refl, arith, List, [], ◌∷◌, ◌++◌}
use sandbox_ipc.Prelude.Io.{ok, err, ErrorKind}
use sandbox_ipc.Shm.Unix
use sandbox_ipc.Shm.Map.{SharedMemMap}
use sandbox_ipc.Shm.Tests.{platform, whole}
use sandbox_ipc.Queue.Steps.{new_control}
use sandbox_ipc.Queue.Layout.{
  Queue, Handle, align, required_size, new_with_memory, from_handle, handle,
}
use sandbox_ipc.Queue.Layout.Bounds.{InBounds, new_with_memory-InBounds}
use sandbox_ipc.Queue.Layout.Handles.{serialize, deserialize, queue_shared}
use sandbox_ipc.Channel.Tokens.{number, next_number}

abbrev View : Type 0
View = SharedMemMap Unix.SharedMem Unix.SharedMemMap

abbrev zeros : ℕ → List ℕ
zeros k = 0 ∷ []

-- Three slots for items of 40 bytes, from byte `offset` of the page on.
abbrev queue_at : ℕ → Queue Unix.SharedMem Unix.SharedMemMap
queue_at offset = record {
  mem = whole;
  raw_offset = offset;
  control = 65536 + offset + 192;
  items_base = 65536 + offset;
  item_size = 40;
  item_offset = 64;
  item_count = 3;
}

at_start : new_with_memory platform 40 3 whole 0 zeros ≡ ok (queue_at 0, new_control zeros)
unfolding new_with_memory required_size align
at_start = refl

inside : new_with_memory platform 40 3 whole 512 zeros ≡ ok (queue_at 512, new_control zeros)
unfolding new_with_memory required_size align
inside = refl

new_with_memory-InBounds_example : InBounds 65536 4096 (queue_at 512)
unfolding align
new_with_memory-InBounds_example =
    new_with_memory-InBounds platform 40 3 whole 512 zeros (omega arith) (omega arith) (omega arith)
      inside

back : from_handle platform (handle (queue_at 0)) whole ≡ ok (queue_at 0)
unfolding from_handle handle required_size align
back = refl

-- Another process has the same memory from byte 131072 on.
abbrev elsewhere : View
elsewhere = record whole { inner = record whole.inner { user_pointer = 131072 } }

queue_shared_example :
    (h : Handle) × (deserialize (serialize (handle (queue_at 0)) ++ (number 9 ∷ []))
      ≡ ok (h, number 9 ∷ []))
    × (from_handle platform h elsewhere
        ≡ ok (record (queue_at 0) { mem = elsewhere; control = 131264; items_base = 131072 }))
queue_shared_example =
    queue_shared platform platform 40 3 whole elsewhere 0 zeros (number 9 ∷ []) (omega arith) refl
      refl refl (omega arith) (omega arith) at_start

refused :
    (h : Handle) × (deserialize (serialize (handle (queue_at 512)) ++ []) ≡ ok (h, []))
    × (from_handle platform h elsewhere ≡ err ErrorKind.invalid_input)
unfolding serialize deserialize next_number from_handle handle required_size align
refused = (handle (queue_at 512), refl, refl)

-- A view of the same memory from byte 1024 on.
abbrev later : View
later = record {
  object = whole.object;
  inner = record whole.inner { user_pointer = 66560; user_len = 3072; user_offset = 1024 };
}

abbrev below : Queue Unix.SharedMem Unix.SharedMemMap
below = record (queue_at 512) { mem = later }

below_lem : from_handle platform (handle (queue_at 512)) later ≡ ok below
unfolding from_handle handle required_size align
below_lem = refl
