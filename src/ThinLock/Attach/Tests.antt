-- ===== src/ThinLock/Attach/Tests.antt =====
-- A mutex of src/windows/sync.rs in a mapping of one page, made and handed on.
use sandbox_ipc.Prelude.{ℕ, ◌+◌, ◌≡◌, ◌⊎◌, refl, [], ◌∷◌, some}
use sandbox_ipc.Prelude.Io.{ok, panic}
use sandbox_ipc.Channel.Owned.{Files}
use sandbox_ipc.Channel.Owned.Turns.{count, owned}
use sandbox_ipc.Shm.Unix
use sandbox_ipc.Shm.Tests.{platform, whole}
use sandbox_ipc.ThinLock.Attach.{
  Calls, Words, Mutex, MutexHandle, handle_call, new_with_memory, from_handle, handle,
}
use sandbox_ipc.ThinLock.Attach.Kept.{mutexes_kept}

-- A process that counts its handles.
abbrev calls : Calls ℕ
calls = record {
  create_semaphore = λ initial maximum w. (some w, w + 1);
  duplicate = λ handle w. (some w, w + 1);
  close = λ handle w. w;
}

-- Every word of the memory is 5, and the handles 3 and 4 are open.
abbrev process : Files (Words ℕ)
process = record { world = record { process = 6; word = λ x. 5 }; opened = 3 ∷ 4 ∷ [] }

abbrev mutex : Mutex Unix.SharedMem Unix.SharedMemMap
mutex = record { mem = whole; raw_offset = 128; atomic = 65664; semaphore = 6 }

abbrev received : MutexHandle
received = record { semaphore = 3; raw_offset = 128 }

made : (new_with_memory platform calls whole 128 process).0 ≡ ok mutex
unfolding new_with_memory handle_call
made = refl

cleared : (new_with_memory platform calls whole 128 process).1.world.word 65664 ≡ 0
unfolding new_with_memory handle_call
cleared = refl

handed : (handle calls mutex process).0 ≡ ok (record { semaphore = 6; raw_offset = 128 })
unfolding handle handle_call
handed = refl

-- Past the end of the mapping, the handle is closed.
refused :
    ((from_handle platform calls received whole 4090 process).0 ≡ panic)
    × ((from_handle platform calls received whole 4090 process).1.opened ≡ 4 ∷ [])
unfolding from_handle
refused = (refl, refl)

mutexes_kept_example :
    (let (r, s') = new_with_memory platform calls whole 128 process in
      (count 3 s'.opened ≡ count 3 (owned (λ m. m.semaphore ∷ []) r) + 1)
      × ((◌≡◌ {A = ℕ} 65672 65664) ⊎ (s'.world.word 65672 ≡ 5))
      × ((r ≡ panic) ⊎ (s'.world.word 65664 ≡ 0)))
    × (let (r, s') = from_handle platform calls received whole 128 process in
        (count 3 s'.opened ≡ count 3 (owned (λ m. m.semaphore ∷ []) r) + 0)
        × (s'.world.word 65672 ≡ 5))
    × (let (r, s') = handle calls mutex process in
        (count 3 s'.opened ≡ count 3 (owned (λ h. h.semaphore ∷ []) r) + 1)
        × (s'.world.word 65672 ≡ 5))
mutexes_kept_example =
    mutexes_kept platform calls whole 128 mutex received process (4 ∷ []) 65672 3 refl
