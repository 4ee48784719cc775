-- ===== src/Mutex/Tests.antt =====
-- Mutexes of src/sync.rs and src/unix/sync.rs in a mapping of one page, and the theorems at them.
use sandbox_ipc.Prelude.{
  ℕ, Option, ◌++◌, ◌==◌, if◌then◌else◌, ◌+◌, ◌≡◌, refl, arith, [], ◌∷◌, true, false, some,
}
use sandbox_ipc.Prelude.Word.{wrapping_add}
use sandbox_ipc.Prelude.Io.{ok}
use sandbox_ipc.Shm.Unix
use sandbox_ipc.Shm.Map
use sandbox_ipc.Shm.Map.{SharedMemMap}
use sandbox_ipc.Shm.Range.{full, read_write, start}
use sandbox_ipc.Shm.Unix.Transfer.Arrival.{Same}
use sandbox_ipc.Channel.Fds.Sender.{all, one}
use sandbox_ipc.Channel.Tokens.{number}
use sandbox_ipc.Shm.Tests.{platform, whole, page}
use sandbox_ipc.Shm.Tests as MemoryTests
use sandbox_ipc.Mutex.State.{Cells, mutex_destroy}
use sandbox_ipc.Mutex.Unix as Pthreads
use sandbox_ipc.Mutex.Unix.{Pthread, drop_mutex}
use sandbox_ipc.Mutex.{
  Mutex, MutexHandle, poisoned, new_with_memory, from_handle, handle, lock, drop_guard,
}
use sandbox_ipc.Mutex.Attach.{LiesAt}
use sandbox_ipc.Mutex.Shared.{serialize, deserialize, mutex_shared}
use sandbox_ipc.Mutex.Poison.{poison_flag}
use sandbox_ipc.Mutex.Refcount.{attach, detach, run, run_counts, destroys}

abbrev pthread : Pthread
pthread = record { size = 40; result = λ k. 0 }

abbrev fresh : Cells
fresh = record { refcount = 0; poison = false; calls = [] }

abbrev shared : Cells
shared = record { refcount = 1; poison = true; calls = [] }

abbrev made : Mutex Unix.SharedMem Unix.SharedMemMap
made = record {
  inner = record { mem = whole; raw_offset = 256; refcount = 65792; pthread_mutex = 65800 };
  poison = 65920;
}

made_lem : (new_with_memory platform pthread whole 256 fresh).0 ≡ ok made
unfolding new_with_memory Pthreads.new_with_memory
made_lem = refl

made_again : (from_handle platform pthread (handle made) whole shared).0 ≡ ok made
unfolding from_handle handle Pthreads.from_handle
made_again = refl

poison_flag_example :
    ((lock pthread (drop_guard pthread true shared).1).0 ≡ ok poisoned)
    × ((from_handle platform pthread (handle made) whole shared).1.poison ≡ false)
poison_flag_example =
    poison_flag platform pthread true (handle made) whole shared refl refl made_again

-- A second object comes, and both go.
abbrev gone : Cells
gone = record { refcount = 0; poison = true; calls = mutex_destroy ∷ [] }

gone_lem :
    run platform pthread (attach 256 whole 256 ∷ detach ∷ detach ∷ []) 1 shared ≡ some (0, gone)
unfolding run drop_mutex Pthreads.from_handle
gone_lem = refl

run_counts_example : (gone.refcount ≡ 0) × (destroys gone.calls ≡ destroys shared.calls + 1)
run_counts_example =
    run_counts platform pthread (attach 256 whole 256 ∷ detach ∷ detach ∷ []) 1 0 shared refl
      (omega arith) (omega arith) gone_lem

-- The memory in another process, by its file descriptors 1 and 2, and mapped there at 131072.
abbrev received : Map.SharedMem Unix.SharedMem
received = record { inner = record { rw_fd = some 1; ro_fd = 2; size = 4096 }; token = 77 }

abbrev table : ℕ → Option ℕ
table fd = if fd == 1 then some 50 else some 51

received-Same : Same (50 ∷ 51 ∷ []) table whole.object received
received-Same = record { size = refl; token = refl; fds = refl; opened = one refl (one refl all) }

abbrev mmap : Unix.Mmap
mmap len prot fd offset = some 131072

abbrev view : SharedMemMap Unix.SharedMem Unix.SharedMemMap
view = record {
  object = received;
  inner = record whole.inner { mapping_pointer = 131072; user_pointer = 131072 };
}

mapped : Map.map (Map.unix page mmap) received full read_write ≡ ok view
unfolding Map.map Unix.map Unix.choose_fd Unix.bounds Unix.offset_of Unix.end_of Unix.place start
    Unix.end_shift
mapped = refl

mutex_shared_example :
    (m' : Mutex Unix.SharedMem Unix.SharedMemMap) × (h : MutexHandle) × (deserialize
        (serialize (handle made) ++ (number 9 ∷ []))
      ≡ ok (h, number 9 ∷ []))
    × ((from_handle (Map.unix page mmap) pthread h view shared).0 ≡ ok m')
    × LiesAt 65792 made
    × LiesAt 131328 m'
    × (m'.inner.raw_offset ≡ 256)
    × ((from_handle (Map.unix page mmap) pthread h view shared).1.refcount ≡ wrapping_add 1 1)
mutex_shared_example =
    mutex_shared pthread page page MemoryTests.mmap mmap whole.object received (50 ∷ 51 ∷ []) table
      whole view 256 fresh shared (number 9 ∷ []) received-Same refl made_lem mapped (omega arith)
      (omega arith) (omega arith) refl refl (omega arith)
