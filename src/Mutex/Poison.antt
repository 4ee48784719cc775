-- ===== src/Mutex/Poison.antt =====
-- The poison flag of src/sync.rs.
use sandbox_ipc.Prelude.{◌≡◌, Bool, false, arith, if◌then◌else◌}
use sandbox_ipc.Prelude.Io.{ok}
use sandbox_ipc.Shm.Map.{Platform, SharedMemMap}
use sandbox_ipc.Mutex.State.{Cells, mutex_lock, mutex_unlock}
use sandbox_ipc.Mutex.Unix
use sandbox_ipc.Mutex.Unix.{Pthread}
use sandbox_ipc.Mutex.{Mutex, MutexHandle, locked, poisoned, lock, drop_guard, from_handle}

-- A lock is poisoned when a guard has been dropped in a panic, and after a drop without panic it is
-- poisoned exactly if it was before, if the calls of pthreads succeed.
lock-drop_guard :
    (pthread : Pthread) (panicking : Bool) (c : Cells)
    → pthread.result mutex_lock ≡ 0
    → pthread.result mutex_unlock ≡ 0
    → (lock pthread (drop_guard pthread panicking c).1).0
      ≡ ok (if panicking then poisoned else (if c.poison then poisoned else locked))
unfolding lock drop_guard Unix.lock Unix.drop_guard
lock-drop_guard pthread panicking c held freed = ground arith

-- Attaching to an existing mutex by `from_handle` clears its poison flag, whatever it was.
from_handle-clears :
    {M V : Type 0} (platform : Platform M V) (pthread : Pthread) (h : MutexHandle)
    (memory : SharedMemMap M V) (c : Cells) {m : Mutex M V}
    → (from_handle platform pthread h memory c).0 ≡ ok m
    → (from_handle platform pthread h memory c).1.poison ≡ false
unfolding from_handle Unix.from_handle
from_handle-clears platform pthread h memory c e = ground arith

-- The poison flag: a lock is poisoned when a guard has been dropped in a panic, and after a drop without
-- panic it is poisoned exactly if it was before, if the calls of pthreads succeed; but attaching to
-- the mutex by `from_handle` clears the flag, whatever it was.
pub poison_flag :
    {M V : Type 0} (platform : Platform M V) (pthread : Pthread) (panicking : Bool)
    (h : MutexHandle) (memory : SharedMemMap M V) (c : Cells) {m : Mutex M V}
    → pthread.result mutex_lock ≡ 0
    → pthread.result mutex_unlock ≡ 0
    → (from_handle platform pthread h memory c).0 ≡ ok m
    → ((lock pthread (drop_guard pthread panicking c).1).0
        ≡ ok (if panicking then poisoned else (if c.poison then poisoned else locked)))
      × ((from_handle platform pthread h memory c).1.poison ≡ false)
poison_flag platform pthread panicking h memory c held freed e = (
  lock-drop_guard pthread panicking c held freed,
  from_handle-clears platform pthread h memory c e,
)
