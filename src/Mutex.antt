-- ===== src/Mutex.antt =====
-- The mutex in shared memory: src/sync.rs over src/unix/sync.rs.
pub mod State
pub mod Unix
pub mod Poison
pub mod Refcount
pub mod Attach
pub mod Shared
mod Tests
use sandbox_ipc.Prelude.{
  ℕ, ◌+◌, ◌%◌, Bool, true, false, leb, ◌==◌, if◌then◌else◌, Option, none, some,
}
use sandbox_ipc.Prelude.Word.{wrapping_add, checked_sub}
use sandbox_ipc.Prelude.Io.{Result, ok, err, ErrorKind}
use sandbox_ipc.Shm.Range.{Access, read, read_write}
use sandbox_ipc.Shm.Map
use sandbox_ipc.Shm.Map.{Platform, SharedMemMap}
use sandbox_ipc.Prelude.State.{St, ◌>>=◌, ◌>>◌, pure, lift_ensure, lift_ok_or, get}
use sandbox_ipc.Mutex.State.{Cells, store_poison}
use sandbox_ipc.Mutex.Unix
use sandbox_ipc.Mutex.Unix.{Pthread, usize_size}

-- `MUTEX_SHM_SIZE`: the platform's part, and a word for the poison flag.
abbrev pub mutex_shm_size : ℕ
mutex_shm_size = Unix.mutex_shm_size + usize_size

pub record Mutex (M V : Type 0) : Type 0 where
  pub inner : Unix.Mutex M V
  pub poison : ℕ

pub record MutexHandle : Type 0 where
  pub raw_offset : ℕ
  pub shm_token : ℕ

-- `LockResult`
pub data LockResult : Type 0 where
  locked : LockResult
  poisoned : LockResult

abbrev is_read_write : Access → Bool
is_read_write read = false
is_read_write read_write = true

module _ {M V : Type 0} (platform : Platform M V) (pthread : Pthread) where
  unfoldable pub with_inner :
      SharedMemMap M V
      → (offset : ℕ) → (SharedMemMap M V → St Cells (Unix.Mutex M V))
      → St Cells (Mutex M V)
  with_inner memory offset f = do
    lift_ensure (leb (wrapping_add offset mutex_shm_size) (Map.len platform memory))
        ErrorKind.invalid_input
    lift_ensure (wrapping_add (Map.pointer platform memory) offset % usize_size == 0)
        ErrorKind.invalid_input
    lift_ensure (is_read_write (Map.access platform memory)) ErrorKind.invalid_input
    store_poison false
    inner ← f memory
    pure (record {
      inner = inner;
      poison = wrapping_add (Map.pointer platform memory) (wrapping_add offset Unix.mutex_shm_size);
    })

  unfoldable pub new_with_memory : SharedMemMap M V → (offset : ℕ) → St Cells (Mutex M V)
  unfolding with_inner
  new_with_memory memory offset =
      with_inner memory offset (λ mem. Unix.new_with_memory platform pthread mem offset)

  unfoldable pub from_handle : MutexHandle → SharedMemMap M V → St Cells (Mutex M V)
  unfolding with_inner
  from_handle h memory = do
    lift_ensure (Map.token memory == h.shm_token) ErrorKind.invalid_input
    local_offset ←
        lift_ok_or (checked_sub h.raw_offset (Map.offset platform memory)) ErrorKind.invalid_input
    lift_ensure (leb (wrapping_add local_offset mutex_shm_size) (Map.len platform memory))
        ErrorKind.invalid_input
    with_inner memory local_offset
        (λ mem. Unix.from_handle platform pthread h.raw_offset mem local_offset)

module _ {M V : Type 0} where
  unfoldable pub handle : Mutex M V → MutexHandle
  handle m = record { raw_offset = m.inner.raw_offset; shm_token = Map.token m.inner.mem }

-- `lock`, and the drop of the guard: its own drop first, then that of the platform's guard.
unfoldable pub lock : Pthread → St Cells LockResult
lock pthread = do
  Unix.lock pthread
  c ← get
  pure (if c.poison then LockResult.poisoned else LockResult.locked)

unfoldable pub drop_guard : Pthread → (panicking : Bool) → St Cells (Unit {0})
drop_guard pthread panicking = do
  (if panicking then store_poison true else pure tt)
  Unix.drop_guard pthread panicking
