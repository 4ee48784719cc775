-- ===== src/Mutex/Unix.antt =====
-- src/unix/sync.rs. What the calls of pthreads return is an argument: 0 for success.
use sandbox_ipc.Prelude.{ℕ, ◌+◌, ◌-◌, ◌%◌, Bool, leb, ◌==◌, if◌then◌else◌}
use sandbox_ipc.Prelude.Word.{wrapping_add, wrapping_sub}
use sandbox_ipc.Prelude.Io.{ErrorKind}
use sandbox_ipc.Shm.Map
use sandbox_ipc.Shm.Map.{Platform, SharedMemMap}
use sandbox_ipc.Prelude.State.{St, ◌>>=◌, ◌>>◌, pure, lift_ensure, lift_assert, get}
use sandbox_ipc.Mutex.State.{
  Cells, store_refcount, Call, attr_init, attr_setpshared, attr_destroy, mutex_init, mutex_destroy,
  mutex_lock, mutex_unlock, call,
}

-- `size` is that of `pthread_mutex_t`; `result` is what each call returns.
pub record Pthread : Type 0 where
  pub size : ℕ
  pub result : Call → ℕ

abbrev pub usize_size : ℕ
usize_size = 8

abbrev pub pthread_mutex_size_bound : ℕ
pthread_mutex_size_bound = 128 - usize_size

abbrev pub mutex_shm_size : ℕ
mutex_shm_size = usize_size + pthread_mutex_size_bound

pub record Mutex (M V : Type 0) : Type 0 where
  pub mem : SharedMemMap M V
  pub raw_offset : ℕ
  pub refcount : ℕ
  pub pthread_mutex : ℕ

module _ (pthread : Pthread) where
  -- `match libc::call(..) { 0 => {}, err => return Err(..) }`
  abbrev pub checked : Call → St Cells (Unit {0})
  checked k = do call k; lift_ensure (pthread.result k == 0) ErrorKind.os

  -- A call whose failure is a panic.
  abbrev pub insist : Call → St Cells (Unit {0})
  insist k = do call k; lift_assert (pthread.result k == 0)

  unfoldable pub lock : St Cells (Unit {0})
  lock = insist mutex_lock

  -- A failure of the unlock is a panic, or only logged while the thread is panicking.
  unfoldable pub drop_guard : (panicking : Bool) → St Cells (Unit {0})
  drop_guard panicking = if panicking then call mutex_unlock else insist mutex_unlock

  module _ {M V : Type 0} (platform : Platform M V) where
    abbrev checks : SharedMemMap M V → (offset : ℕ) → St Cells (Unit {0})
    checks memory offset = do
      lift_assert (leb (wrapping_add offset mutex_shm_size) (Map.len platform memory))
      lift_assert (wrapping_add (Map.pointer platform memory) offset % usize_size == 0)
      lift_assert (leb pthread.size pthread_mutex_size_bound)

abbrev pub placed :
    {M V : Type 0} → Platform M V → SharedMemMap M V → (raw_offset offset : ℕ) → Mutex M V
placed platform memory raw_offset offset = record {
  mem = memory;
  raw_offset = raw_offset;
  refcount = wrapping_add (Map.pointer platform memory) offset;
  pthread_mutex = wrapping_add (wrapping_add (Map.pointer platform memory) offset) usize_size;
}

module _ {M V : Type 0} (platform : Platform M V) (pthread : Pthread) where
  unfoldable pub new_with_memory : SharedMemMap M V → (offset : ℕ) → St Cells (Mutex M V)
  new_with_memory memory offset = do
    checks pthread platform memory offset
    store_refcount 1
    checked pthread attr_init
    checked pthread attr_setpshared
    checked pthread mutex_init
    call attr_destroy
    pure (placed platform memory (wrapping_add (Map.offset platform memory) offset) offset)

  unfoldable pub from_handle :
      (raw_offset : ℕ) → SharedMemMap M V → (offset : ℕ) → St Cells (Mutex M V)
  from_handle raw_offset memory offset = do
    checks pthread platform memory offset
    c ← get
    store_refcount (wrapping_add c.refcount 1)
    pure (placed platform memory raw_offset offset)

-- `Mutex::drop`
unfoldable pub drop_mutex : St Cells (Unit {0})
drop_mutex = do
  c ← get
  store_refcount (wrapping_sub c.refcount 1)
  (if c.refcount == 1 then call mutex_destroy else pure tt)
