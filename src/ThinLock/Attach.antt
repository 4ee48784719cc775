-- ===== src/ThinLock/Attach.antt =====
-- How a mutex of src/windows/sync.rs comes to be: its counter in shared memory, and its semaphore. The
-- calls of the system are an argument, over the state `W` of the process; `none` is a failure.
pub mod Kept
mod Tests
use sandbox_ipc.Prelude.{ℕ, ◌+◌, ◌%◌, Option, leb, ◌==◌, if◌then◌else◌}
use sandbox_ipc.Prelude.Word.{wrapping_add}
use sandbox_ipc.Prelude.Io.{ok, ErrorKind}
use sandbox_ipc.Prelude.State.{St, ◌>>=◌, ◌>>◌, pure, lift_assert, lift_ok_or, scoped}
use sandbox_ipc.Channel.Owned.{Files, remove, call, hold}
use sandbox_ipc.Shm.Map
use sandbox_ipc.Shm.Map.{Platform, SharedMemMap}

-- `CreateSemaphoreW`, `WinHandle::clone` and `CloseHandle`.
pub record Calls (W : Type 0) : Type 0 where
  pub create_semaphore : (initial maximum : ℕ) → W → Option ℕ × W
  pub duplicate : (handle : ℕ) → W → Option ℕ × W
  pub close : (handle : ℕ) → W → W

-- The process, and the words of its memory by their addresses.
pub record Words (W : Type 0) : Type 0 where
  pub process : W
  pub word : ℕ → ℕ

-- A cache line.
abbrev pub mutex_shm_size : ℕ
mutex_shm_size = 64

abbrev pub usize_size : ℕ
usize_size = 8

pub record Mutex (M V : Type 0) : Type 0 where
  pub mem : SharedMemMap M V
  pub raw_offset : ℕ
  pub atomic : ℕ
  pub semaphore : ℕ

pub record MutexHandle : Type 0 where
  pub semaphore : ℕ
  pub raw_offset : ℕ

module _ {W : Type 0} where
  abbrev pub on_process : {A : Type 0} → (W → A × W) → Words W → A × Words W
  on_process f m = let (a, w) = f m.process in (a, record m { process = w })

  -- A call that opens a handle.
  unfoldable pub handle_call : (W → Option ℕ × W) → St (Files (Words W)) ℕ
  handle_call f = do
    result ← call (on_process f)
    handle ← lift_ok_or result ErrorKind.os
    hold handle
    pure handle

  -- The drop of a `WinHandle`.
  abbrev pub drop_handle : Calls W → ℕ → St (Files (Words W)) (Unit {0})
  drop_handle calls handle s = (
    ok tt,
    record {
      world = record s.world { process = calls.close handle s.world.process };
      opened = remove handle s.opened;
    },
  )

  abbrev pub store : (address value : ℕ) → St (Files (Words W)) (Unit {0})
  store address value =
      call (λ m. (tt, record m { word = λ x. if x == address then value else m.word x }))

module _ {M V W : Type 0} (platform : Platform M V) where
  abbrev pub checks : SharedMemMap M V → (offset : ℕ) → St (Files (Words W)) (Unit {0})
  checks memory offset = do
    lift_assert (leb (wrapping_add offset mutex_shm_size) (Map.len platform memory))
    lift_assert (wrapping_add (Map.pointer platform memory) offset % usize_size == 0)

  unfoldable pub new_with_memory :
      Calls W → SharedMemMap M V → (offset : ℕ) → St (Files (Words W)) (Mutex M V)
  unfolding handle_call
  new_with_memory calls memory offset = do
    let atomic = wrapping_add (Map.pointer platform memory) offset
    checks memory offset
    store atomic 0
    semaphore ← handle_call (calls.create_semaphore 0 1)
    pure (record {
      mem = memory;
      raw_offset = wrapping_add (Map.offset platform memory) offset;
      atomic = atomic;
      semaphore = semaphore;
    })

  -- A panic drops the handle.
  unfoldable pub from_handle :
      Calls W → MutexHandle → SharedMemMap M V → (offset : ℕ) → St (Files (Words W)) (Mutex M V)
  from_handle calls handle memory offset = do
    scoped (drop_handle calls handle.semaphore) (checks memory offset)
    pure (record {
      mem = memory;
      raw_offset = handle.raw_offset;
      atomic = wrapping_add (Map.pointer platform memory) offset;
      semaphore = handle.semaphore;
    })

unfoldable pub handle : {M V W : Type 0} → Calls W → Mutex M V → St (Files (Words W)) MutexHandle
unfolding handle_call
handle calls mutex = do
  semaphore ← handle_call (calls.duplicate mutex.semaphore)
  pure (record { semaphore = semaphore; raw_offset = mutex.raw_offset })
