-- ===== src/Mutex/Attach.antt =====
-- Handing a mutex of src/sync.rs to another process: `handle`, then `from_handle` over a mapping of
-- the same memory.
use sandbox_ipc.Prelude.{ℕ, ◌+◌, ◌-◌, ◌%◌, ◌≤◌, ◌<◌, ◌≡◌, ◌≢◌, arith, refl, subst}
use sandbox_ipc.Prelude.Word.{usize_mod, wrapping_add}
use sandbox_ipc.Prelude.Io.{ok, panic}
use sandbox_ipc.Shm.Range.{read_write}
use sandbox_ipc.Shm.Map
use sandbox_ipc.Shm.Map.{Platform, SharedMemMap}
use sandbox_ipc.Mutex.State.{Cells}
use sandbox_ipc.Mutex.Unix
use sandbox_ipc.Mutex.Unix.{Pthread, pthread_mutex_size_bound, usize_size, placed}
use sandbox_ipc.Mutex.{Mutex, MutexHandle, mutex_shm_size, new_with_memory, from_handle, handle}

-- The words of a mutex lie from the address `base` on: the count of references, the `pthread_mutex_t`
-- in the next word, and the poison flag after the 120 bytes that it may take.
pub record LiesAt {M V : Type 0} (base : ℕ) (m : Mutex M V) : Type 0 where
  pub refcount : m.inner.refcount ≡ base
  pub pthread_mutex : m.inner.pthread_mutex ≡ base + 8
  pub poison : m.poison ≡ base + 128

module _ {M V : Type 0} (platform : Platform M V) (pthread : Pthread) where
  -- Neither way to a mutex panics, on any mapping, offset and handle: the checks of src/sync.rs
  -- leave the assertions of src/unix/sync.rs nothing to find, if `pthread_mutex_t` fits its bound.
  pub attach_no_panic :
      (h : MutexHandle) (memory : SharedMemMap M V) (offset : ℕ) (c : Cells)
      → pthread.size ≤ pthread_mutex_size_bound
      → offset + mutex_shm_size < usize_mod
      → h.raw_offset + mutex_shm_size < usize_mod
      → ((new_with_memory platform pthread memory offset c).0 ≢ panic)
        × ((from_handle platform pthread h memory c).0 ≢ panic)
  unfolding new_with_memory from_handle Unix.new_with_memory Unix.from_handle
  attach_no_panic h memory offset c fits small small' = (λ e. ground arith, λ e. ground arith)

  -- The mutex at the place `raw_offset` of the memory, through a mapping that contains it.
  attached : SharedMemMap M V → ℕ → Mutex M V
  attached memory raw_offset =
      let local = raw_offset - Map.offset platform memory in
      record {
        inner = placed platform memory raw_offset local;
        poison =
            wrapping_add (Map.pointer platform memory) (wrapping_add local Unix.mutex_shm_size);
      }

  pub new-LiesAt :
      (memory : SharedMemMap M V) (offset : ℕ) (c : Cells) {m : Mutex M V}
      → Map.pointer platform memory + offset + mutex_shm_size < usize_mod
      → (new_with_memory platform pthread memory offset c).0 ≡ ok m
      → LiesAt (Map.pointer platform memory + offset) m
  unfolding new_with_memory Unix.new_with_memory
  new-LiesAt memory offset c space e = record {
    refcount = ground arith;
    pthread_mutex = ground arith;
    poison = ground arith;
  }

  attached-LiesAt :
      (memory : SharedMemMap M V) (raw_offset : ℕ)
      → Map.offset platform memory ≤ raw_offset
      → raw_offset + mutex_shm_size ≤ Map.offset platform memory + Map.len platform memory
      → Map.pointer platform memory + Map.len platform memory < usize_mod
      → LiesAt
          (Map.pointer platform memory + (raw_offset - Map.offset platform memory))
          (attached memory raw_offset)
  unfolding attached
  attached-LiesAt memory raw_offset low high space = record {
    refcount = omega arith;
    pthread_mutex = omega arith;
    poison = omega arith;
  }

  same_offset :
      (memory : SharedMemMap M V) (raw_offset : ℕ)
      → (attached memory raw_offset).inner.raw_offset ≡ raw_offset
  unfolding attached
  same_offset memory raw_offset = refl

  new_fields :
      (memory : SharedMemMap M V) (offset : ℕ) (c : Cells) {m : Mutex M V}
      → Map.offset platform memory + offset + mutex_shm_size < usize_mod
      → (new_with_memory platform pthread memory offset c).0 ≡ ok m
      → (m.inner.raw_offset ≡ Map.offset platform memory + offset)
        × (Map.token m.inner.mem ≡ Map.token memory)
  unfolding new_with_memory Unix.new_with_memory
  new_fields memory offset c small e = ground arith

  from_handle_ok :
      (h : MutexHandle) (memory : SharedMemMap M V) (c : Cells)
      → pthread.size ≤ pthread_mutex_size_bound
      → Map.token memory ≡ h.shm_token
      → Map.access platform memory ≡ read_write
      → Map.offset platform memory ≤ h.raw_offset
      → h.raw_offset + mutex_shm_size ≤ Map.offset platform memory + Map.len platform memory
      → Map.pointer platform memory + Map.len platform memory < usize_mod
      → (Map.pointer platform memory + (h.raw_offset - Map.offset platform memory)) % usize_size ≡ 0
      → ((from_handle platform pthread h memory c).0 ≡ ok (attached memory h.raw_offset))
        × ((from_handle platform pthread h memory c).1.refcount ≡ wrapping_add c.refcount 1)
  unfolding from_handle Unix.from_handle attached
  from_handle_ok h memory c fits same writable low high space aligned = (ground arith, ground arith)

  -- A mutex that was made in one mapping is found from its handle in any writable mapping of the
  -- same memory that contains it at an aligned address: at the same place in the memory, with one
  -- more reference counted.
  pub from_handle-handle_elsewhere :
      (memory memory' : SharedMemMap M V) (offset : ℕ) (c c' : Cells) {m : Mutex M V}
      → pthread.size ≤ pthread_mutex_size_bound
      → Map.offset platform memory + offset + mutex_shm_size < usize_mod
      → Map.pointer platform memory' + Map.len platform memory' < usize_mod
      → (new_with_memory platform pthread memory offset c).0 ≡ ok m
      → Map.token memory' ≡ Map.token memory
      → Map.access platform memory' ≡ read_write
      → Map.offset platform memory' ≤ Map.offset platform memory + offset
      → Map.offset platform memory + offset + mutex_shm_size
        ≤ Map.offset platform memory' + Map.len platform memory'
      → (Map.pointer platform memory'
            + (Map.offset platform memory + offset - Map.offset platform memory'))
          % usize_size
        ≡ 0
      → (m' : Mutex M V) × ((from_handle platform pthread (handle m) memory' c').0 ≡ ok m')
        × (m'.inner.raw_offset ≡ m.inner.raw_offset)
        × LiesAt
            (Map.pointer platform memory'
              + (Map.offset platform memory + offset - Map.offset platform memory'))
            m'
        × ((from_handle platform pthread (handle m) memory' c').1.refcount
            ≡ wrapping_add c'.refcount 1)
  unfolding handle
  from_handle-handle_elsewhere memory memory' offset c c' {m} fits small space e same writable low
        high aligned =
      let (raw, tok) = new_fields memory offset c small e in
      let (result, count) =
        from_handle_ok (handle m) memory' c' fits (ground (arith, tok)) writable
          (omega (arith, raw)) (omega (arith, raw)) space (ground (arith, raw, aligned)) in
      (
        attached memory' m.inner.raw_offset,
        result,
        same_offset memory' m.inner.raw_offset,
        subst
            (λ r.
              LiesAt (Map.pointer platform memory' + (r - Map.offset platform memory'))
                (attached memory' m.inner.raw_offset))
            raw
            (attached-LiesAt memory' m.inner.raw_offset (omega (arith, raw)) (omega (arith, raw))
              space),
        count,
      )
