-- ===== src/Mutex/Shared.antt =====
-- A mutex of src/sync.rs in memory that is sent to another process together with its handle: the derived
-- serialization of `MutexHandle`, there and in src/unix/sync.rs, and its use at the other end.
use sandbox_ipc.Prelude.{
  ℕ, ◌+◌, ◌-◌, ◌%◌, ◌≤◌, ◌<◌, ◌≡◌, ◌∙◌, ap, sym, subst, refl, List, [], ◌∷◌, ◌++◌, Option, arith,
}
use sandbox_ipc.Prelude.Word.{usize_mod, wrapping_add}
use sandbox_ipc.Prelude.Io.{Result, ok, ◌>>=◌}
use sandbox_ipc.Channel.Tokens.{Token, number, next_number}
use sandbox_ipc.Shm.Range.{full, read_write, start}
use sandbox_ipc.Shm.Unix
use sandbox_ipc.Shm.Unix.{SharedMem, SharedMemMap, Mmap}
use sandbox_ipc.Shm.Unix.Transfer.Arrival.{Same}
use sandbox_ipc.Shm.Map
use sandbox_ipc.Mutex.State.{Cells}
use sandbox_ipc.Mutex.Unix as PthreadMutex
use sandbox_ipc.Mutex.Unix.{Pthread, pthread_mutex_size_bound, usize_size}
use sandbox_ipc.Mutex.{Mutex, MutexHandle, mutex_shm_size, new_with_memory, from_handle, handle}
use sandbox_ipc.Mutex.Attach.{LiesAt, new-LiesAt, from_handle-handle_elsewhere}

-- The handle of the platform, and the token.
unfoldable pub serialize : MutexHandle → List Token
serialize h = number h.raw_offset ∷ number h.shm_token ∷ []

unfoldable pub deserialize : List Token → Result (MutexHandle × List Token)
deserialize tokens = do
  (raw_offset, tokens₁) ← next_number tokens
  (shm_token, tokens₂) ← next_number tokens₁
  ok (record { raw_offset = raw_offset; shm_token = shm_token }, tokens₂)

deserialize-serialize :
    (h : MutexHandle) (rest : List Token) → deserialize (serialize h ++ rest) ≡ ok (h, rest)
unfolding serialize deserialize next_number
deserialize-serialize h rest = refl

-- What a mapping of the whole memory for writing is.
map_full :
    (page_size : ℕ) (mmap : Mmap) (mem : Map.SharedMem SharedMem)
    {v : Map.SharedMemMap SharedMem SharedMemMap}
    → Map.map (Map.unix page_size mmap) mem full read_write ≡ ok v
    → (v.object ≡ mem)
      × (v.inner.user_offset ≡ 0)
      × (v.inner.user_len ≡ mem.inner.size)
      × (v.inner.access ≡ read_write)
unfolding Map.map Unix.map Unix.choose_fd Unix.bounds Unix.offset_of Unix.end_of Unix.place start
map_full page_size mmap mem e = (ground arith, ground arith, ground arith, ground arith)

module _ (pthread : Pthread) (page_size page_size' : ℕ) (mmap mmap' : Mmap) where
  -- Making a mutex does not depend on how memory is mapped.
  same_new :
      (memory : Map.SharedMemMap SharedMem SharedMemMap) (offset : ℕ) (c : Cells)
      {r : Result (Mutex SharedMem SharedMemMap)}
      → (new_with_memory (Map.unix page_size mmap) pthread memory offset c).0 ≡ r
      → (new_with_memory (Map.unix page_size' mmap') pthread memory offset c).0 ≡ r
  unfolding new_with_memory PthreadMutex.new_with_memory
  same_new memory offset c e = e

  -- A mutex is shared: a process makes a mutex in a mapping of a memory, and sends the memory and the
  -- handle; another process, which has the memory for the same files and maps it whole for writing,
  -- decodes the handle, with what follows left over, and gets from it a mutex at the same place of the
  -- memory, with one more reference counted: in each process the words of the mutex lie where the
  -- mapping has that place. The mappings do not wrap around, that of the receiver is aligned to words, the
  -- mutex is aligned and lies within the memory, and `pthread_mutex_t` fits its bound.
  pub mutex_shared :
      (mem mem' : Map.SharedMem SharedMem) (files : List ℕ) (refers : ℕ → Option ℕ)
      (memory memory' : Map.SharedMemMap SharedMem SharedMemMap) (offset : ℕ) (c c' : Cells)
      {m : Mutex SharedMem SharedMemMap} (rest : List Token)
      → Same files refers mem mem'
      → memory.object ≡ mem
      → (new_with_memory (Map.unix page_size mmap) pthread memory offset c).0 ≡ ok m
      → Map.map (Map.unix page_size' mmap') mem' full read_write ≡ ok memory'
      → pthread.size ≤ pthread_mutex_size_bound
      → memory.inner.user_offset + offset + mutex_shm_size ≤ mem.inner.size
      → memory.inner.user_pointer + offset + mutex_shm_size < usize_mod
      → (memory.inner.user_offset + offset) % usize_size ≡ 0
      → memory'.inner.user_pointer % usize_size ≡ 0
      → memory'.inner.user_pointer + mem.inner.size < usize_mod
      → let unix' = Map.unix page_size' mmap' in
        (m' : Mutex SharedMem SharedMemMap) × (h : MutexHandle) × (deserialize
            (serialize (handle m) ++ rest)
          ≡ ok (h, rest))
        × ((from_handle unix' pthread h memory' c').0 ≡ ok m')
        × LiesAt (memory.inner.user_pointer + offset) m
        × LiesAt (memory'.inner.user_pointer + (memory.inner.user_offset + offset)) m'
        × (m'.inner.raw_offset ≡ m.inner.raw_offset)
        × ((from_handle unix' pthread h memory' c').1.refcount ≡ wrapping_add c'.refcount 1)
  mutex_shared mem mem' files refers memory memory' offset c c' {m} rest same object made mapped
        fits within near aligned base space =
      let (object', from_start, whole, writable) = map_full page_size' mmap' mem' mapped in
      let size = same.size in
      let made' = same_new memory offset c made in
      let token : Map.token memory' ≡ Map.token memory =
        ap (λ o. o.token) object' ∙ same.token ∙ sym (ap (λ o. o.token) object) in
      let (m', found, raw, place, counted) =
        from_handle-handle_elsewhere (Map.unix page_size' mmap') pthread memory memory' offset c c'
          fits (omega (arith, within, space)) (omega (arith, whole, size, space)) made' token
          writable (omega (arith, from_start)) (omega (arith, from_start, whole, size, within))
          (ground (arith, from_start, aligned, base)) in
      let same_place : memory'.inner.user_pointer
            + (memory.inner.user_offset + offset - memory'.inner.user_offset)
          ≡ memory'.inner.user_pointer + (memory.inner.user_offset + offset) =
        omega (arith, from_start) in
      (
        m',
        handle m,
        deserialize-serialize (handle m) rest,
        found,
        new-LiesAt (Map.unix page_size mmap) pthread memory offset c near made,
        subst (λ (base : ℕ). LiesAt base m') same_place place,
        raw,
        counted,
      )
