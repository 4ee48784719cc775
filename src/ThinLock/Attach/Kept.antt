-- ===== src/ThinLock/Attach/Kept.antt =====
-- What the constructors of src/windows/sync.rs leave open and write.
use sandbox_ipc.Prelude.{
  ℕ_discrete, ◌≢◌, ◌⊎◌, ==_iff, ℕ, ◌+◌, ◌%◌, ◌≡◌, refl, List, [], ◌∷◌, Option, arith, Option-cases,
  inl, inr, ap, ◌==◌, leb, Bool-cases,
}
use sandbox_ipc.Prelude.Word.{wrapping_add}
use sandbox_ipc.Prelude.Io.{panic}
use sandbox_ipc.Channel.Owned.{Files}
use sandbox_ipc.Channel.Owned.Turns.{
  Turns, Turns-pure, Turns-Plain, Turns-scoped, Turns-bind, count, owned,
}
use sandbox_ipc.Shm.Map
use sandbox_ipc.Shm.Map.{Platform, SharedMemMap}
use sandbox_ipc.ThinLock.Attach.{
  Calls, Words, Mutex, MutexHandle, mutex_shm_size, usize_size, handle_call, drop_handle, store,
  checks, new_with_memory, from_handle, handle,
}

module _ {W : Type 0} where
  handle_call-Turns : (f : W → Option ℕ × W) → Turns [] (handle_call f) (λ h. h ∷ [])
  unfolding handle_call
  handle_call-Turns f = record {
    turns = λ s base h y. elim (Option-cases (f s.world.process).0) [
      | inl e ↦ ground (arith, h y)
      | inr (a, e) ↦ ground (arith, h y)
    ];
  }

module _ {M V W : Type 0} (platform : Platform M V) (calls : Calls W) where
  checks-Turns :
      (memory : SharedMemMap M V) (offset : ℕ)
      → Turns [] (checks {W = W} platform memory offset) (λ done. [])
  checks-Turns memory offset = Turns-Plain _ (λ s. ground arith)

  store-Turns : (address value : ℕ) → Turns [] (store {W = W} address value) (λ done. [])
  store-Turns address value = Turns-Plain (store address value) (λ s. refl)

  new-Turns :
      (memory : SharedMemMap M V) (offset : ℕ)
      → Turns [] (new_with_memory platform calls memory offset) (λ m. m.semaphore ∷ [])
  unfolding new_with_memory
  new-Turns memory offset =
      Turns-bind (λ done. []) (checks-Turns memory offset)
        (λ done.
          Turns-bind (λ stored. [])
            (store-Turns (wrapping_add (Map.pointer platform memory) offset) 0)
            (λ stored.
              Turns-bind (λ h. h ∷ []) (handle_call-Turns (calls.create_semaphore 0 1))
                (λ h.
                  Turns-pure
                    (record {
                      mem = memory;
                      raw_offset = wrapping_add (Map.offset platform memory) offset;
                      atomic = wrapping_add (Map.pointer platform memory) offset;
                      semaphore = h;
                    })
                    (λ m. m.semaphore ∷ []))))

  from_handle-Turns :
      (h : MutexHandle) (memory : SharedMemMap M V) (offset : ℕ)
      → Turns
          (h.semaphore ∷ [])
          (from_handle platform calls h memory offset)
          (λ m. m.semaphore ∷ [])
  unfolding from_handle
  from_handle-Turns h memory offset =
      Turns-bind (λ done. h.semaphore ∷ [])
        (Turns-scoped (drop_handle calls h.semaphore) h.semaphore (λ s. (refl, refl))
          (checks-Turns memory offset))
        (λ done.
          Turns-pure
            (record {
              mem = memory;
              raw_offset = h.raw_offset;
              atomic = wrapping_add (Map.pointer platform memory) offset;
              semaphore = h.semaphore;
            })
            (λ m. m.semaphore ∷ []))

  handle-Turns : (mutex : Mutex M V) → Turns [] (handle calls mutex) (λ h. h.semaphore ∷ [])
  unfolding handle
  handle-Turns mutex =
      Turns-bind (λ h. h ∷ []) (handle_call-Turns (calls.duplicate mutex.semaphore))
        (λ h.
          Turns-pure (record { semaphore = h; raw_offset = mutex.raw_offset })
            (λ h. h.semaphore ∷ []))

  abbrev address : SharedMemMap M V → ℕ → ℕ
  address memory offset = wrapping_add (Map.pointer platform memory) offset

  new_words :
      (memory : SharedMemMap M V) (offset x : ℕ) (s : Files (Words W))
      → let (r, s') = new_with_memory platform calls memory offset s in
        (x ≢ address memory offset → s'.world.word x ≡ s.world.word x)
        × ((r ≡ panic) ⊎ (s'.world.word (address memory offset) ≡ 0))
  unfolding new_with_memory handle_call
  new_words memory offset x s = (λ other. ground (arith, ==_iff x (address memory offset)), words)
    where
      words :
          let (r, s') = new_with_memory platform calls memory offset s in
          (r ≡ panic) ⊎ (s'.world.word (address memory offset) ≡ 0)
      words =
          elim (Bool-cases (leb (wrapping_add offset mutex_shm_size) (Map.len platform memory))) [
            | inr e ↦ inl (ground (arith, e))
            | inl e ↦ elim (Bool-cases (address memory offset % usize_size == 0)) [
              | inr e' ↦ inl (ground (arith, e, e'))
              | inl e' ↦
                  inr
                    (ground (arith, e, e', ==_iff (address memory offset) (address memory offset)))
            ]
          ]

  from_handle_words :
      (h : MutexHandle) (memory : SharedMemMap M V) (offset x : ℕ) (s : Files (Words W))
      → (from_handle platform calls h memory offset s).1.world.word x ≡ s.world.word x
  unfolding from_handle
  from_handle_words h memory offset x s = ground arith

  handle_words :
      (mutex : Mutex M V) (x : ℕ) (s : Files (Words W))
      → (handle calls mutex s).1.world.word x ≡ s.world.word x
  unfolding handle
  handle_words mutex x s = ground arith

  -- Mutexes are made, found again and handed on without leaks of their semaphores: however
  -- `new_with_memory` and `handle` end, each handle is open as often as before, and once more for the
  -- semaphore of the result, if there is one; `from_handle` moreover consumes the semaphore of its
  -- handle, which is open before: it is that of the mutex, or closed. The counter is 0 afterwards if
  -- `new_with_memory` does not panic, other words of the memory stay, and `from_handle` and `handle`
  -- change none, so that a lock that is held stays held.
  pub mutexes_kept :
      (memory : SharedMemMap M V) (offset : ℕ) (mutex : Mutex M V) (h : MutexHandle)
      (s : Files (Words W)) (before : List ℕ) (x y : ℕ)
      → s.opened ≡ h.semaphore ∷ before
      → (let (r, s') = new_with_memory platform calls memory offset s in
          (count y s'.opened ≡ count y (owned (λ m. m.semaphore ∷ []) r) + count y s.opened)
          × ((x ≡ address memory offset) ⊎ (s'.world.word x ≡ s.world.word x))
          × ((r ≡ panic) ⊎ (s'.world.word (address memory offset) ≡ 0)))
        × (let (r, s') = from_handle platform calls h memory offset s in
            (count y s'.opened ≡ count y (owned (λ m. m.semaphore ∷ []) r) + count y before)
            × (s'.world.word x ≡ s.world.word x))
        × (let (r, s') = handle calls mutex s in
            (count y s'.opened ≡ count y (owned (λ h. h.semaphore ∷ []) r) + count y s.opened)
            × (s'.world.word x ≡ s.world.word x))
  mutexes_kept memory offset mutex h s before x y held =
      let (others, counter) = new_words memory offset x s in
      (
        (
          (new-Turns memory offset).turns s (λ z. count z s.opened) (λ z. omega arith) y,
          elim (ℕ_discrete x (address memory offset)) [ yes e ↦ inl e | no ne ↦ inr (others ne) ],
          counter,
        ),
        (
          (from_handle-Turns h memory offset).turns s (λ z. count z before)
              (λ z. omega (arith, ap (count z) held)) y,
          from_handle_words h memory offset x s,
        ),
        (
          (handle-Turns mutex).turns s (λ z. count z s.opened) (λ z. omega arith) y,
          handle_words mutex x s,
        ),
      )
