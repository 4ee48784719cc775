-- ===== src/Mutex/Refcount.antt =====
-- The reference count of src/unix/sync.rs: `Mutex` objects come by `from_handle` and go by their
-- drop, in any process, and the last of them destroys the pthread mutex.
use sandbox_ipc.Prelude.{
  ℕ, zero, suc, ◌+◌, ◌≤◌, ◌<◌, ◌≡◌, List, [], ◌∷◌, Option, none, some, arith, ◌==◌, if◌then◌else◌,
  length,
}
use sandbox_ipc.Prelude.Word.{usize_mod}
use sandbox_ipc.Prelude.Io.{Result, ok, err, panic}
use sandbox_ipc.Shm.Map.{Platform, SharedMemMap}
use sandbox_ipc.Mutex.State.{Cells, Call, mutex_destroy}
use sandbox_ipc.Mutex.Unix
use sandbox_ipc.Mutex.Unix.{Pthread, from_handle, drop_mutex}

-- How often the pthread mutex has been destroyed.
abbrev pub destroys : List Call → ℕ
destroys [] = 0
destroys (mutex_destroy ∷ calls) = suc (destroys calls)
destroys (_ ∷ calls) = destroys calls

module _ {M V : Type 0} (platform : Platform M V) (pthread : Pthread) where
  pub data Event : Type 0 where
    attach : (raw_offset : ℕ) → SharedMemMap M V → (offset : ℕ) → Event
    detach : Event

  -- An attach that fails makes no object.
  abbrev counted : ℕ → Result (Unix.Mutex M V) → ℕ
  counted live (ok m) = suc live
  counted live (err kind) = live
  counted live panic = live

  -- The events in order, with the number of objects. Nobody uses the mutex when there are none.
  unfoldable pub run : List Event → ℕ → Cells → Option (ℕ × Cells)
  run [] live c = some (live, c)
  run (e ∷ es) zero c = none
  run (attach raw_offset memory offset ∷ es) (suc live) c =
      let (r, c') = from_handle platform pthread raw_offset memory offset c in
      run es (counted (suc live) r) c'
  run (detach ∷ es) (suc live) c = run es live (drop_mutex c).1

  attach_lem :
      (raw_offset : ℕ) (memory : SharedMemMap M V) (offset live : ℕ) (c : Cells)
      → c.refcount ≡ live
      → live + 1 < usize_mod
      → let (r, c') = from_handle platform pthread raw_offset memory offset c in
        (c'.refcount ≡ counted live r)
        × (counted live r ≤ live + 1)
        × (live ≤ counted live r)
        × (destroys c'.calls ≡ destroys c.calls)
  unfolding from_handle
  attach_lem raw_offset memory offset live c e small = ground arith

  detach_lem :
      (live : ℕ) (c : Cells)
      → c.refcount ≡ suc live
      → suc live < usize_mod
      → ((drop_mutex c).1.refcount ≡ live)
        × (destroys (drop_mutex c).1.calls ≡ destroys c.calls + (if live == 0 then 1 else 0))
  unfolding drop_mutex
  detach_lem live c e small = ground arith

  -- The count in shared memory is the number of `Mutex` objects, and the pthread mutex is destroyed
  -- once, when the last of them goes, and not before: for every sequence of attaches and drops from
  -- a state whose count is right and positive, in which no object is used after the last has gone,
  -- and which is too short for the count to wrap around.
  pub run_counts :
      (es : List Event) (live k : ℕ) (c : Cells) {c' : Cells}
      → c.refcount ≡ live
      → 0 < live
      → live + length es < usize_mod
      → run es live c ≡ some (k, c')
      → (c'.refcount ≡ k) × (destroys c'.calls ≡ destroys c.calls + (if k == 0 then 1 else 0))
  unfolding run
  run_counts [] live k c right pos small e = ground arith
  run_counts (attach raw_offset memory offset ∷ es) zero k c right pos small e =
      absurd (omega arith)
  run_counts (attach raw_offset memory offset ∷ es) (suc live) k c right pos small e =
      let (now, above, below, same) =
        attach_lem raw_offset memory offset (suc live) c right (omega arith) in
      let (count, gone) =
        run_counts es
          (counted (suc live) (from_handle platform pthread raw_offset memory offset c).0) k
          (from_handle platform pthread raw_offset memory offset c).1 now (omega arith)
          (omega arith) e in
      (count, omega (arith, gone, same))
  run_counts (detach ∷ es) zero k c right pos small e = absurd (omega arith)
  run_counts (detach ∷ []) (suc live) k c right pos small e =
      ground (arith, detach_lem live c right)
  run_counts (detach ∷ f ∷ es) (suc zero) k c right pos small e = cc
  run_counts (detach ∷ f ∷ es) (suc (suc live)) k c right pos small e =
      let (now, same) = detach_lem (suc live) c right (omega arith) in
      let (count, gone) =
        run_counts (f ∷ es) (suc live) k (drop_mutex c).1 now (omega arith) (omega arith) e in
      (count, ground (arith, gone, same))
