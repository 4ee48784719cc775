-- ===== src/Shm/Unix/Owners.antt =====
-- What `SharedMem::new` and `clone` of src/unix/sharedmem.rs leaves open, and which names in use.
use sandbox_ipc.Prelude.{
  ◌+◌, ℕ, ◌≡◌, refl, Bool, List, [], ◌∷◌, Option, none, some, arith, Option-cases, inl, inr, ◌⊎◌,
}
use sandbox_ipc.Prelude.Io.{err, ErrorKind}
use sandbox_ipc.Prelude.State.{St, scoped}
use sandbox_ipc.Channel.Owned.{Files}
use sandbox_ipc.Channel.Owned.Turns.{
  Turns, Turns-pure, Turns-Plain, Turns-scoped, Turns-bind, Turns-call, count, owned,
}
use sandbox_ipc.Shm.Range.{Access, read, read_write}
use sandbox_ipc.Shm.Unix.{SharedMem}
use sandbox_ipc.Shm.Unix.Names.{new-Leaves}
use sandbox_ipc.Shm.Unix.Created.{
  Linked, Calls, on_process, drop_fd, scoped_fd, bool_call, create, finish, reopen, new, clone,
}

abbrev pub memory_fds : SharedMem → List ℕ
memory_fds mem = elim mem.rw_fd [ some fd ↦ fd ∷ mem.ro_fd ∷ [] | none ↦ mem.ro_fd ∷ [] ]

module _ {W : Type 0} (calls : Calls W) where
  scoped_fd-Turns :
      (f : Linked W → Option ℕ × Linked W) → Turns [] (scoped_fd calls f) (λ fd. fd ∷ [])
  unfolding scoped_fd
  scoped_fd-Turns f = record {
    turns = λ s base h y. elim (Option-cases (f s.world).0) [
      | inl e ↦ ground (arith, h y)
      | inr (a, e) ↦ ground (arith, h y)
    ];
  }

  bool_call-Turns : (f : Linked W → Bool × Linked W) → Turns [] (bool_call calls f) (λ done. [])
  unfolding bool_call
  bool_call-Turns f = Turns-Plain _ (λ s. ground arith)

  guarded :
      {A : Type 0} {m : St (Files (Linked W)) A} {given : List ℕ} {handles : A → List ℕ} (x : ℕ)
      → Turns given m handles
      → Turns (x ∷ given) (scoped (drop_fd calls x) m) (λ a. x ∷ handles a)
  guarded x t = Turns-scoped (drop_fd calls x) x (λ s. (refl, refl)) t

  finish-Turns : (name size fd : ℕ) → Turns [] (finish calls name size fd) (λ done. [])
  unfolding finish
  finish-Turns name size fd =
      Turns-bind (λ done. []) (bool_call-Turns _) (λ done. bool_call-Turns _)

  reopen-Turns : (name size fd : ℕ) → Turns [] (reopen calls name size fd) (λ ro_fd. ro_fd ∷ [])
  unfolding reopen
  reopen-Turns name size fd =
      Turns-bind (λ ro_fd. ro_fd ∷ []) (scoped_fd-Turns _)
        (λ ro_fd.
          Turns-bind (λ done. ro_fd ∷ []) (guarded ro_fd (finish-Turns name size fd))
            (λ done. Turns-pure ro_fd (λ fd'. fd' ∷ [])))

  new-Turns : (size : ℕ) → Turns [] (new calls size) memory_fds
  unfolding new
  new-Turns size =
      Turns-bind (λ name. []) (Turns-call (on_process calls calls.new_v4))
        (λ name.
          Turns-bind (λ fd. fd ∷ []) (scoped_fd-Turns (create calls name))
            (λ fd.
              Turns-bind (λ ro_fd. fd ∷ ro_fd ∷ []) (guarded fd (reopen-Turns name size fd))
                (λ ro_fd.
                  Turns-pure (record { rw_fd = some fd; ro_fd = ro_fd; size = size }) memory_fds)))

  -- Shared memory is made without leaks of file descriptors: however `SharedMem::new` ends, each
  -- file descriptor is open as often as before, and once more for each of the two of the result, if
  -- there is one. The names in use are those before, or it fails and the new name stays.
  new-kept :
      (size : ℕ) (s : Files (Linked W)) (y : ℕ)
      → let (r, s') = new calls size s in
        (count y s'.opened ≡ count y (owned memory_fds r) + count y s.opened)
        × ((s'.world.names ≡ s.world.names)
            ⊎ ((s'.world.names ≡ (calls.new_v4 s.world.process).0 ∷ s.world.names)
                × (r ≡ err ErrorKind.os)))
  new-kept size s y = (
    (new-Turns size).turns s (λ x. count x s.opened) (λ x. omega arith) y,
    new-Leaves calls size s,
  )

module _ {W : Type 0} (calls : Calls W) where
  -- The first duplicate of a clone for writing, where the second cannot be made.
  abbrev pub lost : SharedMem → Access → W → List ℕ
  lost mem read w = []
  lost mem read_write w = elim mem.rw_fd [
    | none ↦ []
    | some old ↦
        let (first, w') = calls.dup old w in
        elim first [
          | none ↦ []
          | some fd ↦ elim (calls.dup mem.ro_fd w').0 [ none ↦ fd ∷ [] | some fd' ↦ [] ]
        ]
  ]

  -- A clone of a memory is made with one leak: however `clone` ends, each file descriptor is open as
  -- often as before, once more for each file descriptor of the result, if there is one, and once more
  -- for the first duplicate if the second cannot be made. The names in use stay.
  clone-kept :
      (mem : SharedMem) (access : Access) (s : Files (Linked W)) (y : ℕ)
      → let (r, s') = clone calls mem access s in
        (count y s'.opened
          ≡ count y (owned memory_fds r)
            + count y (lost mem access s.world.process)
            + count y s.opened)
        × (s'.world.names ≡ s.world.names)
  unfolding clone
  clone-kept mem read s y = elim (Option-cases (calls.dup mem.ro_fd s.world.process).0) [
    | inl e ↦ (ground (arith, e), ground (arith, e))
    | inr (fd, e) ↦ (ground (arith, e), ground (arith, e))
  ]
  clone-kept mem read_write s y = elim (Option-cases mem.rw_fd) [
    | inl e ↦ (ground (arith, e), ground (arith, e))
    | inr (old, e) ↦
        let w = s.world.process in
        elim (Option-cases (calls.dup old w).0) [
          | inl e' ↦ (ground (arith, e, e'), ground (arith, e, e'))
          | inr (fd, e') ↦ elim (Option-cases (calls.dup mem.ro_fd (calls.dup old w).1).0) [
            | inl e'' ↦ (ground (arith, e, e', e''), ground (arith, e, e', e''))
            | inr (fd', e'') ↦ (ground (arith, e, e', e''), ground (arith, e, e', e''))
          ]
        ]
  ]

  -- Shared memory is made with one leak: however `SharedMem::new` and `clone` end, each file descriptor is
  -- open as often as before, and once more for each file descriptor of the result, if there is one;
  -- but a clone for writing whose second duplicate cannot be made leaves the first one open. The names
  -- in use are those before, except that `new` may fail and leave the new name.
  pub memories_kept :
      (size : ℕ) (mem : SharedMem) (access : Access) (s : Files (Linked W)) (y : ℕ)
      → (let (r, s') = new calls size s in
          (count y s'.opened ≡ count y (owned memory_fds r) + count y s.opened)
          × ((s'.world.names ≡ s.world.names)
              ⊎ ((s'.world.names ≡ (calls.new_v4 s.world.process).0 ∷ s.world.names)
                  × (r ≡ err ErrorKind.os))))
        × (let (r, s') = clone calls mem access s in
            (count y s'.opened
              ≡ count y (owned memory_fds r)
                + count y (lost mem access s.world.process)
                + count y s.opened)
            × (s'.world.names ≡ s.world.names))
  memories_kept size mem access s y = (new-kept calls size s y, clone-kept mem access s y)
