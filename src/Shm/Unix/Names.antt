-- ===== src/Shm/Unix/Names.antt =====
-- Which names of shared memory `SharedMem::new` of src/unix/sharedmem.rs leaves in use.
use sandbox_ipc.Prelude.{
  ℕ, ◌≡◌, sym, subst, Bool-cases, List, ◌∷◌, Option, some, arith, Option-cases, inl, inr, ◌⊎◌,
  ==_iff,
}
use sandbox_ipc.Prelude.Io.{Result, err, ErrorKind, Result-cases}
use sandbox_ipc.Prelude.State.{St, scoped, pure, ◌>>=◌}
use sandbox_ipc.Channel.Owned.{Files}
use sandbox_ipc.Shm.Unix.Created.{
  Linked, Calls, on_process, drop_fd, scoped_fd, bool_call, create, unlink, finish, reopen, new,
}

module _ {W : Type 0} (calls : Calls W) where
  bound :
      {A : Type 0} (f : Linked W → Option ℕ × Linked W) (k : ℕ → St (Files (Linked W)) A)
      (s : Files (Linked W)) (fd : ℕ)
      → (f s.world).0 ≡ some fd
      → (scoped_fd calls f >>= k) s
        ≡ k fd (record { world = (f s.world).1; opened = fd ∷ s.opened })
  unfolding scoped_fd
  bound f k s fd e = ground (arith, e)

  -- The names afterwards: those before, or one more after an error.
  abbrev pub Leaves : {A : Type 0} → Result A × Files (Linked W) → ℕ → List ℕ → Type 0
  Leaves (r, s) name names =
      (s.world.names ≡ names) ⊎ ((s.world.names ≡ name ∷ names) × (r ≡ err ErrorKind.os))

  -- The same code in the scope of a guard, with its result replaced.
  scoped-Leaves :
      {A B : Type 0} (m : St (Files (Linked W)) A) (k : A → B) (x name : ℕ) (names : List ℕ)
      (s : Files (Linked W))
      → Leaves (m s) name names
      → Leaves ((scoped (drop_fd calls x) m >>= λ a. pure (k a)) s) name names
  scoped-Leaves m k x name names s leaves = elim (Result-cases (m s).0) [
    | inl (a, e) ↦ ground (arith, leaves)
    | inr (inl (kind, e)) ↦ ground (arith, leaves)
    | inr (inr e) ↦ ground (arith, leaves)
  ]

  finish-Leaves :
      (name size fd : ℕ) (names : List ℕ) (s : Files (Linked W))
      → s.world.names ≡ name ∷ names
      → Leaves (finish calls name size fd s) name names
  unfolding finish bool_call unlink
  finish-Leaves name size fd names s had =
      elim (Bool-cases (calls.shm_unlink name s.world.process).0) [
        | inl e ↦ inl (ground (arith, e, had, ==_iff name name))
        | inr e ↦ inr (ground (arith, e, had))
      ]

  reopen-Leaves :
      (name size fd : ℕ) (names : List ℕ) (s : Files (Linked W))
      → s.world.names ≡ name ∷ names
      → Leaves (reopen calls name size fd s) name names
  unfolding reopen scoped_fd
  reopen-Leaves name size fd names s had =
      elim (Option-cases (calls.shm_open_read name s.world.process).0) [
        | inl e ↦ inr (ground (arith, e, had))
        | inr (ro_fd, e) ↦
            let s' : Files (Linked W) = record {
              world = (on_process calls (calls.shm_open_read name) s.world).1;
              opened = ro_fd ∷ s.opened;
            } in
            subst (λ r. Leaves r name names)
              (sym (
                bound (on_process calls (calls.shm_open_read name))
                  (λ fd'.
                    scoped (drop_fd calls fd') (finish calls name size fd) >>= λ done. pure fd')
                  s ro_fd e))
              (scoped-Leaves (finish calls name size fd) (λ done. ro_fd) ro_fd name names s'
                (finish-Leaves name size fd names s' had))
      ]

  create-names :
      (name fd : ℕ) (l : Linked W)
      → (calls.shm_open_new name l.process).0 ≡ some fd
      → (create calls name l).1.names ≡ name ∷ l.names
  unfolding create
  create-names name fd l e = ground (arith, e)

  pub new-Leaves :
      (size : ℕ) (s : Files (Linked W))
      → Leaves (new calls size s) (calls.new_v4 s.world.process).0 s.world.names
  unfolding new scoped_fd create
  new-Leaves size s =
      let (name, w) = calls.new_v4 s.world.process in
      let l : Linked W = record { process = w; names = s.world.names } in
      let s' : Files (Linked W) = record { world = l; opened = s.opened } in
      elim (Option-cases (calls.shm_open_new name w).0) [
        | inl e ↦ inl (ground (arith, e))
        | inr (fd, e) ↦
            let made : Files (Linked W) = record {
              world = (create calls name l).1;
              opened = fd ∷ s.opened;
            } in
            subst (λ r. Leaves r name s.world.names)
              (sym (
                bound (create calls name)
                  (λ fd'. scoped (drop_fd calls fd') (reopen calls name size fd') >>= λ ro_fd.
                    pure (record { rw_fd = some fd'; ro_fd = ro_fd; size = size }))
                  s' fd e))
              (scoped-Leaves (reopen calls name size fd)
                (λ ro_fd. record { rw_fd = some fd; ro_fd = ro_fd; size = size }) fd name
                s.world.names made
                (reopen-Leaves name size fd s.world.names made (create-names name fd l e)))
      ]
