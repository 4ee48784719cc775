-- ===== src/Shm/Unix/Created.antt =====
-- `SharedMem::new` and `clone` of src/unix/sharedmem.rs: the file descriptors that they open, and the
-- name that a new memory has until both are open. The calls of the system are an argument, over the state `W` of the
-- process; a name is the number of its uuid.
use sandbox_ipc.Prelude.{ℕ, Bool, if◌then◌else◌, List, ◌∷◌, Option, none, some}
use sandbox_ipc.Prelude.Io.{ok, ErrorKind}
use sandbox_ipc.Prelude.State.{St, ◌>>=◌, ◌>>◌, pure, lift_ensure, lift_ok_or, scoped}
use sandbox_ipc.Channel.Owned.{Files, remove, call, hold}
use sandbox_ipc.Shm.Range.{Access, read, read_write}
use sandbox_ipc.Shm.Unix.{SharedMem}

-- The process, and the names of shared memory that are in use.
pub record Linked (W : Type 0) : Type 0 where
  pub process : W
  pub names : List ℕ

-- A call is `none` or `false` when it fails.
pub record Calls (W : Type 0) : Type 0 where
  pub new_v4 : W → ℕ × W
  pub shm_open_new : (name : ℕ) → W → Option ℕ × W
  pub shm_open_read : (name : ℕ) → W → Option ℕ × W
  pub shm_unlink : (name : ℕ) → W → Bool × W
  pub dup : (fd : ℕ) → W → Option ℕ × W
  pub ftruncate : (fd size : ℕ) → W → Bool × W
  pub close : (fd : ℕ) → W → W

module _ {W : Type 0} (calls : Calls W) where
  -- A call that leaves the names as they are.
  abbrev pub on_process : {A : Type 0} → (W → A × W) → Linked W → A × Linked W
  on_process f l = let (a, w) = f l.process in (a, record l { process = w })

  -- `ScopedFd::drop`
  abbrev pub drop_fd : ℕ → St (Files (Linked W)) (Unit {0})
  drop_fd fd s = (
    ok tt,
    record {
      world = record s.world { process = calls.close fd s.world.process };
      opened = remove fd s.opened;
    },
  )

  unfoldable pub scoped_fd : (Linked W → Option ℕ × Linked W) → St (Files (Linked W)) ℕ
  scoped_fd f = do result ← call f; fd ← lift_ok_or result ErrorKind.os; hold fd; pure fd

  -- `shm_open` with `O_CREAT | O_EXCL`: where it succeeds, the name is in use.
  unfoldable pub create : (name : ℕ) → Linked W → Option ℕ × Linked W
  create name l =
      let (result, w) = calls.shm_open_new name l.process in
      (
        result,
        record { process = w; names = elim result [ some fd ↦ name ∷ l.names | none ↦ l.names ] },
      )

  unfoldable pub unlink : (name : ℕ) → Linked W → Bool × Linked W
  unlink name l =
      let (done, w) = calls.shm_unlink name l.process in
      (done, record { process = w; names = if done then remove name l.names else l.names })

  unfoldable pub bool_call : (Linked W → Bool × Linked W) → St (Files (Linked W)) (Unit {0})
  bool_call f = do done ← call f; lift_ensure done ErrorKind.os

  -- What happens while both file descriptors are open.
  unfoldable pub finish : (name size fd : ℕ) → St (Files (Linked W)) (Unit {0})
  finish name size fd = do bool_call (unlink name); bool_call (on_process (calls.ftruncate fd size))

  -- What happens while the first file descriptor is open, with the second as its result.
  unfoldable pub reopen : (name size fd : ℕ) → St (Files (Linked W)) ℕ
  reopen name size fd = do
    ro_fd ← scoped_fd (on_process (calls.shm_open_read name))
    scoped (drop_fd ro_fd) (finish name size fd)
    pure ro_fd

  unfoldable pub new : (size : ℕ) → St (Files (Linked W)) SharedMem
  new size = do
    name ← call (on_process calls.new_v4)
    fd ← scoped_fd (create name)
    ro_fd ← scoped (drop_fd fd) (reopen name size fd)
    pure (record { rw_fd = some fd; ro_fd = ro_fd; size = size })

  -- A call of `dup` that does not fail.
  abbrev pub duplicate : ℕ → St (Files (Linked W)) ℕ
  duplicate fd = scoped_fd (on_process (calls.dup fd))

  -- The first duplicate for writing is a bare number until the second is there.
  unfoldable pub clone : SharedMem → Access → St (Files (Linked W)) SharedMem
  unfolding scoped_fd
  clone mem read = do
    ro_fd ← duplicate mem.ro_fd
    pure (record { rw_fd = none; ro_fd = ro_fd; size = mem.size })
  clone mem read_write = do
    old ← lift_ok_or mem.rw_fd ErrorKind.permission_denied
    rw_fd ← duplicate old
    ro_fd ← duplicate mem.ro_fd
    pure (record { rw_fd = some rw_fd; ro_fd = ro_fd; size = mem.size })
