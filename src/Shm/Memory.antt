-- ===== src/Shm/Memory.antt =====
-- `SharedMem::new`, `size` and `clone_with_access` of src/shm/mod.rs, over what a platform offers.
use sandbox_ipc.Prelude.{ℕ}
use sandbox_ipc.Prelude.State.{St, ◌>>=◌, pure}
use sandbox_ipc.Shm.Range.{Access}
use sandbox_ipc.Shm.Map.{Platform, SharedMem}
use sandbox_ipc.Channel.Owned.{Files}
use sandbox_ipc.Shm.Unix
use sandbox_ipc.Shm.Unix.Created
use sandbox_ipc.Shm.Windows

-- How a platform makes its `SharedMem`, over the state `S` of the process.
pub record Maker (S M : Type 0) : Type 0 where
  pub new : (size : ℕ) → St S M
  pub clone : M → Access → St S M

abbrev pub unix : {W : Type 0} → Created.Calls W → Maker (Files (Created.Linked W)) Unix.SharedMem
unix calls = record { new = Created.new calls; clone = Created.clone calls }

abbrev pub windows : {W : Type 0} → Windows.Created.Calls W → Maker (Files W) Windows.SharedMem
windows calls = record { new = Windows.Created.new calls; clone = Windows.Created.clone calls }

module _ {S M : Type 0} (maker : Maker S M) where
  -- `new_v4` is `Uuid::new_v4`.
  unfoldable pub new : (new_v4 : St S ℕ) → (size : ℕ) → St S (SharedMem M)
  new new_v4 size = do
    inner ← maker.new size
    token ← new_v4
    pure (record { inner = inner; token = token })

  unfoldable pub clone_with_access : SharedMem M → Access → St S (SharedMem M)
  clone_with_access mem access = do
    inner ← maker.clone mem.inner access
    pure (record { inner = inner; token = mem.token })

-- `SharedMem::size`
abbrev pub size : {M V : Type 0} → Platform M V → SharedMem M → ℕ
size platform mem = platform.size mem.inner
