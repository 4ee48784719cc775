-- ===== src/Shm/Windows/Created.antt =====
-- `SharedMem::new` and `clone` of src/windows/sharedmem.rs, with the handles that they open. The calls
-- of the system are an argument, over the state `W` of the process; `none` is a failure.
use sandbox_ipc.Prelude.{ℕ, ◌%◌, ◌^◌, Option}
use sandbox_ipc.Prelude.Io.{ErrorKind}
use sandbox_ipc.Prelude.State.{St, ◌>>=◌, ◌>>◌, pure, lift_ok_or}
use sandbox_ipc.Channel.Owned.{Files, call, hold}
use sandbox_ipc.Shm.Range.{Access, read, read_write}
use sandbox_ipc.Shm.Windows.{SharedMem, high_bits}

pub data CloneAccess : Type 0 where
  file_map_read file_map_all_access : CloneAccess

-- `CreateFileMappingW` by the two halves of the size, and `DuplicateHandle` in this process.
pub record Calls (W : Type 0) : Type 0 where
  pub create_file_mapping : (high low : ℕ) → W → Option ℕ × W
  pub duplicate_handle : (handle : ℕ) → CloneAccess → W → Option ℕ × W

unfoldable pub clone_access : Access → CloneAccess
clone_access read = file_map_read
clone_access read_write = file_map_all_access

module _ {W : Type 0} where
  abbrev pub handle_call : (W → Option ℕ × W) → St (Files W) ℕ
  handle_call f = do
    result ← call f
    handle ← lift_ok_or result ErrorKind.os
    hold handle
    pure handle

  unfoldable pub new : Calls W → (size : ℕ) → St (Files W) SharedMem
  new calls size = do
    handle ← handle_call (calls.create_file_mapping (high_bits size) (size % 2 ^ 32))
    pure (record { handle = handle; size = size })

  unfoldable pub clone : Calls W → SharedMem → Access → St (Files W) SharedMem
  unfolding clone_access
  clone calls mem access = do
    handle ← handle_call (calls.duplicate_handle mem.handle (clone_access access))
    pure (record { handle = handle; size = mem.size })
