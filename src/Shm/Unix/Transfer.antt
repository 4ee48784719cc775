-- ===== src/Shm/Unix/Transfer.antt =====
-- `SharedMem` of src/unix/sharedmem.rs in a message, and in it that of src/shm/mod.rs: the derived
-- serialization, field by field. A uuid is a number.
pub mod Shape
pub mod Arrival
mod Tests
use sandbox_ipc.Prelude.{ℕ, List, [], ◌∷◌, ◌++◌, Option, none, some}
use sandbox_ipc.Prelude.Io.{ok}
use sandbox_ipc.Prelude.State.{St, ◌>>=◌, pure, lift, scoped}
use sandbox_ipc.Channel.Tokens.{Token, number, next_number}
use sandbox_ipc.Channel.Fds.{Libc, Locals}
use sandbox_ipc.Channel.Fds.Items.{put_scoped, get_scoped, put_option, get_option}
use sandbox_ipc.Shm.Unix.{SharedMem}
use sandbox_ipc.Shm.Map

module _ {W : Type 0} (libc : Libc W) where
  unfoldable pub serialize : SharedMem → St (Locals W) (List Token)
  serialize mem = do
    rw_fd ← put_option libc mem.rw_fd
    ro_fd ← put_scoped libc mem.ro_fd
    pure (rw_fd ++ (ro_fd ++ (number mem.size ∷ [])))

  -- `SharedMem` of src/shm/mod.rs
  unfoldable pub serialize_token : Map.SharedMem SharedMem → St (Locals W) (List Token)
  unfolding serialize
  serialize_token mem = do inner ← serialize mem.inner; pure (inner ++ (number mem.token ∷ []))

-- `ScopedFd::drop`
abbrev pub drop_fd : {W : Type 0} → (ℕ → W → W) → ℕ → St (Locals W) (Unit {0})
drop_fd close fd l = (ok tt, record l { world = close fd l.world })

abbrev pub drop_option : {W : Type 0} → (ℕ → W → W) → Option ℕ → St (Locals W) (Unit {0})
drop_option close none = pure tt
drop_option close (some fd) = drop_fd close fd

-- The file descriptors in the order of the fields.
abbrev pub drop_memory : {W : Type 0} → (ℕ → W → W) → SharedMem → St (Locals W) (Unit {0})
drop_memory close mem = do done ← drop_option close mem.rw_fd; drop_fd close mem.ro_fd

module _ {W : Type 0} (libc : Libc W) (close : ℕ → W → W) where
  -- An error closes what has been read.
  unfoldable pub deserialize : List Token → St (Locals W) (SharedMem × List Token)
  deserialize tokens = do
    (rw_fd, tokens₁) ← get_option libc tokens
    scoped (drop_option close rw_fd) (do
      (ro_fd, tokens₂) ← get_scoped libc tokens₁
      scoped (drop_fd close ro_fd) (do
        (size, tokens₃) ← lift (next_number tokens₂)
        pure (record { rw_fd = rw_fd; ro_fd = ro_fd; size = size }, tokens₃)))

  unfoldable pub deserialize_token :
      List Token → St (Locals W) (Map.SharedMem SharedMem × List Token)
  unfolding deserialize
  deserialize_token tokens = do
    (inner, tokens₁) ← deserialize tokens
    scoped (drop_memory close inner) (do
      (token, tokens₂) ← lift (next_number tokens₁)
      pure (record { inner = inner; token = token }, tokens₂))
