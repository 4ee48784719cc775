-- ===== src/Source.antt =====
-- `SendableDataSource` of src/io.rs: data in a file, in shared memory or inline, read as a stream or
-- at once. What files do is an argument; memory is read by a function of the address, since nothing
-- here writes to it.
pub mod Reading
pub mod Transfer
mod Tests
use sandbox_ipc.Prelude.{
  ℕ, zero, suc, ◌+◌, ◌-◌, ◌<◌, ◌≤◌, ◌≡◌, List, [], ◌∷◌, ◌++◌, length, take, drop, min,
}
use sandbox_ipc.Prelude.Io.{Result, ok, err, panic, ◌>>=◌}
use sandbox_ipc.Shm.Range.{Access, Range}
use sandbox_ipc.Shm.Map
use sandbox_ipc.Shm.Map.{Platform, SharedMem, SharedMemMap}

-- `fs::File`: a read of at most so many bytes, and one up to the end.
pub record Files (F : Type 0) : Type 0 where
  pub read : F → (size : ℕ) → Result (List ℕ) × F
  pub read_to_end : F → Result (List ℕ) × F

-- `io::Cursor`
pub record Cursor : Type 0 where
  pub bytes : List ℕ
  pub position : ℕ

abbrev pub read_cursor : Cursor → (size : ℕ) → List ℕ × Cursor
read_cursor c size =
    let chunk : List ℕ = take size (drop c.position c.bytes) in
    (chunk, record c { position = c.position + length chunk })

-- `slice::from_raw_parts`
abbrev pub from_raw_parts : (ℕ → ℕ) → (pointer len : ℕ) → List ℕ
from_raw_parts memory pointer zero = []
from_raw_parts memory pointer (suc len) = memory pointer ∷ from_raw_parts memory (suc pointer) len

pub data SendableDataSource (F M : Type 0) : Type 0 where
  file : F → SendableDataSource F M
  memory : SharedMem M → SendableDataSource F M
  inline : List ℕ → SendableDataSource F M

pub data SendableDataSourceReader (F M V : Type 0) : Type 0 where
  file : F → SendableDataSourceReader F M V
  memory : SharedMemMap M V → Cursor → SendableDataSourceReader F M V
  inline : Cursor → SendableDataSourceReader F M V

pub data SendableDataSourceBytes (M V : Type 0) : Type 0 where
  vec : List ℕ → SendableDataSourceBytes M V
  shared : SharedMemMap M V → SendableDataSourceBytes M V

module _ {F M V : Type 0} (files : Files F) (platform : Platform M V) (byte_at : ℕ → ℕ) where
  -- The bytes that a mapping shows.
  abbrev pub slice : SharedMemMap M V → List ℕ
  slice map = from_raw_parts byte_at (Map.pointer platform map) (Map.len platform map)

  unfoldable pub to_read : SendableDataSource F M → Result (SendableDataSourceReader F M V)
  to_read (file f) = ok (file f)
  to_read (memory shared_mem) = do
    map ← Map.map platform shared_mem Range.full Access.read
    ok (memory map (record { bytes = slice map; position = 0 }))
  to_read (inline bytes) = ok (inline (record { bytes = bytes; position = 0 }))

  unfoldable pub to_bytes : SendableDataSource F M → Result (SendableDataSourceBytes M V)
  to_bytes (file f) = do buffer ← (files.read_to_end f).0; ok (vec buffer)
  to_bytes (memory shared_mem) = do
    map ← Map.map platform shared_mem Range.full Access.read
    ok (shared map)
  to_bytes (inline bytes) = ok (vec bytes)

  -- `Read` of the reader, into a buffer of `size` bytes.
  unfoldable pub read :
      SendableDataSourceReader F M V → (size : ℕ) → Result (List ℕ) × SendableDataSourceReader F M V
  read (file f) size = let (r, f') = files.read f size in (r, file f')
  read (memory map c) size = let (chunk, c') = read_cursor c size in (ok chunk, memory map c')
  read (inline c) size = let (chunk, c') = read_cursor c size in (ok chunk, inline c')

  -- `Deref`
  unfoldable pub deref : SendableDataSourceBytes M V → List ℕ
  deref (vec bytes) = bytes
  deref (shared map) = slice map

  -- Reads with a buffer of `size` bytes until one returns no byte, of at most `fuel` bytes.
  unfoldable pub drain : (fuel size : ℕ) → SendableDataSourceReader F M V → Result (List ℕ)
  drain zero size reader = panic
  drain (suc fuel) size reader =
      let (r, reader') = read reader size in
      r >>= λ chunk. elim chunk [
        | [] ↦ ok []
        | b ∷ bs ↦ drain fuel size reader' >>= λ rest. ok (b ∷ bs ++ rest)
      ]
