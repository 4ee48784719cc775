-- ===== src/Shm/Windows.antt =====
-- src/windows/sharedmem.rs. The address that `MapViewOfFile` returns is an argument (`none` where
-- the call fails).
pub mod View
pub mod Created
pub mod Owners
pub mod Transfer
mod Tests
use sandbox_ipc.Prelude.{ℕ, ◌+◌, ◌-◌, ◌%◌, ◌/◌, ◌^◌, Option, none, some, ◌==◌, leb, if◌then◌else◌}
use sandbox_ipc.Prelude.Word.{checked_add, checked_sub}
use sandbox_ipc.Prelude.Io.{Result, ok, ErrorKind, ◌>>=◌, ◌>>◌, ensure, ok_or}
use sandbox_ipc.Shm.Range.{
  Access, read, read_write, Bound, included, excluded, unbounded, Range, start, end,
}

pub record SharedMem : Type 0 where
  pub handle : ℕ
  pub size : ℕ

pub record SharedMemMap : Type 0 where
  pub mapping_pointer : ℕ
  pub mapping_len : ℕ
  pub user_pointer : ℕ
  pub user_len : ℕ
  pub access : Access
  pub user_offset : ℕ

pub data RawAccess : Type 0 where
  file_map_read file_map_write : RawAccess

unfoldable pub raw_access : Access → RawAccess
raw_access read = file_map_read
raw_access read_write = file_map_write

-- `MapViewOfFile(handle, access, high offset, low offset, len)`
abbrev pub MapViewOfFile : Type 0
MapViewOfFile = (handle : ℕ) → RawAccess → (high low len : ℕ) → Option ℕ

-- `x >> 32`, on a 64-bit target.
abbrev pub high_bits : ℕ → ℕ
high_bits x = x / 2 ^ 32

unfoldable pub offset_of : Bound → Option ℕ
offset_of (included i) = some i
offset_of (excluded i) = checked_add i 1
offset_of unbounded = some 0

unfoldable pub len_of : ℕ → ℕ → Bound → Option ℕ
len_of size offset (included i) = elim (checked_add i 1) [
  | some x ↦ checked_sub x offset
  | none ↦ none
]
len_of size offset (excluded i) = checked_sub i offset
len_of size offset unbounded = checked_sub size offset

-- The offset and the length, in bounds.
unfoldable pub bounds : ℕ → Range → Result (ℕ × ℕ)
unfolding offset_of len_of
bounds size range = do
  offset ← ok_or (offset_of (start range)) ErrorKind.invalid_input
  len ← ok_or (len_of size offset (end range)) ErrorKind.invalid_input
  ensure (leb (offset + len) size) ErrorKind.invalid_input
  ok (offset, len)

-- The offset must be a multiple of the page size.
abbrev pub page_start : ℕ → ℕ → ℕ
page_start page_size offset =
    if offset % page_size == 0 then offset else offset - offset % page_size

unfoldable pub place : ℕ → MapViewOfFile → SharedMem → Access → ℕ × ℕ → Result SharedMemMap
unfolding raw_access
place page_size view mem access (offset, len) = do
  let mapping_offset = page_start page_size offset
  let mapping_len = len + offset - mapping_offset
  addr ←
      ok_or
        (view mem.handle (raw_access access) (high_bits mapping_offset) (mapping_offset % 2 ^ 32)
          mapping_len)
        ErrorKind.os
  ok (record {
    mapping_pointer = addr;
    mapping_len = mapping_len;
    user_pointer = addr + (offset - mapping_offset);
    user_len = len;
    access = access;
    user_offset = offset;
  })

unfoldable pub map : ℕ → MapViewOfFile → SharedMem → Range → Access → Result SharedMemMap
map page_size view mem range access = do
  part ← bounds mem.size range
  place page_size view mem access part

-- `SharedMemMap::drop`, with what `UnmapViewOfFile` does to the state `W` of the process: a failure is
-- logged.
unfoldable pub drop : {W : Type 0} → (unmap_view : (pointer : ℕ) → W → W) → SharedMemMap → W → W
drop unmap_view v w = unmap_view v.mapping_pointer w
