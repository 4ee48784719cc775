-- ===== src/Shm/Unix.antt =====
-- src/unix/sharedmem.rs. The address that `mmap` returns is an argument (`none` where the call fails).
pub mod Cover
pub mod Created
pub mod Extent
pub mod Names
pub mod Owners
pub mod Transfer
pub mod Rights
use sandbox_ipc.Prelude.{ℕ, ◌+◌, ◌-◌, ◌%◌, Option, none, some, ◌==◌, leb, ◌&&◌, if◌then◌else◌}
use sandbox_ipc.Prelude.Word.{checked_add, wrapping_add, wrapping_sub}
use sandbox_ipc.Prelude.Io.{Result, ok, ErrorKind, ◌>>=◌, ◌>>◌, ensure, ok_or}
use sandbox_ipc.Shm.Range.{
  Access, read, read_write, Bound, included, excluded, unbounded, Range, start,
}

pub record SharedMem : Type 0 where
  pub rw_fd : Option ℕ
  pub ro_fd : ℕ
  pub size : ℕ

pub record SharedMemMap : Type 0 where
  pub mapping_pointer : ℕ
  pub user_pointer : ℕ
  pub mapping_len : ℕ
  pub user_len : ℕ
  pub mapping_offset : ℕ
  pub user_offset : ℕ
  pub access : Access

pub data Prot : Type 0 where
  prot_read prot_read_write : Prot

-- `mmap(NULL, len, prot, MAP_SHARED, fd, offset)`
abbrev pub Mmap : Type 0
Mmap = (len : ℕ) → Prot → (fd offset : ℕ) → Option ℕ

-- The protection and the file descriptor to map with.
unfoldable pub choose_fd : SharedMem → Access → Result (Prot × ℕ)
choose_fd mem read = ok (prot_read, mem.ro_fd)
choose_fd mem read_write = do
  fd ← ok_or mem.rw_fd ErrorKind.permission_denied
  ok (prot_read_write, fd)

unfoldable pub offset_of : Bound → Option ℕ
offset_of (included i) = some i
offset_of (excluded i) = checked_add i 1
offset_of unbounded = some 0

-- As the source has it: read from the start of the range.
unfoldable pub end_of : ℕ → Bound → Option ℕ
end_of size (included i) = checked_add i 1
end_of size (excluded i) = some i
end_of size unbounded = some size

-- The offset and the end, in bounds.
unfoldable pub bounds : ℕ → Range → Result (ℕ × ℕ)
unfolding offset_of end_of
bounds size range = do
  offset ← ok_or (offset_of (start range)) ErrorKind.invalid_input
  end ← ok_or (end_of size (start range)) ErrorKind.invalid_input
  ensure (leb offset end && leb end size) ErrorKind.invalid_input
  ok (offset, end)

-- The bytes up to the end of the page.
unfoldable pub end_shift : ℕ → ℕ → ℕ
end_shift page_size end = if end % page_size == 0 then 0 else page_size - end % page_size

-- The part of the file to map, in whole pages, and the part of it that the user sees.
unfoldable pub place : ℕ → Access → Prot → ℕ → Mmap → ℕ × ℕ → Result SharedMemMap
place page_size access prot fd mmap (offset, end) = do
  let mapping_offset = offset - offset % page_size
  let mapping_len = wrapping_sub (wrapping_add end (end_shift page_size end)) mapping_offset
  pointer ← ok_or (mmap mapping_len prot fd mapping_offset) ErrorKind.os
  ok (record {
    mapping_pointer = pointer;
    user_pointer = pointer + offset % page_size;
    mapping_len = mapping_len;
    user_len = end - offset;
    mapping_offset = mapping_offset;
    user_offset = offset;
    access = access;
  })

unfoldable pub map : ℕ → Mmap → SharedMem → Range → Access → Result SharedMemMap
map page_size mmap mem range access = do
  (prot, fd) ← choose_fd mem access
  part ← bounds mem.size range
  place page_size access prot fd mmap part

-- `SharedMemMap::drop`, with what `munmap` does to the state `W` of the process: a failure is logged.
unfoldable pub drop : {W : Type 0} → (munmap : (pointer len : ℕ) → W → W) → SharedMemMap → W → W
drop munmap v w = munmap v.mapping_pointer v.mapping_len w
