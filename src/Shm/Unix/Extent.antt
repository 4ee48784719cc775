-- ===== src/Shm/Unix/Extent.antt =====
-- Which part of the memory src/unix/sharedmem.rs maps for a range.
use sandbox_ipc.Prelude.{
  refl, Option-cases, inl, inr, ◌%◌, ℕ, ◌+◌, ◌≤◌, ◌-◌, ◌<◌, ◌≡◌, ◌≢◌, Option, none, some, arith,
  ltb, if◌then◌else◌,
}
use sandbox_ipc.Prelude.Word.{usize_mod, wrapping_add, wrapping_sub}
use sandbox_ipc.Prelude.Io.{ok, err, ErrorKind, >>=-eq-ok}
use sandbox_ipc.Shm.Range.{Access, read, read_write, Range, full, from, to, between, start, span}
use sandbox_ipc.Shm.Unix.Cover.{Covers, map-Covers}
use sandbox_ipc.Shm.Unix.{
  SharedMem, SharedMemMap, Mmap, Prot, prot_read, prot_read_write, choose_fd, bounds, place, map,
  drop, end_shift,
}

-- The part that the source computes, in place of the one that the range names: the whole memory
-- without a start, and one byte with one.
abbrev pub extent : Range → ℕ → Option (ℕ × ℕ)
extent full size = some (0, size)
extent (to b) size = some (0, size)
extent (from a) size = if ltb a size then some (a, 1) else none
extent (between a b) size = if ltb a size then some (a, 1) else none

bounds-eq-extent :
    (size : ℕ) (range : Range)
    → size < usize_mod
    → bounds size range ≡ (elim (extent range size) [
      | some (offset, len) ↦ ok (offset, offset + len)
      | none ↦ err ErrorKind.invalid_input
    ])
unfolding bounds start
bounds-eq-extent size full h = ground arith
bounds-eq-extent size (from a) h = ground arith
bounds-eq-extent size (to b) h = ground arith
bounds-eq-extent size (between a b) h = ground arith

place-extent :
    (page_size : ℕ) (access : Access) (prot : Prot) (fd : ℕ) (mmap : Mmap) (offset end : ℕ)
    {v : SharedMemMap}
    → place page_size access prot fd mmap (offset, end) ≡ ok v
    → (v.user_offset ≡ offset) × (v.user_len ≡ end - offset)
unfolding place
place-extent page_size access prot fd mmap offset end e = ground arith

bounds-extent :
    (size : ℕ) (range : Range) (offset end : ℕ)
    → size < usize_mod
    → bounds size range ≡ ok (offset, end)
    → some (offset, end - offset) ≡ extent range size
bounds-extent size range offset end h e = ground (arith, bounds-eq-extent size range h)

map-extent :
    (page_size : ℕ) (mmap : Mmap) (mem : SharedMem) (range : Range) (access : Access)
    {v : SharedMemMap}
    → mem.size < usize_mod
    → map page_size mmap mem range access ≡ ok v
    → some (v.user_offset, v.user_len) ≡ extent range mem.size
unfolding map
map-extent page_size mmap mem range access {v} small e =
    let ((prot, fd), chosen, rest) = >>=-eq-ok (choose_fd mem access) _ e in
    let ((offset, end), bounded, placed) = >>=-eq-ok (bounds mem.size range) _ rest in
    let (same_offset, same_len) = place-extent page_size access prot fd mmap offset end placed in
    cc (bounds-extent mem.size range offset end small bounded)

place-mapped :
    (page_size : ℕ) (access : Access) (prot : Prot) (fd : ℕ) (mmap : Mmap) (offset end : ℕ)
    {v : SharedMemMap}
    → place page_size access prot fd mmap (offset, end) ≡ ok v
    → mmap v.mapping_len prot fd v.mapping_offset ≡ some v.mapping_pointer
unfolding place
place-mapped page_size access prot fd mmap offset end e =
    elim (Option-cases (
      mmap (wrapping_sub (wrapping_add end (end_shift page_size end)) (offset - offset % page_size))
        prot fd (offset - offset % page_size))) [
          | inl w ↦ absurd (ground (arith, w, e))
          | inr (p, w) ↦ ground (arith, w, e)
        ]

-- The protection and the file descriptor that an access asks for.
pub data Grants (mem : SharedMem) : Access → Prot → (fd : ℕ) → Type 0 where
  reading : Grants mem read prot_read mem.ro_fd
  writing : {fd : ℕ} → mem.rw_fd ≡ some fd → Grants mem read_write prot_read_write fd

choose_fd-Grants :
    (mem : SharedMem) (access : Access) (prot : Prot) (fd : ℕ)
    → choose_fd mem access ≡ ok (prot, fd)
    → Grants mem access prot fd
unfolding choose_fd
choose_fd-Grants mem read prot fd e =
    let same : prot ≡ prot_read = ground (arith, e) in
    let same' : fd ≡ mem.ro_fd = ground (arith, e) in rw same (rw same' reading)
choose_fd-Grants mem read_write prot fd e = elim (Option-cases mem.rw_fd) [
  | inl w ↦ absurd (ground (arith, w, e))
  | inr (fd', w) ↦
      let same : prot ≡ prot_read_write = ground (arith, w, e) in
      let same' : fd ≡ fd' = ground (arith, w, e) in rw same (rw same' (writing w))
]

-- What is unmapped at the end is what was mapped, for the access asked for.
map-mapped :
    (page_size : ℕ) (mmap : Mmap) (mem : SharedMem) (range : Range) (access : Access)
    {v : SharedMemMap} {W : Type 0} (munmap : ℕ → ℕ → W → W) (w : W)
    → map page_size mmap mem range access ≡ ok v
    → (prot : Prot) × (fd : ℕ) × (pointer : ℕ) × (Grants mem access prot fd)
      × (mmap v.mapping_len prot fd v.mapping_offset ≡ some pointer)
      × (drop munmap v w ≡ munmap pointer v.mapping_len w)
unfolding map drop
map-mapped page_size mmap mem range access {v} munmap w e =
    let ((prot, fd), chosen, rest) = >>=-eq-ok (choose_fd mem access) _ e in
    let ((offset, end), bounded, placed) = >>=-eq-ok (bounds mem.size range) _ rest in
    (
      prot,
      fd,
      v.mapping_pointer,
      choose_fd-Grants mem access prot fd chosen,
      place-mapped page_size access prot fd mmap offset end placed,
      refl,
    )

-- The end of a range is never read: each mapping that succeeds covers what its user sees, but shows
-- its user the whole memory for a range without a start, and one single byte for a range with a start;
-- so that what it shows for a range from a first byte to an end is the part that the range names only
-- if that is one byte. It is mapped for the access asked for, and its drop unmaps what was mapped. The
-- page size is positive, and the memory and one page more fit the address space.
pub mapped_part :
    (page_size : ℕ) (mmap : Mmap) (mem : SharedMem) (range : Range) (a b : ℕ) (access : Access)
    {v v' : SharedMemMap} {W : Type 0} (munmap : ℕ → ℕ → W → W) (w : W)
    → 0 < page_size
    → mem.size + page_size ≤ usize_mod
    → map page_size mmap mem range access ≡ ok v
    → b ≢ a + 1
    → map page_size mmap mem (between a b) access ≡ ok v'
    → Covers page_size mem.size v
      × (some (v.user_offset, v.user_len) ≡ extent range mem.size)
      × (some (v'.user_offset, v'.user_len) ≢ span (between a b) mem.size)
      × ((prot : Prot) × (fd : ℕ) × (pointer : ℕ) × (Grants mem access prot fd)
          × (mmap v.mapping_len prot fd v.mapping_offset ≡ some pointer)
          × (drop munmap v w ≡ munmap pointer v.mapping_len w))
unfolding span
mapped_part page_size mmap mem range a b access munmap w pos small e wide e' = (
  map-Covers page_size mmap mem range access pos small e,
  map-extent page_size mmap mem range access (omega arith) e,
  ground (arith, map-extent page_size mmap mem (between a b) access (omega arith) e'),
  map-mapped page_size mmap mem range access munmap w e,
)
