-- ===== src/Shm/Windows/View.antt =====
-- The view of src/windows/sharedmem.rs: the part of the memory that a range names.
use sandbox_ipc.Prelude.{
  refl, Option-cases, inl, inr, ◌^◌, ◌-◌, ℕ, ◌+◌, ◌*◌, ◌%◌, ◌<◌, ◌≡◌, none, some, arith,
}
use native.Mathlib.Nat.{mod-le, mod-lt, div-add-mod}
use sandbox_ipc.Prelude.Io.{ok, err, ErrorKind, >>=-eq-ok}
use sandbox_ipc.Shm.Range.{
  Access, read, read_write, Range, full, from, to, between, start, end, span,
}
use sandbox_ipc.Shm.Unix.Cover.{round_down}
use sandbox_ipc.Shm.Windows.{
  SharedMem, SharedMemMap, RawAccess, file_map_read, file_map_write, MapViewOfFile, bounds, place,
  map, page_start, high_bits, raw_access, drop,
}

-- The bounds that the source computes are those of the part that the range names, and a range that
-- names no part of the memory is refused with `InvalidInput`.
pub bounds-eq-span :
    (size : ℕ) (range : Range)
    → bounds size range
      ≡ (elim (span range size) [ some part ↦ ok part | none ↦ err ErrorKind.invalid_input ])
unfolding bounds span start end
bounds-eq-span size full = ground arith
bounds-eq-span size (from a) = ground arith
bounds-eq-span size (to b) = ground arith
bounds-eq-span size (between a b) = ground arith

-- What a view promises its user: a start at a page, from which the view reaches over the part that
-- the user sees, exactly to its end, and a pointer to the first byte of that part.
pub record Shows (page_size : ℕ) (range : Range) (size : ℕ) (v : SharedMemMap) : Type 0 where
  pub named : span range size ≡ some (v.user_offset, v.user_len)
  pub page_offset : page_start page_size v.user_offset % page_size ≡ 0
  pub reach : page_start page_size v.user_offset + v.mapping_len ≡ v.user_offset + v.user_len
  pub points :
      v.user_pointer + page_start page_size v.user_offset ≡ v.mapping_pointer + v.user_offset

place-fields :
    (page_size : ℕ) (view : MapViewOfFile) (mem : SharedMem) (access : Access) (offset len : ℕ)
    {v : SharedMemMap}
    → 0 < page_size
    → place page_size view mem access (offset, len) ≡ ok v
    → (v.user_offset ≡ offset)
      × (v.user_len ≡ len)
      × (page_start page_size offset % page_size ≡ 0)
      × (page_start page_size offset + v.mapping_len ≡ offset + len)
      × (v.user_pointer + page_start page_size offset ≡ v.mapping_pointer + offset)
unfolding place
place-fields page_size view mem access offset len pos e =
    ground (arith, round_down page_size offset pos, mod-le offset page_size)

bounds-span :
    (size : ℕ) (range : Range) (part : ℕ × ℕ)
    → bounds size range ≡ ok part
    → span range size ≡ some part
bounds-span size range part e = ground (arith, bounds-eq-span size range)

place-viewed :
    (page_size : ℕ) (view : MapViewOfFile) (mem : SharedMem) (access : Access) (offset len : ℕ)
    {v : SharedMemMap}
    → place page_size view mem access (offset, len) ≡ ok v
    → let from_page = page_start page_size offset in
      view mem.handle (raw_access access) (high_bits from_page) (from_page % 2 ^ 32) v.mapping_len
      ≡ some v.mapping_pointer
unfolding place
place-viewed page_size view mem access offset len e =
    let from_page = page_start page_size offset in
    elim (Option-cases (
      view mem.handle (raw_access access) (high_bits from_page) (from_page % 2 ^ 32)
        (len + offset - from_page))) [
          | inl w ↦ absurd (ground (arith, w, e))
          | inr (p, w) ↦ ground (arith, w, e)
        ]

-- What `MapViewOfFile` is asked for, for an access.
pub data Asks : Access → RawAccess → Type 0 where
  reading : Asks read file_map_read
  writing : Asks read_write file_map_write

raw_access-Asks : (access : Access) → Asks access (raw_access access)
unfolding raw_access
raw_access-Asks read = reading
raw_access-Asks read_write = writing

-- Each view that succeeds shows exactly the part of the memory that the range names: it is a view from
-- a page on, whose offset is given to the system in two words, for the access asked for, and the drop
-- unmaps what was mapped. The page size is positive.
pub map-Shows :
    (page_size : ℕ) (view : MapViewOfFile) (mem : SharedMem) (range : Range) (access : Access)
    {v : SharedMemMap} {W : Type 0} (unmap_view : ℕ → W → W) (w : W)
    → 0 < page_size
    → map page_size view mem range access ≡ ok v
    → let from_page = page_start page_size v.user_offset in
      Shows page_size range mem.size v
      × ((pointer high low : ℕ) × (raw : RawAccess) × Asks access raw
          × (high * 2 ^ 32 + low ≡ from_page)
          × (low < 2 ^ 32)
          × (view mem.handle raw high low v.mapping_len ≡ some pointer)
          × (drop unmap_view v w ≡ unmap_view pointer w))
unfolding map drop
map-Shows page_size view mem range access {v} unmap_view w pos e =
    let ((offset, len), bounded, placed) = >>=-eq-ok (bounds mem.size range) _ e in
    let fields = place-fields page_size view mem access offset len pos placed in
    let upper = high_bits (page_start page_size v.user_offset) in
    let lower = page_start page_size v.user_offset % 2 ^ 32 in
    (
      ground (arith, fields, bounds-span mem.size range (offset, len) bounded),
      (
        v.mapping_pointer,
        upper,
        lower,
        raw_access access,
        raw_access-Asks access,
        omega (arith, div-add-mod (page_start page_size v.user_offset) (2 ^ 32)),
        mod-lt (page_start page_size v.user_offset) (omega arith),
        rw fields.0 (place-viewed page_size view mem access offset len placed),
        refl,
      ),
    )
