-- ===== src/Shm/Unix/Cover.antt =====
-- The mapping of src/unix/sharedmem.rs: whole pages that cover what the user sees.
use sandbox_ipc.Prelude.{
  ℕ, ◌+◌, ◌-◌, ◌*◌, ◌/◌, ◌%◌, ◌≤◌, ◌<◌, ◌≡◌, arith, ◌∙◌, ap, ◌==◌, Bool-cases, inl, inr, suc,
}
use native.Mathlib.Nat.{div-add-mod, mul-mod_right, mod-lt, mod-le}
use sandbox_ipc.Prelude.Word.{usize_mod}
use sandbox_ipc.Prelude.Io.{ok, >>=-eq-ok}
use sandbox_ipc.Shm.Range.{Access, Range}
use sandbox_ipc.Shm.Unix.{
  SharedMem, SharedMemMap, Mmap, Prot, choose_fd, bounds, end_shift, place, map,
}

-- Rounding down and up to pages.
pub round_down : (p x : ℕ) → 0 < p → (x - x % p) % p ≡ 0
round_down p x h = ap (λ t. t % p) exact ∙ mul-mod_right p (x / p)
  where
    exact : x - x % p ≡ p * (x / p)
    exact = omega (arith, div-add-mod x p)

pub round_up : (p x : ℕ) → 0 < p → ((x + end_shift p x) % p ≡ 0) × (end_shift p x < p)
unfolding end_shift
round_up p x h = elim (Bool-cases (x % p == 0)) [
  | inl even ↦ rw even (ground arith, h)
  | inr odd ↦ rw odd (ap (λ t. t % p) next ∙ mul-mod_right p (suc (x / p)), ground arith)
]
  where
    next : x + (p - x % p) ≡ p * suc (x / p)
    next = omega (arith, div-add-mod x p, mod-lt x h)

-- What a mapping promises its user: whole pages, which hold the part that the user sees, with less
-- than a page on either side, and a pointer to the first byte of that part.
pub record Covers (page_size size : ℕ) (v : SharedMemMap) : Type 0 where
  pub page_offset : v.mapping_offset % page_size ≡ 0
  pub page_end : (v.mapping_offset + v.mapping_len) % page_size ≡ 0
  pub before : v.mapping_offset ≤ v.user_offset
  pub close_before : v.user_offset < v.mapping_offset + page_size
  pub after : v.user_offset + v.user_len ≤ v.mapping_offset + v.mapping_len
  pub close_after : v.mapping_offset + v.mapping_len < v.user_offset + v.user_len + page_size
  pub inside : v.user_offset + v.user_len ≤ size
  pub points : v.user_pointer + v.mapping_offset ≡ v.mapping_pointer + v.user_offset

place-Covers :
    (page_size size : ℕ) (access : Access) (prot : Prot) (fd : ℕ) (mmap : Mmap) (offset end : ℕ)
    {v : SharedMemMap}
    → 0 < page_size
    → size + page_size ≤ usize_mod
    → offset ≤ end
    → end ≤ size
    → place page_size access prot fd mmap (offset, end) ≡ ok v
    → Covers page_size size v
unfolding place
place-Covers page_size size access prot fd mmap offset end pos small ordered inside e = ground (
  arith,
  round_down page_size offset pos,
  round_up page_size end pos,
  mod-le offset page_size,
  mod-lt offset pos,
)

bounds_ordered :
    (size : ℕ) (range : Range) (offset end : ℕ)
    → bounds size range ≡ ok (offset, end)
    → (offset ≤ end) × (end ≤ size)
unfolding bounds
bounds_ordered size range offset end e = ground arith

-- Whatever the range.
pub map-Covers :
    (page_size : ℕ) (mmap : Mmap) (mem : SharedMem) (range : Range) (access : Access)
    {v : SharedMemMap}
    → 0 < page_size
    → mem.size + page_size ≤ usize_mod
    → map page_size mmap mem range access ≡ ok v
    → Covers page_size mem.size v
unfolding map
map-Covers page_size mmap mem range access pos small e =
    let ((prot, fd), chosen, rest) = >>=-eq-ok (choose_fd mem access) _ e in
    let ((offset, end), bounded, placed) = >>=-eq-ok (bounds mem.size range) _ rest in
    let (ordered, inside) = bounds_ordered mem.size range offset end bounded in
    place-Covers page_size mem.size access prot fd mmap offset end pos small ordered inside placed
