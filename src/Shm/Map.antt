-- ===== src/Shm/Map.antt =====
-- `SharedMem` and `SharedMemMap` of src/shm/mod.rs, over either platform.
use sandbox_ipc.Prelude.{ℕ}
use sandbox_ipc.Prelude.Io.{Result, ok, ◌>>=◌}
use sandbox_ipc.Shm.Range.{Access, Range}
use sandbox_ipc.Shm.Unix
use sandbox_ipc.Shm.Windows

-- The methods that a platform's `SharedMem` (`M`) and `SharedMemMap` (`V`) offer.
pub record Platform (M V : Type 0) : Type 0 where
  pub size : M → ℕ
  pub map : M → Range → Access → Result V
  pub pointer : V → ℕ
  pub len : V → ℕ
  pub access : V → Access
  pub offset : V → ℕ

abbrev pub unix : ℕ → Unix.Mmap → Platform Unix.SharedMem Unix.SharedMemMap
unix page_size mmap = record {
  size = λ m. m.size;
  map = Unix.map page_size mmap;
  pointer = λ v. v.user_pointer;
  len = λ v. v.user_len;
  access = λ v. v.access;
  offset = λ v. v.user_offset;
}

abbrev pub windows : ℕ → Windows.MapViewOfFile → Platform Windows.SharedMem Windows.SharedMemMap
windows page_size view = record {
  size = λ m. m.size;
  map = Windows.map page_size view;
  pointer = λ v. v.user_pointer;
  len = λ v. v.user_len;
  access = λ v. v.access;
  offset = λ v. v.user_offset;
}

-- A token is a `Uuid`, as a number.
pub record SharedMem (M : Type 0) : Type 0 where
  pub inner : M
  pub token : ℕ

pub record SharedMemMap (M V : Type 0) : Type 0 where
  pub object : SharedMem M
  pub inner : V

module _ {M V : Type 0} (platform : Platform M V) where
  unfoldable pub map : SharedMem M → Range → Access → Result (SharedMemMap M V)
  map mem range access = do
    inner ← platform.map mem.inner range access
    ok (record { object = mem; inner = inner })

  abbrev pub pointer : SharedMemMap M V → ℕ
  pointer v = platform.pointer v.inner

  abbrev pub len : SharedMemMap M V → ℕ
  len v = platform.len v.inner

  abbrev pub access : SharedMemMap M V → Access
  access v = platform.access v.inner

  abbrev pub offset : SharedMemMap M V → ℕ
  offset v = platform.offset v.inner

abbrev pub token : {M V : Type 0} → SharedMemMap M V → ℕ
token v = v.object.token
