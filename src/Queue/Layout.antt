-- ===== src/Queue/Layout.antt =====
-- Where a queue of src/shm/queue.rs lies in its mapping: the slots, whole cache lines apart, and the
-- control block behind them. Sizes and addresses are words, and wrap around as in
-- a release build.
pub mod Bounds
pub mod Handles
mod Tests
use Prim.Native.Nat.{bit_and}
use sandbox_ipc.Prelude.{ℕ, ◌+◌, ◌-◌, ◌*◌, ◌%◌, ◌&&◌, List, ltb, leb, ◌==◌, if◌then◌else◌, not}
use sandbox_ipc.Prelude.Word.{usize_mod, usize_max, isize_max, wrapping_add, wrapping_sub}
use sandbox_ipc.Prelude.Io.{Result, ok, ErrorKind, ◌>>=◌, ◌>>◌, ensure, assert}
use sandbox_ipc.Shm.Map
use sandbox_ipc.Shm.Map.{Platform, SharedMemMap}
use sandbox_ipc.Queue.Agent.{Shared}
use sandbox_ipc.Queue.Steps.{new_control}

abbrev pub wrapping_mul : ℕ → ℕ → ℕ
wrapping_mul a b = a * b % usize_mod

abbrev pub cache_line : ℕ
cache_line = 64

abbrev pub usize_size : ℕ
usize_size = 8

-- The size of `SharedMemQueueCtrl`: four counters, each padded to a cache line, and a flag, padded
-- to the alignment of a counter.
abbrev pub control_size : ℕ
control_size = 4 * cache_line + usize_size

-- `align` of src/lib.rs; `!(y - 1)` is `usize::MAX - (y - 1)`.
unfoldable pub align : ℕ → ℕ → ℕ
align x y = if ltb 0 x && ltb 0 y then bit_and (wrapping_add x (y - 1)) (usize_max - (y - 1)) else 0

abbrev pub item_offset_of : ℕ → ℕ
item_offset_of item_size = align item_size cache_line

unfoldable pub required_size : ℕ → ℕ → Result ℕ
required_size item_size item_count = do
  assert (ltb 0 item_count)
  assert (ltb 0 item_size)
  assert (ltb item_count isize_max)
  ok (wrapping_add (wrapping_mul (item_offset_of item_size) item_count) control_size)

pub record Queue (M V : Type 0) : Type 0 where
  pub mem : SharedMemMap M V
  pub raw_offset : ℕ
  pub control : ℕ
  pub items_base : ℕ
  pub item_size : ℕ
  pub item_offset : ℕ
  pub item_count : ℕ

pub record Handle : Type 0 where
  pub raw_offset : ℕ
  pub item_size : ℕ
  pub item_count : ℕ
  pub shm_token : ℕ

module _ {M V : Type 0} (platform : Platform M V) where
  -- The queue, and its control block as written; the bytes of the slots are left as they are.
  unfoldable pub new_with_memory :
      (item_size item_count : ℕ)
      → SharedMemMap M V
      → (offset : ℕ) → (slots : ℕ → List ℕ) → Result (Queue M V × Shared)
  new_with_memory item_size item_count memory offset slots = do
    required ← required_size item_size item_count
    ensure (leb (wrapping_add offset required) (Map.len platform memory)) ErrorKind.invalid_input
    ensure (wrapping_add (Map.pointer platform memory) offset % usize_size == 0)
        ErrorKind.invalid_input
    let items_base = wrapping_add (Map.pointer platform memory) offset
    ok (
      record {
        mem = memory;
        raw_offset = wrapping_add (Map.offset platform memory) offset;
        control = wrapping_add items_base (wrapping_mul item_count (item_offset_of item_size));
        items_base = items_base;
        item_size = item_size;
        item_offset = item_offset_of item_size;
        item_count = item_count;
      },
      new_control slots,
    )

  unfoldable pub from_handle : Handle → SharedMemMap M V → Result (Queue M V)
  from_handle h memory = do
    ensure (h.shm_token == Map.token memory) ErrorKind.invalid_input
    ensure (leb h.raw_offset (Map.offset platform memory)) ErrorKind.invalid_input
    required ← required_size h.item_size h.item_count
    ensure
        (leb (wrapping_add h.raw_offset required)
          (wrapping_add (Map.offset platform memory) (Map.len platform memory)))
        ErrorKind.invalid_input
    let local_offset = wrapping_sub h.raw_offset (Map.offset platform memory)
    let items_base = wrapping_add (Map.pointer platform memory) local_offset
    ok (record {
      mem = memory;
      raw_offset = h.raw_offset;
      control = wrapping_add items_base (wrapping_mul h.item_count (item_offset_of h.item_size));
      items_base = items_base;
      item_size = h.item_size;
      item_offset = item_offset_of h.item_size;
      item_count = h.item_count;
    })

module _ {M V : Type 0} where
  unfoldable pub handle : Queue M V → Handle
  handle q = record {
    raw_offset = q.raw_offset;
    item_size = q.item_size;
    item_count = q.item_count;
    shm_token = Map.token q.mem;
  }

  -- The address of the slot of index `i`, as the guards compute it.
  unfoldable pub slot_address : Queue M V → ℕ → ℕ
  slot_address q i = wrapping_add q.items_base (wrapping_mul (i % q.item_count) q.item_offset)
