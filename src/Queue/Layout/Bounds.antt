-- ===== src/Queue/Layout/Bounds.antt =====
-- The slots and the control block of a new queue of src/shm/queue.rs lie inside its mapping and
-- apart from one another.
use sandbox_ipc.Prelude.{
  ℕ, ◌+◌, ◌-◌, ◌*◌, ◌/◌, ◌%◌, ◌≤◌, ◌<◌, ◌≡◌, ◌≢◌, ◌⊎◌, inl, inr, List, arith, ap, dec_lt,
}
use native.Mathlib.Nat.{mod-lt, mul_comm}
use sandbox_ipc.Prelude.Bits.{bit_and_not_63}
use sandbox_ipc.Prelude.Word.{usize_mod}
use sandbox_ipc.Prelude.Io.{ok}
use sandbox_ipc.Shm.Map
use sandbox_ipc.Shm.Map.{Platform, SharedMemMap}
use sandbox_ipc.Queue.Agent.{Shared}
use sandbox_ipc.Queue.Layout.{
  align, cache_line, control_size, item_offset_of, required_size, Queue, new_with_memory,
  slot_address, usize_size,
}

-- `align` rounds up to a multiple of the cache line: it gives the least one that holds `x` bytes.
pub align_lem :
    (x : ℕ)
    → 0 < x
    → x + cache_line < usize_mod
    → (align x cache_line ≡ cache_line * ((x + cache_line - 1) / cache_line))
      × (x ≤ align x cache_line)
      × (align x cache_line < x + cache_line)
unfolding align
align_lem x pos small = ground (arith, bit_and_not_63 (x + 63))

mul_below : (k c o : ℕ) → k < c → k * o + o ≤ c * o
mul_below k c o h = grind arith

mul_lt_mul : (j k o : ℕ) → j < k → j * o + o ≤ k * o
mul_lt_mul j k o h = grind arith

-- What the memory of a queue of `size` bytes at `base` promises.
pub record InBounds {M V : Type 0} (base size : ℕ) (q : Queue M V) : Type 0 where
  pub first : base ≤ q.items_base
  pub last : q.control + control_size ≤ base + size
  pub aligned : (q.items_base % usize_size ≡ 0) × (q.control % usize_size ≡ 0)
  pub slot_low : (i : ℕ) → q.items_base ≤ slot_address q i
  pub slot_high : (i : ℕ) → slot_address q i + q.item_size ≤ q.control
  pub whole_lines : (i : ℕ) → (slot_address q i + cache_line - q.items_base) % cache_line ≡ 0
  pub apart :
      (i j : ℕ)
      → i % q.item_count ≢ j % q.item_count
      → (slot_address q i + q.item_size ≤ slot_address q j)
        ⊎ (slot_address q j + q.item_size ≤ slot_address q i)

module _ {M V : Type 0} (platform : Platform M V) where
  new_fields :
      (item_size item_count : ℕ) (memory : SharedMemMap M V) (offset : ℕ) (slots : ℕ → List ℕ)
      {q : Queue M V} {m : Shared}
      → item_offset_of item_size * item_count + control_size + offset < usize_mod
      → Map.pointer platform memory + Map.len platform memory ≤ usize_mod
      → new_with_memory platform item_size item_count memory offset slots ≡ ok (q, m)
      → (0 < item_size)
        × (0 < item_count)
        × (q.item_size ≡ item_size)
        × (q.item_count ≡ item_count)
        × (q.item_offset ≡ item_offset_of item_size)
        × (q.items_base ≡ Map.pointer platform memory + offset)
        × (q.control ≡ Map.pointer platform memory + offset + item_offset_of item_size * item_count)
        × (offset + (item_offset_of item_size * item_count + control_size)
            ≤ Map.len platform memory)
        × ((Map.pointer platform memory + offset) % usize_size ≡ 0)
  unfolding new_with_memory required_size
  new_fields item_size item_count memory offset slots fits space e =
      ground (arith, mul_comm item_count (item_offset_of item_size))

-- The facts about a queue from which its bounds follow.
record IsLaidOut {M V : Type 0} (q : Queue M V) : Type 0 where
  some_size : 0 < q.item_size
  some_items : 0 < q.item_count
  lines : q.item_offset ≡ cache_line * (q.item_offset / cache_line)
  holds : q.item_size ≤ q.item_offset
  ends : q.control ≡ q.items_base + q.item_count * q.item_offset
  space : q.control < usize_mod

slot_address_lem :
    {M V : Type 0} (q : Queue M V)
    → IsLaidOut q
    → (i : ℕ)
    → (slot_address q i ≡ q.items_base + i % q.item_count * q.item_offset)
      × (slot_address q i + q.item_offset ≤ q.control)
unfolding slot_address
slot_address_lem q l i =
    ground (arith, mul_below (i % q.item_count) q.item_count q.item_offset, mod-lt i l.some_items)

slots_apart :
    {M V : Type 0} (q : Queue M V)
    → IsLaidOut q
    → (i j : ℕ) → i % q.item_count < j % q.item_count
    → slot_address q i + q.item_size ≤ slot_address q j
slots_apart q l i j lt = omega (
  arith,
  slot_address_lem q l i,
  slot_address_lem q l j,
  mul_lt_mul (i % q.item_count) (j % q.item_count) q.item_offset lt,
  l.holds,
)

slot_lines :
    {M V : Type 0} (q : Queue M V)
    → IsLaidOut q
    → (i : ℕ) → (slot_address q i + cache_line - q.items_base) % cache_line ≡ 0
slot_lines q l i =
    omega (arith, slot_address_lem q l i, ap (λ (t : ℕ). i % q.item_count * t) l.lines)

module _ {M V : Type 0} (platform : Platform M V) where
  -- A new queue lies in its memory: slots and control block inside the mapping, the first slot and the
  -- control block word-aligned, each slot a whole number of cache lines behind the first, and the slots
  -- of different numbers apart, if the sizes do not wrap around and the mapping ends inside the address
  -- space. The first slot need not begin a cache line.
  pub new_with_memory-InBounds :
      (item_size item_count : ℕ) (memory : SharedMemMap M V) (offset : ℕ) (slots : ℕ → List ℕ)
      {q : Queue M V} {m : Shared}
      → item_size + cache_line < usize_mod
      → item_offset_of item_size * item_count + control_size + offset < usize_mod
      → Map.pointer platform memory + Map.len platform memory ≤ usize_mod
      → new_with_memory platform item_size item_count memory offset slots ≡ ok (q, m)
      → InBounds (Map.pointer platform memory) (Map.len platform memory) q
  new_with_memory-InBounds item_size item_count memory offset slots {q} small fits space e =
      let fields = new_fields platform item_size item_count memory offset slots fits space e in
      let rounded = align_lem item_size fields.0 small in
      let laid : IsLaidOut q = record {
        some_size = omega (arith, fields);
        some_items = omega (arith, fields);
        lines = ground (arith, fields, rounded);
        holds = ground (arith, fields, rounded);
        ends = ground (arith, fields, mul_comm item_count (item_offset_of item_size));
        space = ground (arith, fields);
      } in
      record {
        first = omega (arith, fields);
        last = omega (arith, fields);
        aligned = (
          omega (arith, fields),
          omega (arith, fields, ap (λ (t : ℕ). t * item_count) rounded.0),
        );
        slot_low = λ i. omega (arith, slot_address_lem q laid i);
        slot_high = λ i. omega (arith, slot_address_lem q laid i, laid.holds);
        whole_lines = slot_lines q laid;
        apart = λ i j ne. elim (dec_lt (i % q.item_count) (j % q.item_count)) [
          | yes lt ↦ inl (slots_apart q laid i j lt)
          | no nlt ↦ inr (slots_apart q laid j i (omega arith))
        ];
      }
