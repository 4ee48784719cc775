-- ===== src/Queue/Layout/Handles.antt =====
-- Handing a queue of src/shm/queue.rs to another process: `handle`, its derived serialization, and
-- `from_handle`.
use sandbox_ipc.Prelude.{
  zero, suc, ◌∙◌, ◌==◌, if◌then◌else◌, ℕ, ◌+◌, ◌≤◌, ◌<◌, ◌≡◌, ◌≢◌, List, [], ◌∷◌, ◌++◌, refl, arith,
  ==_iff,
}
use sandbox_ipc.Prelude.Word.{usize_mod, wrapping_add, wrapping_sub}
use sandbox_ipc.Prelude.Io.{Result, ◌>>=◌, ok, err, ErrorKind}
use sandbox_ipc.Shm.Map
use sandbox_ipc.Shm.Map.{Platform, SharedMemMap}
use sandbox_ipc.Queue.Agent.{Shared}
use sandbox_ipc.Channel.Tokens.{Token, number, next_number}
use sandbox_ipc.Queue.Layout.{
  wrapping_mul, item_offset_of, required_size, Queue, Handle, handle, new_with_memory, from_handle,
}

unfoldable pub serialize : Handle → List Token
serialize h =
    number h.raw_offset ∷ number h.item_size ∷ number h.item_count ∷ number h.shm_token ∷ []

unfoldable pub deserialize : List Token → Result (Handle × List Token)
deserialize tokens = do
  (raw_offset, tokens₁) ← next_number tokens
  (item_size, tokens₂) ← next_number tokens₁
  (item_count, tokens₃) ← next_number tokens₂
  (shm_token, tokens₄) ← next_number tokens₃
  ok (
    record {
      raw_offset = raw_offset;
      item_size = item_size;
      item_count = item_count;
      shm_token = shm_token;
    },
    tokens₄,
  )

deserialize-serialize :
    (h : Handle) (rest : List Token) → deserialize (serialize h ++ rest) ≡ ok (h, rest)
unfolding serialize deserialize next_number
deserialize-serialize h rest = refl

-- The queue `q` from the address `start` on, in another mapping: its control block is as far from its
-- slots.
abbrev pub moved : {M V M' V' : Type 0} → Queue M V → SharedMemMap M' V' → ℕ → Queue M' V'
moved q memory start = record {
  mem = memory;
  raw_offset = q.raw_offset;
  control = wrapping_add start (wrapping_sub q.control q.items_base);
  items_base = start;
  item_size = q.item_size;
  item_offset = q.item_offset;
  item_count = q.item_count;
}

distance : (x y : ℕ) → x < usize_mod → y < usize_mod → wrapping_sub (wrapping_add x y) x ≡ y
distance x y small small' = omega arith

module _ {M V M' V' : Type 0} (platform : Platform M V) (platform' : Platform M' V') where
  at_start :
      (item_size item_count : ℕ) (memory : SharedMemMap M V) (memory' : SharedMemMap M' V')
      (slots : ℕ → List ℕ) {q : Queue M V} {m : Shared}
      → Map.pointer platform' memory' < usize_mod
      → Map.token memory' ≡ Map.token memory
      → Map.offset platform' memory' ≡ Map.offset platform memory
      → Map.len platform' memory' ≡ Map.len platform memory
      → Map.offset platform memory + Map.len platform memory < usize_mod
      → new_with_memory platform item_size item_count memory 0 slots ≡ ok (q, m)
      → from_handle platform' (handle q) memory'
        ≡ ok (moved q memory' (Map.pointer platform' memory'))
  unfolding new_with_memory from_handle handle required_size
  at_start item_size item_count memory memory' slots low token offset len space e = ground (
    arith,
    ==_iff (Map.token memory) (Map.token memory'),
    token,
    offset,
    len,
    distance (wrapping_add (Map.pointer platform memory) 0)
        (wrapping_mul item_count (item_offset_of item_size)) (omega arith) (omega arith),
  )

  inside_refused :
      (item_size item_count : ℕ) (memory : SharedMemMap M V) (memory' : SharedMemMap M' V')
      (offset : ℕ) (slots : ℕ → List ℕ) {q : Queue M V} {m : Shared}
      → 0 < offset
      → Map.token memory' ≡ Map.token memory
      → Map.offset platform' memory' ≡ Map.offset platform memory
      → Map.offset platform memory + offset < usize_mod
      → new_with_memory platform item_size item_count memory offset slots ≡ ok (q, m)
      → from_handle platform' (handle q) memory' ≡ err ErrorKind.invalid_input
  unfolding new_with_memory from_handle handle required_size
  inside_refused item_size item_count memory memory' offset slots past token same sum e =
      ground (arith, ==_iff (Map.token memory) (Map.token memory'), token, same)

  -- A queue at the start of its mapping is shared: its handle, sent to another process, is decoded there
  -- with what follows left over, and over that process's mapping of the same part of the memory gives
  -- the queue with the same sizes, its slots at the start of the mapping and its control block as far
  -- behind them. A queue further inside is refused there, because the check compares the two offsets
  -- the wrong way round. The mappings and their part of the memory do not wrap around, nor do the
  -- offsets of the mapping and of the queue together.
  pub queue_shared :
      (item_size item_count : ℕ) (memory : SharedMemMap M V) (memory' : SharedMemMap M' V')
      (offset : ℕ) (slots : ℕ → List ℕ) {q : Queue M V} {m : Shared} (rest : List Token)
      → Map.pointer platform' memory' < usize_mod
      → Map.token memory' ≡ Map.token memory
      → Map.offset platform' memory' ≡ Map.offset platform memory
      → Map.len platform' memory' ≡ Map.len platform memory
      → Map.offset platform memory + Map.len platform memory < usize_mod
      → Map.offset platform memory + offset < usize_mod
      → new_with_memory platform item_size item_count memory offset slots ≡ ok (q, m)
      → (h : Handle) × (deserialize (serialize (handle q) ++ rest) ≡ ok (h, rest))
        × (from_handle platform' h memory' ≡ (
            if offset == 0
            then ok (moved q memory' (Map.pointer platform' memory'))
            else err ErrorKind.invalid_input))
  queue_shared item_size item_count memory memory' zero slots {q} rest low token same len space sum
        e =
      (
        handle q,
        deserialize-serialize (handle q) rest,
        at_start item_size item_count memory memory' slots low token same len space e,
      )
  queue_shared item_size item_count memory memory' (suc offset) slots {q} rest low token same len
        space sum e =
      (
        handle q,
        deserialize-serialize (handle q) rest,
        inside_refused item_size item_count memory memory' (suc offset) slots (omega arith) token
              same sum e
            ∙ ground arith,
      )

module _ {M V : Type 0} (platform : Platform M V) where
  -- A handle that `from_handle` accepts with another offset than the mapping's gives a queue whose
  -- slots begin below the mapping, for a mapping whose address is at least its offset.
  pub from_handle-below :
      (h : Handle) (memory : SharedMemMap M V) {q : Queue M V}
      → Map.offset platform memory ≤ Map.pointer platform memory
      → Map.pointer platform memory < usize_mod
      → h.raw_offset ≢ Map.offset platform memory
      → from_handle platform h memory ≡ ok q
      → q.items_base < Map.pointer platform memory
  unfolding from_handle required_size
  from_handle-below h memory high word other e = ground arith
