-- ===== src/Shm/Range.antt =====
-- `RangeArgument` and `Access` of src/shm/mod.rs.
use sandbox_ipc.Prelude.{ℕ, ◌-◌, Option, none, some, leb, if◌then◌else◌}

pub data Access : Type 0 where
  read read_write : Access

pub data Bound : Type 0 where
  included : ℕ → Bound
  excluded : ℕ → Bound
  unbounded : Bound

-- `RangeFull`, `RangeFrom`, `RangeTo` and `Range`, the types that implement `RangeArgument`.
pub data Range : Type 0 where
  full : Range
  from : (start : ℕ) → Range
  to : (end : ℕ) → Range
  between : (start end : ℕ) → Range

unfoldable pub start : Range → Bound
start full = unbounded
start (from a) = included a
start (to b) = unbounded
start (between a b) = included a

unfoldable pub end : Range → Bound
end full = unbounded
end (from a) = unbounded
end (to b) = excluded b
end (between a b) = excluded b

-- What a range means, whoever reads it: the offset and the length of the part of `size` bytes that
-- it names, if it lies inside.
unfoldable pub span : Range → ℕ → Option (ℕ × ℕ)
span full size = some (0, size)
span (from a) size = if leb a size then some (a, size - a) else none
span (to b) size = if leb b size then some (0, b) else none
span (between a b) size = if leb a b then (if leb b size then some (a, b - a) else none) else none
