-- ===== src/Prelude/Word.antt =====
-- `usize` and `isize` of a 64-bit target: a word is a number below `usize_mod`, and each operation
-- writes its wrap-around out.
use Prim.Native.Nat.{ℕ, ◌+◌, ◌-◌, ◌%◌, ◌^◌}
use mathlib.Core.Bool.{Bool}
use mathlib.Core.Option.{Option, none, some}
use sandbox_ipc.Prelude.Tests.{ltb, leb, if◌then◌else◌}
use sandbox_ipc.Prelude.Int.{ℤ, pos, negsuc, ltb_ℤ}

abbrev pub usize_mod : ℕ
usize_mod = 2 ^ 64

-- usize::MAX
abbrev pub usize_max : ℕ
usize_max = 2 ^ 64 - 1

-- isize::MAX
abbrev pub isize_max : ℕ
isize_max = 2 ^ 63 - 1

abbrev pub wrapping_add : ℕ → ℕ → ℕ
wrapping_add a b = (a + b) % usize_mod

abbrev pub wrapping_sub : ℕ → ℕ → ℕ
wrapping_sub a b = (a + usize_mod - b) % usize_mod

abbrev pub checked_add : ℕ → ℕ → Option ℕ
checked_add a b = if ltb (a + b) usize_mod then some (a + b) else none

abbrev pub checked_sub : ℕ → ℕ → Option ℕ
checked_sub a b = if leb b a then some (a - b) else none

-- `a as isize`
abbrev pub as_isize : ℕ → ℤ
as_isize a = if ltb a (2 ^ 63) then pos a else negsuc (2 ^ 64 - a - 1)

abbrev pub isize_lt : ℕ → ℕ → Bool
isize_lt a b = ltb_ℤ (as_isize a) (as_isize b)
