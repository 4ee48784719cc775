-- ===== src/Prelude/Bits.antt =====
-- `&` with a mask of ones, and with the complement of one: rounding down to a power of two.
use Prim.Native.Nat.{
  ℕ, zero, suc, ◌+◌, ◌-◌, ◌*◌, ◌/◌, ◌%◌, ◌^◌, ◌≤◌, ◌<◌, min, bit_and, digits, bit_and-bitwise,
}
use mathlib.Core.Path.{◌≡◌, refl, sym, ◌∙◌}
use native.Mathlib.Nat.{pow-suc, one-le-pow}
use native.Mathlib.Omega.{arith}

-- The digits of `a & b`, for at most `n` digits of `a`. Digits past those of `a` are not looked at.
abbrev and_within : ℕ → ℕ → ℕ → ℕ
and_within n a b = digits (λ d. zero) min n a b

and_within_enough : (n a b : ℕ) → a ≤ n → and_within n a b ≡ bit_and a b
and_within_enough n a b h = go n a a b h (omega arith) ∙ sym (bit_and-bitwise a b)
  where
    go : (n m a b : ℕ) → a ≤ n → a ≤ m → and_within n a b ≡ and_within m a b
    go zero zero zero b p q = refl
    go zero (suc m) zero b p q = refl
    go (suc n) zero zero b p q = refl
    go (suc n) (suc m) zero b p q = refl
    go zero m (suc a) b p q = absurd (omega arith)
    go (suc n) zero (suc a) b p q = absurd (omega arith)
    go (suc n) (suc m) (suc a) b p q =
        omega (arith, go n m (suc a / 2) (b / 2) (omega arith) (omega arith))

-- One binary digit at a time.
pub bit_and_halves : (a b : ℕ) → bit_and a b ≡ 2 * bit_and (a / 2) (b / 2) + min (a % 2) (b % 2)
bit_and_halves zero b =
    omega
      (arith, and_within_enough 0 0 b (omega arith), and_within_enough 0 0 (b / 2) (omega arith))
bit_and_halves (suc a) b = omega (
  arith,
  and_within_enough (suc a) (suc a) b (omega arith),
  and_within_enough a (suc a / 2) (b / 2) (omega arith),
)

-- A mask of `k` ones keeps what fits `k` digits.
pub bit_and_ones : (k a : ℕ) → a < 2 ^ k → bit_and a (2 ^ k - 1) ≡ a
bit_and_ones zero zero h = refl
bit_and_ones zero (suc a) h = absurd (omega arith)
bit_and_ones (suc k) a h =
    ground
      (arith, bit_and_halves a (2 ^ suc k - 1), pow-suc 2 k, one-le-pow k 2, bit_and_ones k (a / 2))

-- `x & !7` and `x & !63` on 64-bit words.
pub bit_and_not_seven : (x : ℕ) → x < 2 ^ 64 → bit_and x (2 ^ 64 - 1 - 7) ≡ 8 * (x / 8)
bit_and_not_seven x h = omega (
  arith,
  bit_and_halves x (2 ^ 64 - 8),
  bit_and_halves (x / 2) (2 ^ 63 - 4),
  bit_and_halves (x / 2 / 2) (2 ^ 62 - 2),
  bit_and_ones 61 (x / 2 / 2 / 2) (omega arith),
)

pub bit_and_not_63 : (x : ℕ) → x < 2 ^ 64 → bit_and x (2 ^ 64 - 1 - 63) ≡ 64 * (x / 64)
bit_and_not_63 x h = omega (
  arith,
  bit_and_halves x (2 ^ 64 - 64),
  bit_and_halves (x / 2) (2 ^ 63 - 32),
  bit_and_halves (x / 2 / 2) (2 ^ 62 - 16),
  bit_and_halves (x / 2 / 2 / 2) (2 ^ 61 - 8),
  bit_and_halves (x / 2 / 2 / 2 / 2) (2 ^ 60 - 4),
  bit_and_halves (x / 2 / 2 / 2 / 2 / 2) (2 ^ 59 - 2),
  bit_and_ones 58 (x / 2 / 2 / 2 / 2 / 2 / 2) (omega arith),
)
