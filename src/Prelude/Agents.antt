-- ===== src/Prelude/Agents.antt =====
-- Families `ℕ → A` with a member for each of the agents that run concurrently: replacing one
-- member, and adding up a weight over the first `n`.
use Prim.Native.Nat.{ℕ, zero, suc, ◌+◌, ◌≤◌, ◌<◌}
use mathlib.Core.Path.{◌≡◌, refl}
use mathlib.Core.Logic.{◌≢◌, inl, inr}
use native.Mathlib.Decide.{dec_lt}
use native.Mathlib.Omega.{arith}
use sandbox_ipc.Prelude.Tests.{◌==◌, if◌then◌else◌, Bool-cases}

abbrev pub update {ℓ} : {A : Type ℓ} → (ℕ → A) → ℕ → A → ℕ → A
update f i a j = if j == i then a else f j

module _ {ℓ} {A : Type ℓ} (weight : A → ℕ) where
  pub tally : ℕ → (ℕ → A) → ℕ
  tally zero f = 0
  tally (suc n) f = weight (f n) + tally n f

  tally-update_beyond : (n i : ℕ) (f : ℕ → A) (a : A) → n ≤ i → tally n (update f i a) ≡ tally n f
  unfolding tally
  tally-update_beyond zero i f a h = refl
  tally-update_beyond (suc n) i f a h = ground (arith, tally-update_beyond n i f a)

  -- Replacing a member trades its weight for the new one.
  pub tally-update :
      (n i : ℕ) (f : ℕ → A) (a : A)
      → i < n
      → weight (f i) + tally n (update f i a) ≡ weight a + tally n f
  unfolding tally
  tally-update zero i f a h = elim h [ ]
  tally-update (suc n) i f a h = elim (Bool-cases (n == i)) [
    | inl last ↦ ground (arith, tally-update_beyond n i f a)
    | inr below ↦ ground (arith, tally-update n i f a)
  ]

  pub tally-le : ((a : A) → weight a ≤ 1) → (n : ℕ) (f : ℕ → A) → tally n f ≤ n
  unfolding tally
  tally-le unit zero f = omega arith
  tally-le unit (suc n) f = omega (arith, unit (f n), tally-le unit n f)

  pub tally-constant : (n : ℕ) (a : A) → weight a ≡ 0 → tally n (λ _. a) ≡ 0
  unfolding tally
  tally-constant zero a h = refl
  tally-constant (suc n) a h = omega (arith, h, tally-constant n a h)

  pub tally-one : (n i : ℕ) (f : ℕ → A) → i < n → weight (f i) ≤ tally n f
  unfolding tally
  tally-one zero i f h = elim h [ ]
  tally-one (suc n) i f h = elim (Bool-cases (n == i)) [
    | inl last ↦ ground arith
    | inr below ↦ ground (arith, tally-one n i f)
  ]

  -- Two agents count separately.
  pub tally-two :
      (n i j : ℕ) (f : ℕ → A) → i < n → j < n → j ≢ i → weight (f i) + weight (f j) ≤ tally n f
  unfolding tally
  tally-two zero i j f hi hj ne = elim hi [ ]
  tally-two (suc n) i j f hi hj ne = elim (Bool-cases (n == i)) [
    | inl last ↦ ground (arith, tally-one n j f)
    | inr below ↦ elim (Bool-cases (n == j)) [
      | inl last ↦ ground (arith, tally-one n i f)
      | inr below' ↦ ground (arith, tally-two n i j f)
    ]
  ]

  -- A positive total comes from some agent.
  pub tally-pos : (n : ℕ) (f : ℕ → A) → 0 < tally n f → (i : ℕ) × (i < n) × (0 < weight (f i))
  unfolding tally
  tally-pos zero f h = absurd (omega arith)
  tally-pos (suc n) f h = elim (dec_lt 0 (weight (f n))) [
    | yes here ↦ (n, omega arith, here)
    | no empty ↦ let (i, lt, w) = tally-pos n f (omega arith) in (i, omega arith, w)
  ]
