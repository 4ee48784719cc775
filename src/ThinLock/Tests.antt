-- ===== src/ThinLock/Tests.antt =====
-- The lock of src/windows/sync.rs over a semaphore that counts, run by hand, and the theorems at the
-- states that it reaches.
use sandbox_ipc.Prelude.{
  ℕ, zero, suc, ◌+◌, ◌≡◌, ◌≢◌, ◌⊎◌, refl, arith, Option, none, some, ltb, if◌then◌else◌,
}
use sandbox_ipc.ThinLock.{
  Semaphore, holding, releasing, after_add, System, Reach, start, later, Move,
}
use sandbox_ipc.ThinLock.Safety.{mutual_exclusion, no_lost_wakeup}

abbrev wait : ℕ × ℕ → Option (ℕ × ℕ)
wait (zero, m) = none
wait (suc k, m) = some (k, m)

abbrev release : ℕ × ℕ → Option (ℕ × ℕ)
release (k, m) = if ltb k m then some (suc k, m) else none

wait-some_lem : (s t : ℕ × ℕ) → wait s ≡ some t → (s.0 ≡ t.0 + 1) × (t.1 ≡ s.1)
wait-some_lem (zero, m) t e = ground arith
wait-some_lem (suc k, m) t e = ground arith

wait-none_lem : (s : ℕ × ℕ) → wait s ≡ none → s.0 ≡ 0
wait-none_lem (zero, m) e = refl
wait-none_lem (suc k, m) e = ground arith

-- The count and the maximum.
abbrev counter : Semaphore (ℕ × ℕ)
counter = record {
  create = λ i m. (i, m);
  count = λ s. s.0;
  maximum = λ s. s.1;
  wait = wait;
  release = release;
  count-create = λ i m. refl;
  maximum-create = λ i m. refl;
  wait-some = wait-some_lem;
  wait-none = wait-none_lem;
  release-some = λ s t e. ground arith;
  release-none = λ s e. ground arith;
}

-- Agent 0 holds the lock and agent 1 waits for it.
abbrev contended : (s : System counter) × Reach counter 2 s
unfolding after_add
contended = (_, later 1 (later 0 start (omega arith) Move.lock) (omega arith) Move.lock)

mutual_exclusion_example : contended.0.pc 1 ≢ holding
unfolding after_add
mutual_exclusion_example =
    mutual_exclusion counter {n = 2} {s = contended.0} (omega arith) contended.1 0 1 (omega arith)
      (omega arith) (omega arith) refl

no_lost_wakeup_example :
    ((t : ℕ × ℕ) × (wait contended.0.mem.semaphore ≡ some t))
    ⊎ ((b : ℕ) × ((contended.0.pc b ≡ holding) ⊎ (contended.0.pc b ≡ releasing)))
unfolding after_add
no_lost_wakeup_example =
    no_lost_wakeup counter {n = 2} {s = contended.0} (omega arith) contended.1 1 (omega arith) refl
