-- ===== src/ThinLock/Safety.antt =====
-- What the lock of src/windows/sync.rs promises, in every state that its agents reach.
use sandbox_ipc.Prelude.{ℕ, ◌<◌, ◌≡◌, ◌≢◌, ◌⊎◌, inl, inr, some, arith, Option-cases}
use sandbox_ipc.Prelude.Word.{usize_mod}
use sandbox_ipc.Prelude.Agents.{tally, tally-two, tally-one, tally-pos}
use sandbox_ipc.ThinLock.{Semaphore, waiting, holding, releasing, failed, System, Reach}
use sandbox_ipc.ThinLock.Invariant.{counted, owning, Inv, Reach-Inv}

module _ {S : Type 0} (sem : Semaphore S) where
  -- Mutual exclusion: two different agents never own a guard at once, if the agents are fewer than
  -- the counter can count.
  pub mutual_exclusion :
      {n : ℕ} {s : System sem}
      → n < usize_mod
      → Reach sem n s
      → (a b : ℕ) → a < n
      → b < n
      → b ≢ a
      → s.pc a ≡ holding
      → s.pc b ≢ holding
  mutual_exclusion {n} {s} few r a b in_a in_b differ held held' =
      let inv = Reach-Inv sem few r in
      ground (arith, inv.tokens, tally-two owning n a b s.pc in_a in_b differ)

  -- No agent panics in the drop of its guard: `ReleaseSemaphore` never meets the maximum, and the
  -- counter is never found in an invalid state, if the agents are fewer than the counter can count.
  pub never_fails :
      {n : ℕ} {s : System sem} → n < usize_mod → Reach sem n s → (a : ℕ) → s.pc a ≢ failed
  never_fails few r a = (Reach-Inv sem few r).sound a

  -- No lost wake-up: while an agent waits, the semaphore lets a waiting agent through, or another
  -- agent owns the guard or is about to release the semaphore, if the agents are fewer than the
  -- counter can count.
  pub no_lost_wakeup :
      {n : ℕ} {s : System sem}
      → n < usize_mod
      → Reach sem n s
      → (a : ℕ) → a < n
      → s.pc a ≡ waiting
      → ((t : S) × (sem.wait s.mem.semaphore ≡ some t))
        ⊎ ((b : ℕ) × ((s.pc b ≡ holding) ⊎ (s.pc b ≡ releasing)))
  no_lost_wakeup {n} {s} few r a lt at = elim (Option-cases (sem.wait s.mem.semaphore)) [
    | inl empty ↦ inr (
        owner (
          ground (
            arith,
            inv.users,
            inv.tokens,
            tally-one counted n a s.pc lt,
            sem.wait-none s.mem.semaphore empty,
          )))
    | inr (t, e) ↦ inl (t, e)
  ]
    where
      inv : Inv sem n s.mem s.pc
      inv = Reach-Inv sem few r

      owner : 0 < tally owning n s.pc → (b : ℕ) × ((s.pc b ≡ holding) ⊎ (s.pc b ≡ releasing))
      owner h = let (b, below, w) = tally-pos owning n s.pc h in (b, ground (arith, w))
