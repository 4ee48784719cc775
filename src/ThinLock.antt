-- ===== src/ThinLock.antt =====
-- The mutex of src/windows/sync.rs: a counter in shared memory and a semaphore of the system, by
-- any number of agents, each of which takes the lock and drops its guard.
pub mod Invariant
pub mod Safety
pub mod Attach
mod Tests
use sandbox_ipc.Prelude.{ℕ, zero, suc, ◌+◌, ◌<◌, ◌≡◌, Option, none, some, ◌==◌, if◌then◌else◌, List}
use sandbox_ipc.Prelude.Word.{wrapping_add, wrapping_sub}
use sandbox_ipc.Prelude.Agents.{update}

-- A semaphore as `CreateSemaphoreW` documents it: with a count that a wait takes one from, when it
-- can, and to which a release adds one, if that does not exceed the maximum.
pub record Semaphore (S : Type 0) : Type 0 where
  pub create : (initial maximum : ℕ) → S
  pub count : S → ℕ
  pub maximum : S → ℕ
  pub wait : S → Option S
  pub release : S → Option S
  pub count-create : (i m : ℕ) → count (create i m) ≡ i
  pub maximum-create : (i m : ℕ) → maximum (create i m) ≡ m
  pub wait-some : (s t : S) → wait s ≡ some t → (count s ≡ count t + 1) × (maximum t ≡ maximum s)
  pub wait-none : (s : S) → wait s ≡ none → count s ≡ 0
  pub release-some :
      (s t : S) → release s ≡ some t → (count t ≡ count s + 1) × (maximum t ≡ maximum s)
  pub release-none : (s : S) → release s ≡ none → maximum s < count s + 1

-- Where an agent stands.
pub data Pc : Type 0 where
  idle : Pc
  waiting : Pc  -- in `WaitForSingleObject`
  holding : Pc  -- owns a `MutexGuard`
  releasing : Pc  -- before `ReleaseSemaphore`, in the drop of the guard
  failed : Pc  -- panicked, on the state of the memory or of the semaphore
  abandoned : Pc  -- panicked in `lock`, on a failure of the wait, and is still counted

module _ {S : Type 0} (sem : Semaphore S) where
  pub record Shared : Type 0 where
    pub atomic : ℕ
    pub semaphore : S

  -- `lock`: `fetch_add` and the match on what it returns.
  unfoldable pub after_add : ℕ → Pc
  after_add old = if old == 0 then holding else waiting

  -- The drop of the guard: `fetch_sub` and the match on what it returns.
  unfoldable pub after_sub : ℕ → Pc
  after_sub old = if old == 0 then failed else (if old == 1 then idle else releasing)

  -- One atomic access, or one call of the system, by one agent.
  pub data Move (m : Shared) : Pc → Shared → Pc → Type 0 where
    lock : Move m idle (record m { atomic = wrapping_add m.atomic 1 }) (after_add m.atomic)
    wake :
        {s : S}
        → sem.wait m.semaphore ≡ some s
        → Move m waiting (record m { semaphore = s }) holding
    wait_fails : Move m waiting m abandoned
    unlock : Move m holding (record m { atomic = wrapping_sub m.atomic 1 }) (after_sub m.atomic)
    release :
        {s : S}
        → sem.release m.semaphore ≡ some s
        → Move m releasing (record m { semaphore = s }) idle
    release_fails : sem.release m.semaphore ≡ none → Move m releasing m failed

  pub record System : Type 0 where
    pub mem : Shared
    pub pc : ℕ → Pc

  -- `new_with_memory`
  abbrev pub init : System
  init = record { mem = record { atomic = 0; semaphore = sem.create 0 1 }; pc = λ _. idle }

  pub data Reach (n : ℕ) : System → Type 0 where
    start : Reach n init
    later :
        {s : System} (a : ℕ) {m : Shared} {p : Pc}
        → Reach n s
        → a < n
        → Move s.mem (s.pc a) m p
        → Reach n (record { mem = m; pc = update s.pc a p })
