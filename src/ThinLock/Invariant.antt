-- ===== src/ThinLock/Invariant.antt =====
-- The counter and the semaphore of src/windows/sync.rs agree with the agents that use the lock.
use sandbox_ipc.Prelude.{ℕ, ◌+◌, ◌≤◌, ◌<◌, ◌≡◌, ◌≢◌, refl, arith, ◌==◌, if◌then◌else◌}
use sandbox_ipc.Prelude.Word.{usize_mod}
use sandbox_ipc.Prelude.Agents.{update, tally, tally-update, tally-le, tally-constant, tally-one}
use sandbox_ipc.ThinLock.{
  Semaphore, Pc, idle, waiting, holding, releasing, failed, abandoned, Shared, Move, lock, wake,
  wait_fails, unlock, release, release_fails, after_add, after_sub, System, Reach, start, later,
}

-- An agent that the counter counts.
abbrev pub counted : Pc → ℕ
counted waiting = 1
counted holding = 1
counted abandoned = 1
counted _ = 0

-- An agent that has the lock, or passes it on.
abbrev pub owning : Pc → ℕ
owning holding = 1
owning releasing = 1
owning _ = 0

module _ {S : Type 0} (sem : Semaphore S) where
  pub record Inv (n : ℕ) (m : Shared sem) (pc : ℕ → Pc) : Type 0 where
    pub few : n < usize_mod
    pub users : m.atomic ≡ tally counted n pc
    pub tokens : tally owning n pc + sem.count m.semaphore ≡ (if m.atomic == 0 then 0 else 1)
    pub top : sem.maximum m.semaphore ≡ 1
    pub sound : (a : ℕ) → pc a ≢ failed

  module _ {n : ℕ} {m : Shared sem} {pc : ℕ → Pc} (inv : Inv n m pc) (a : ℕ) where
    open inv use {few, users, tokens, top, sound}

    -- Agent `a` goes from `p` to `p'`.
    record Mover (p p' : Pc) : Type 0 where
      here : pc a ≡ p
      users' : counted p + tally counted n (update pc a p') ≡ counted p' + tally counted n pc
      owners' : owning p + tally owning n (update pc a p') ≡ owning p' + tally owning n pc
      one_user : counted p ≤ tally counted n pc
      one_owner : owning p ≤ tally owning n pc
      after : tally counted n (update pc a p') ≤ n

    mover : a < n → (p' : Pc) → Mover (pc a) p'
    mover lt p' = record {
      here = refl;
      users' = tally-update counted n a pc p' lt;
      owners' = tally-update owning n a pc p' lt;
      one_user = tally-one counted n a pc lt;
      one_owner = tally-one owning n a pc lt;
      after = tally-le counted (λ p. ground arith) n (update pc a p');
    }

    kept : {p p' : Pc} {m' : Shared sem} → Move sem m p m' p' → Mover p p' → record {
      users : m'.atomic ≡ tally counted n (update pc a p');
      tokens :
          tally owning n (update pc a p') + sem.count m'.semaphore
          ≡ (if m'.atomic == 0 then 0 else 1);
      top : sem.maximum m'.semaphore ≡ 1;
      sound : p' ≢ failed;
    }
    unfolding after_add after_sub
    kept lock f = ground arith
    kept (wake {s} e) f = ground (arith, sem.wait-some m.semaphore s e)
    kept wait_fails f = ground arith
    kept unlock f = ground arith
    kept (release {s} e) f = ground (arith, sem.release-some m.semaphore s e)
    kept (release_fails e) f = absurd (ground (arith, sem.release-none m.semaphore e))

    Move-Inv :
        {p' : Pc} {m' : Shared sem} → a < n → Move sem m (pc a) m' p' → Inv n m' (update pc a p')
    Move-Inv {p'} lt mv =
        let k = kept mv (mover lt p') in
        record {
          few = few;
          users = k.users;
          tokens = k.tokens;
          top = k.top;
          sound = λ b e. ground (arith, sound b, k.sound);
        }

  pub Reach-Inv : {n : ℕ} {s : System sem} → n < usize_mod → Reach sem n s → Inv n s.mem s.pc
  Reach-Inv {n} few start = record {
    few = few;
    users = omega (arith, tally-constant counted n idle refl);
    tokens = omega (arith, tally-constant owning n idle refl, sem.count-create 0 1);
    top = sem.maximum-create 0 1;
    sound = λ a e. cc;
  }
  Reach-Inv few (later a r lt mv) = Move-Inv (Reach-Inv few r) a lt mv
