-- ===== src/Shm/Windows/Owners.antt =====
-- The handles that `SharedMem::new` and `clone` of src/windows/sharedmem.rs leave open, and what the system
-- is asked for.
use sandbox_ipc.Prelude.{
  ℕ, ◌+◌, ◌*◌, ◌%◌, ◌^◌, ◌<◌, ◌≡◌, [], ◌∷◌, Option, arith, Option-cases, inl, inr,
}
use sandbox_ipc.Prelude.Word.{usize_mod}
use sandbox_ipc.Channel.Owned.{Files}
use sandbox_ipc.Channel.Owned.Turns.{Turns, Turns-pure, Turns-bind, count, owned}
use sandbox_ipc.Shm.Range.{Access}
use sandbox_ipc.Shm.Windows.{SharedMem, high_bits}
use sandbox_ipc.Shm.Windows.Created.{Calls, handle_call, new, clone}

-- The two halves of the size are words of 32 bits that make up the size.
halves :
    (size : ℕ)
    → size < usize_mod
    → (high_bits size * 2 ^ 32 + size % 2 ^ 32 ≡ size) × (high_bits size < 2 ^ 32)
halves size h = omega arith

module _ {W : Type 0} where
  world-new :
      (calls : Calls W) (make : ℕ → W → Option ℕ × W) (size : ℕ) (s : Files W)
      → size < usize_mod
      → ((high low : ℕ)
          → high < 2 ^ 32
          → low < 2 ^ 32
          → calls.create_file_mapping high low s.world ≡ make (high * 2 ^ 32 + low) s.world)
      → (new calls size s).1.world ≡ (make size s.world).1
  unfolding new
  world-new calls make size s small system =
      let (whole, high) = halves size small in
      let asked = system (high_bits size) (size % 2 ^ 32) high (omega arith) in
      elim (Option-cases (calls.create_file_mapping (high_bits size) (size % 2 ^ 32) s.world).0) [
        | inl e ↦ ground (arith, e, asked, whole)
        | inr (a, e) ↦ ground (arith, e, asked, whole)
      ]

  handle_call-Turns : (f : W → Option ℕ × W) → Turns [] (handle_call f) (λ h. h ∷ [])
  handle_call-Turns f = record {
    turns = λ s base h y. elim (Option-cases (f s.world).0) [
      | inl e ↦ ground (arith, h y)
      | inr (a, e) ↦ ground (arith, h y)
    ];
  }

  new-Turns : (calls : Calls W) (size : ℕ) → Turns [] (new calls size) (λ m. m.handle ∷ [])
  unfolding new
  new-Turns calls size =
      Turns-bind (λ h. h ∷ []) (handle_call-Turns (calls.create_file_mapping _ _))
        (λ h. Turns-pure (record { handle = h; size = size }) (λ m. m.handle ∷ []))

  clone-Turns :
      (calls : Calls W) (mem : SharedMem) (access : Access)
      → Turns [] (clone calls mem access) (λ m. m.handle ∷ [])
  unfolding clone
  clone-Turns calls mem access =
      Turns-bind (λ h. h ∷ []) (handle_call-Turns (calls.duplicate_handle mem.handle _))
        (λ h. Turns-pure (record { handle = h; size = mem.size }) (λ m. m.handle ∷ []))

  -- A section is made whole and without leaks: `new` asks the system for as many bytes as the memory
  -- has, in two words of 32 bits, and however `new` and `clone` end, each handle is open as often as
  -- before, and once more for the handle of the result, if there is one; for a size of 64 bits, where
  -- `make` is what the system does for a size.
  pub sections_kept :
      (calls : Calls W) (make : ℕ → W → Option ℕ × W) (mem : SharedMem) (access : Access) (size : ℕ)
      (s : Files W) (y : ℕ)
      → size < usize_mod
      → ((high low : ℕ)
          → high < 2 ^ 32
          → low < 2 ^ 32
          → calls.create_file_mapping high low s.world ≡ make (high * 2 ^ 32 + low) s.world)
      → let (r, s') = new calls size s in
        let (r', s'') = clone calls mem access s in
        (s'.world ≡ (make size s.world).1)
        × (count y s'.opened ≡ count y (owned (λ m. m.handle ∷ []) r) + count y s.opened)
        × (count y s''.opened ≡ count y (owned (λ m. m.handle ∷ []) r') + count y s.opened)
  unfolding new clone
  sections_kept calls make mem access size s y small system = (
    world-new calls make size s small system,
    (new-Turns calls size).turns s (λ x. count x s.opened) (λ x. omega arith) y,
    (clone-Turns calls mem access).turns s (λ x. count x s.opened) (λ x. omega arith) y,
  )
