-- ===== src/Channel/Fds/Runs.antt =====
-- Encodings of several file descriptors, one after the other, of src/unix/mod.rs.
use sandbox_ipc.Prelude.{ℕ, zero, suc, ◌≡◌, List, [], ◌∷◌, arith, inl, inr}
use sandbox_ipc.Prelude.Io.{ok, Result-cases}
use sandbox_ipc.Prelude.State.{St, ◌>>=◌, pure}
use sandbox_ipc.Channel.Fds.{Libc, Locals, serialize_fd}

-- The items of a message that are file descriptors, encoded one after the other: their indices.
unfoldable pub serialize_all : {W : Type 0} → Libc W → List ℕ → St (Locals W) (List ℕ)
serialize_all libc [] = pure []
serialize_all libc (fd ∷ fds) = do
  index ← serialize_fd libc fd
  rest ← serialize_all libc fds
  pure (index ∷ rest)

abbrev pub from : (first count : ℕ) → List ℕ
from first zero = []
from first (suc count) = first ∷ from (suc first) count

module _ {W : Type 0} (libc : Libc W) where
  pub serialize_all_cons :
      (fd : ℕ) (fds : List ℕ) (l : Locals W) (indices : List ℕ)
      → (serialize_all libc (fd ∷ fds) l).0 ≡ ok indices
      → (index : ℕ) × (rest : List ℕ) × (indices ≡ index ∷ rest)
        × ((serialize_fd libc fd l).0 ≡ ok index)
        × ((serialize_all libc fds (serialize_fd libc fd l).1).0 ≡ ok rest)
        × ((serialize_all libc (fd ∷ fds) l).1
            ≡ (serialize_all libc fds (serialize_fd libc fd l).1).1)
  unfolding serialize_all
  serialize_all_cons fd fds l indices done = elim (Result-cases (serialize_fd libc fd l).0) [
    | inl (index, e) ↦ elim (Result-cases (serialize_all libc fds (serialize_fd libc fd l).1).0) [
      | inl (rest, e') ↦ (index, rest, ground (arith, e, e'), e, e', ground (arith, e, e'))
      | inr (inl (kind, e')) ↦ absurd (ground (arith, done, e, e'))
      | inr (inr e') ↦ absurd (ground (arith, done, e, e'))
    ]
    | inr (inl (kind, e)) ↦ absurd (ground (arith, done, e))
    | inr (inr e) ↦ absurd (ground (arith, done, e))
  ]
