-- ===== src/Source/Transfer.antt =====
-- `SendableDataSource` of src/io.rs in a message: its derived serialization, over what a platform does
-- for a file and for shared memory. A file is its file descriptor or handle; a byte is a number.
pub mod Arrival
pub mod Handles
mod Tests
use sandbox_ipc.Prelude.{ℕ, zero, suc, ◌≡◌, refl, List, [], ◌∷◌, ◌++◌, length, arith}
use sandbox_ipc.Prelude.Io.{ok, err, ErrorKind}
use sandbox_ipc.Prelude.State.{St, ◌>>=◌, pure, lift}
use sandbox_ipc.Channel.Tokens.{Token, number, tokens_of, next_number, next_array, next_array_lem}
use sandbox_ipc.Shm.Map.{SharedMem}
use sandbox_ipc.Source.{SendableDataSource, file, memory, inline}

-- The serialization of `SendableFile`, by which `sendable_data_source_file` goes, and of `SharedMem`, over
-- the states `L` of the sender and `R` of the receiver.
pub record Wire (L R M : Type 0) : Type 0 where
  pub put_file : ℕ → St L (List Token)
  pub get_file : List Token → St R (ℕ × List Token)
  pub put_memory : SharedMem M → St L (List Token)
  pub get_memory : List Token → St R (SharedMem M × List Token)

module _ {L R M : Type 0} (wire : Wire L R M) where
  -- The number of the variant, and its content.
  unfoldable pub serialize : SendableDataSource ℕ M → St L (List Token)
  serialize (file f) = do tokens ← wire.put_file f; pure (number 0 ∷ tokens)
  serialize (memory mem) = do tokens ← wire.put_memory mem; pure (number 1 ∷ tokens)
  serialize (inline bytes) = pure (number 2 ∷ number (length bytes) ∷ tokens_of bytes)

  -- The content of the variant with the number.
  unfoldable pub deserialize_variant : ℕ → List Token → St R (SendableDataSource ℕ M × List Token)
  deserialize_variant zero tokens = do (f, rest) ← wire.get_file tokens; pure (file f, rest)
  deserialize_variant (suc zero) tokens = do
    (mem, rest) ← wire.get_memory tokens
    pure (memory mem, rest)
  deserialize_variant (suc (suc zero)) tokens = do
    (len, tokens₁) ← lift (next_number tokens)
    (bytes, rest) ← lift (next_array len tokens₁)
    pure (inline bytes, rest)
  deserialize_variant other tokens = lift (err ErrorKind.custom)

  unfoldable pub deserialize : List Token → St R (SendableDataSource ℕ M × List Token)
  unfolding deserialize_variant
  deserialize tokens = do
    (variant, tokens₁) ← lift (next_number tokens)
    deserialize_variant variant tokens₁

  -- A source is encoded by its variant, and read back as what its content is read back as.
  pub inline_arrives :
      (bytes : List ℕ) (rest : List Token) (l : L) (r : R)
      → (serialize (inline bytes) l ≡ (ok (number 2 ∷ number (length bytes) ∷ tokens_of bytes), l))
        × (deserialize (number 2 ∷ number (length bytes) ∷ tokens_of bytes ++ rest) r
            ≡ (ok (inline bytes, rest), r))
  unfolding serialize deserialize next_number
  inline_arrives bytes rest l r = (refl, rw (next_array_lem bytes rest (length bytes) refl) refl)

  pub serialize-file :
      (f : ℕ) (tokens : List Token) (l : L)
      → (wire.put_file f l).0 ≡ ok tokens
      → serialize (file f) l ≡ (ok (number 0 ∷ tokens), (wire.put_file f l).1)
  unfolding serialize
  serialize-file f tokens l e = ground (arith, e)

  pub serialize-memory :
      (mem : SharedMem M) (tokens : List Token) (l : L)
      → (wire.put_memory mem l).0 ≡ ok tokens
      → serialize (memory mem) l ≡ (ok (number 1 ∷ tokens), (wire.put_memory mem l).1)
  unfolding serialize
  serialize-memory mem tokens l e = ground (arith, e)

  pub deserialize-file :
      (f : ℕ) (tokens rest : List Token) (r : R)
      → (wire.get_file tokens r).0 ≡ ok (f, rest)
      → deserialize (number 0 ∷ tokens) r ≡ (ok (file f, rest), (wire.get_file tokens r).1)
  unfolding deserialize next_number
  deserialize-file f tokens rest r e = ground (arith, e)

  pub deserialize-memory :
      (mem : SharedMem M) (tokens rest : List Token) (r : R)
      → (wire.get_memory tokens r).0 ≡ ok (mem, rest)
      → deserialize (number 1 ∷ tokens) r ≡ (ok (memory mem, rest), (wire.get_memory tokens r).1)
  unfolding deserialize next_number
  deserialize-memory mem tokens rest r e = ground (arith, e)
