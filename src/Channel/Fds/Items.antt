-- ===== src/Channel/Fds/Items.antt =====
-- File descriptors as parts of a message of src/unix/mod.rs and src/unix/fd.rs: their data, beside
-- the control message that holds them.
use sandbox_ipc.Prelude.{ℕ, List, [], ◌∷◌, Option, none, some}
use sandbox_ipc.Prelude.Io.{err, ErrorKind}
use sandbox_ipc.Prelude.State.{St, ◌>>=◌, pure, lift}
use sandbox_ipc.Channel.Tokens.{Token, number, is_some, is_none, next_number}
use sandbox_ipc.Channel.Fds.{Libc, Locals, serialize_fd, deserialize_fd}

module _ {W : Type 0} (libc : Libc W) where
  -- `SendableFd::serialize`
  unfoldable pub put_fd : ℕ → St (Locals W) (List Token)
  put_fd fd = do index ← serialize_fd libc fd; pure (number index ∷ [])

  -- `SendableFd::deserialize`: without a receiver nothing is read.
  unfoldable pub get_fd : List Token → St (Locals W) (ℕ × List Token)
  get_fd tokens l = elim l.receiver [
    | none ↦ (err ErrorKind.custom, l)
    | some receiver ↦
        (do
          (index, rest) ← lift (next_number tokens)
          fd ← deserialize_fd libc index
          pure (fd, rest))
          l
  ]

  -- `SendableFile`, `SendableSocket` and `ScopedFd` send their file descriptor, and take the one received.
  abbrev pub put_file : ℕ → St (Locals W) (List Token)
  put_file file = put_fd file

  abbrev pub get_file : List Token → St (Locals W) (ℕ × List Token)
  get_file tokens = get_fd tokens

  abbrev pub put_socket : ℕ → St (Locals W) (List Token)
  put_socket socket = put_fd socket

  abbrev pub get_socket : List Token → St (Locals W) (ℕ × List Token)
  get_socket tokens = get_fd tokens

  abbrev pub put_scoped : ℕ → St (Locals W) (List Token)
  put_scoped fd = put_fd fd

  abbrev pub get_scoped : List Token → St (Locals W) (ℕ × List Token)
  get_scoped tokens = get_fd tokens

  -- An `Option<ScopedFd>`.
  unfoldable pub put_option : Option ℕ → St (Locals W) (List Token)
  put_option none = pure (is_none ∷ [])
  put_option (some fd) = do tokens ← put_scoped fd; pure (is_some ∷ tokens)

  unfoldable pub get_option : List Token → St (Locals W) (Option ℕ × List Token)
  get_option (is_none ∷ tokens) = pure (none, tokens)
  get_option (is_some ∷ tokens) = do (fd, rest) ← get_scoped tokens; pure (some fd, rest)
  get_option tokens = lift (err ErrorKind.custom)
