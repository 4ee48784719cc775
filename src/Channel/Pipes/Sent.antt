-- ===== src/Channel/Pipes/Sent.antt =====
-- `PreMessageChannel` and `ProcessHandle` of src/windows/channel.rs in a message: the derived
-- serialization, field by field.
use sandbox_ipc.Prelude.{ℕ, Bool, List, [], ◌∷◌, ◌++◌}
use sandbox_ipc.Prelude.State.{St, ◌>>=◌, pure, lift, scoped}
use sandbox_ipc.Channel.Tokens.{Token, number, boolean, next_number, next_boolean}
use sandbox_ipc.Channel.Handles.{Winapi, Locals, ProcessHandle}
use sandbox_ipc.Channel.Handles.Arrival.{encode_handle, deserialize_handle}
use sandbox_ipc.Shm.Windows.Transfer.{drop_handle}
use sandbox_ipc.Channel.Pipes.{PreMessageChannel}

module _ {W : Type 0} (api : Winapi W) where
  unfoldable pub put_pre : PreMessageChannel → St (Locals W) (List Token)
  put_pre pre = do pipe ← encode_handle api pre.pipe; pure (pipe ++ (boolean pre.server ∷ []))

  unfoldable pub put_process : ProcessHandle → St (Locals W) (List Token)
  put_process process = do
    handle ← encode_handle api process.handle
    pure (handle ++ (number process.id ∷ []))

  -- An error closes the handle that has been read.
  unfoldable pub get_pre : (ℕ → Bool) → List Token → St (Locals W) (PreMessageChannel × List Token)
  get_pre is_handle tokens = do
    (pipe, tokens₁) ← deserialize_handle is_handle tokens
    scoped (drop_handle api pipe) (do
      (server, tokens₂) ← lift (next_boolean tokens₁)
      pure (record { pipe = pipe; server = server }, tokens₂))

  unfoldable pub get_process : (ℕ → Bool) → List Token → St (Locals W) (ProcessHandle × List Token)
  get_process is_handle tokens = do
    (handle, tokens₁) ← deserialize_handle is_handle tokens
    scoped (drop_handle api handle) (do
      (id, tokens₂) ← lift (next_number tokens₁)
      pure (record { handle = handle; id = id }, tokens₂))
