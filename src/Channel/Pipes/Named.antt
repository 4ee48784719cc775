-- ===== src/Channel/Pipes/Named.antt =====
-- `NamedMessageChannel` of src/windows/channel.rs: a pipe that another process connects to by name.
use sandbox_ipc.Prelude.{ℕ, Bool, true, false, Option}
use sandbox_ipc.Prelude.Io.{ErrorKind}
use sandbox_ipc.Prelude.State.{St, ◌>>=◌, ◌>>◌, pure, lift_ensure}
use sandbox_ipc.Channel.Owned.{Files}
use sandbox_ipc.Prelude.State.{scoped}
use sandbox_ipc.Channel.Handles.{ProcessHandle, remote_process}
use sandbox_ipc.Channel.Pipes.{
  Calls, MessageChannel, drop_handle, bool_call, handle_call, id_call, begin_connection, millis,
  channel_over,
}

module _ {W : Type 0} (calls : Calls W) where
  -- `NamedMessageChannel::new`; a named channel is its server pipe.
  unfoldable pub new : St (Files W) ℕ
  new = do
    server ← handle_call calls calls.create_named_pipe
    scoped (drop_handle calls server) (begin_connection calls server)
    pure server

  -- The process at the other end of a pipe, by the number that a call gives.
  unfoldable pub open_remote : (ℕ → W → Option ℕ × W) → (pipe : ℕ) → St (Files W) ProcessHandle
  open_remote get_process_id pipe = do
    id ← id_call calls (get_process_id pipe)
    handle ← handle_call calls (calls.open_process id)
    pure (record { handle = handle; id = id })

  -- `NamedMessageChannel::accept`
  unfoldable pub accept : (server : ℕ) → (timeout : Option (ℕ × ℕ)) → St (Files W) MessageChannel
  accept server timeout = do
    process ← scoped (drop_handle calls server) (do
      bool_call calls (calls.get_overlapped_result server (millis timeout))
      open_remote calls.get_client_process_id server)
    channel_over calls server true (remote_process process)

  -- `NamedMessageChannel::connect`; a name with a zero in it is refused.
  unfoldable pub connect :
      (valid_name : Bool) → (timeout : Option (ℕ × ℕ)) → St (Files W) MessageChannel
  connect valid_name timeout = do
    lift_ensure valid_name ErrorKind.invalid_input
    bool_call calls (calls.wait_named_pipe (millis timeout))
    client ← handle_call calls calls.create_file
    process ← scoped (drop_handle calls client) (open_remote calls.get_server_process_id client)
    channel_over calls client false (remote_process process)
