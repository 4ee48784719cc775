-- ===== src/Channel/Pipes/Establish.antt =====
-- Process handles and channels to child processes, of src/windows/channel.rs.
use sandbox_ipc.Prelude.{ℕ, true, false, not, Option, none, some, ◌==◌}
use sandbox_ipc.Prelude.Io.{ok, ErrorKind}
use sandbox_ipc.Prelude.State.{St, ◌>>=◌, ◌>>◌, pure, lift_ensure, lift_ok_or}
use sandbox_ipc.Channel.Owned.{Files, remove, call, hold}
use sandbox_ipc.Prelude.State.{scoped}
use sandbox_ipc.Channel.Handles.{ProcessHandle, HandleTarget, remote_process, nobody}
use sandbox_ipc.Channel.Pipes.{
  Calls, MessageChannel, ChildMessageChannel, drop_handle, handle_call, raw_pipe_pair, channel_over,
}

abbrev pub target_of : Option ℕ → (id : ℕ) → HandleTarget ProcessHandle
target_of none id = nobody
target_of (some handle) id = remote_process (record { handle = handle; id = id })

-- The target of the channel that a child makes.
abbrev pub child_target : ChildMessageChannel → HandleTarget ProcessHandle
child_target child = target_of child.remote_process_handle child.remote_process_id

module _ {W : Type 0} (calls : Calls W) where
  -- `ProcessHandle::current`
  unfoldable pub current : St (Files W) ProcessHandle
  current = do
    handle ← handle_call calls (calls.clone_current_process false)
    pure (record { handle = handle; id = calls.current_process_id })

  -- `ProcessHandle::clone`, and `ProcessHandle::from_child` with the child's handle and number.
  unfoldable pub clone : (process : ProcessHandle) → St (Files W) ProcessHandle
  clone process = do
    handle ← handle_call calls (calls.clone_process process.handle)
    pure (record { handle = handle; id = process.id })

  -- `ProcessHandleExt::from_windows_handle_raw`
  unfoldable pub from_windows_handle_raw : (process : ℕ) → St (Files W) ProcessHandle
  from_windows_handle_raw process = do
    id ← call (calls.get_process_id process)
    lift_ensure (not (id == 0)) ErrorKind.os
    handle ← handle_call calls (calls.clone_process process)
    pure (record { handle = handle; id = id })

  -- `WinHandle::modify`, which consumes its handle.
  unfoldable pub modify : (handle : ℕ) → St (Files W) ℕ
  modify handle = do
    result ← call (calls.modify handle)
    (λ s. (ok tt, record s { opened = remove handle s.opened }))
    modified ← lift_ok_or result ErrorKind.os
    hold modified
    pure modified

  abbrev pub drop_option : Option ℕ → St (Files W) (Unit {0})
  drop_option none = pure tt
  drop_option (some handle) = drop_handle calls handle

  -- The drop of a `ChildMessageChannel`.
  unfoldable pub drop_child : ChildMessageChannel → St (Files W) (Unit {0})
  drop_child child = do
    drop_handle calls child.channel_handle
    drop_option child.remote_process_handle

  -- What is sent to the child: its end of the pipe, and a handle of this process.
  unfoldable pub child_channel : (client : ℕ) → St (Files W) ChildMessageChannel
  child_channel client = do
    process ←
        scoped (drop_handle calls client) (handle_call calls (calls.clone_current_process true))
    channel ← scoped (drop_handle calls process) (modify client)
    pure (record {
      channel_handle = channel;
      remote_process_handle = some process;
      remote_process_id = calls.current_process_id;
    })

  -- `MessageChannel::establish_with_child_custom`; the closure owns what is sent to the child.
  unfoldable pub establish_with_child_custom :
      {T : Type 0}
      → (ChildMessageChannel → St (Files W) (ProcessHandle × T))
      → St (Files W) (MessageChannel × T)
  establish_with_child_custom transmit_and_launch = do
    (server, client) ← raw_pipe_pair calls
    to_be_sent ← scoped (drop_handle calls server) (child_channel client)
    (child_handle, t) ← scoped (drop_handle calls server) (transmit_and_launch to_be_sent)
    channel ← channel_over calls server true (remote_process child_handle)
    pure (channel, t)

  -- `MessageChannel::establish_with_child`. A child is the handle of its process, which the standard
  -- library owns.
  unfoldable pub establish_with_child :
      (ChildMessageChannel → St (Files W) ℕ) → St (Files W) (MessageChannel × ℕ)
  establish_with_child transmit_and_launch = establish_with_child_custom (λ to_be_sent. do
    child ← transmit_and_launch to_be_sent
    process ← from_windows_handle_raw child
    pure (process, child))

  -- `ChildMessageChannel::into_channel`, in the child.
  unfoldable pub child_into_channel : ChildMessageChannel → St (Files W) MessageChannel
  child_into_channel child = channel_over calls child.channel_handle false (child_target child)
