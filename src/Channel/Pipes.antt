-- ===== src/Channel/Pipes.antt =====
-- How a `MessageChannel` of src/windows/channel.rs comes to be, and who closes its handles. The calls
-- of the system and those of winhandle are an argument, over the state `W` of the process.
pub mod Establish
pub mod Named
pub mod Kept
pub mod Owners
pub mod Child
pub mod Sealed
pub mod Sent
pub mod Timeout
mod Tests
use sandbox_ipc.Prelude.{
  ℕ, ◌+◌, ◌*◌, ◌/◌, ◌%◌, ◌^◌, ◌-◌, Bool, true, false, not, List, [], ◌∷◌, Option, none, some, ◌==◌,
  if◌then◌else◌,
}
use sandbox_ipc.Prelude.Io.{Result, ok, err, panic, ErrorKind}
use sandbox_ipc.Prelude.State.{St, ◌>>=◌, ◌>>◌, pure, lift_ensure, lift_ok_or}
use sandbox_ipc.Channel.Owned.{Files, remove, call, attempt, hold}
use sandbox_ipc.Prelude.State.{scoped, finally}
use sandbox_ipc.Channel.Handles.{
  ProcessHandle, HandleTarget, nobody, current_process, remote_process,
}

-- A call that returns a `BOOL` is false when it fails, and one that returns a handle is `none`.
-- `clone_process` and `modify` are `clone_ex` and `modify` of winhandle, of which the second
-- consumes its handle however it ends; `register` is `PollEvented::new_with_handle`.
pub record Calls (W : Type 0) : Type 0 where
  pub initialize_security_descriptor : W → Bool × W
  pub set_security_descriptor_dacl : W → Bool × W
  pub create_named_pipe : W → Option ℕ × W
  pub connect_named_pipe : (pipe : ℕ) → W → Bool × W
  pub last_error_is_io_pending : W → Bool × W
  pub create_file : W → Option ℕ × W
  pub get_overlapped_result : (pipe timeout : ℕ) → W → Bool × W
  pub wait_named_pipe : (timeout : ℕ) → W → Bool × W
  pub get_client_process_id : (pipe : ℕ) → W → Option ℕ × W
  pub get_server_process_id : (pipe : ℕ) → W → Option ℕ × W
  pub get_process_id : (process : ℕ) → W → ℕ × W
  pub open_process : (id : ℕ) → W → Option ℕ × W
  pub current_process_id : ℕ
  pub clone_current_process : (inherit : Bool) → W → Option ℕ × W
  pub clone_process : (process : ℕ) → W → Option ℕ × W
  pub modify : (handle : ℕ) → W → Option ℕ × W
  pub close : (handle : ℕ) → W → W
  pub register : (pipe : ℕ) → W → Result (Unit {0}) × W

pub record MessageChannel : Type 0 where
  pub pipe : ℕ
  pub server : Bool
  pub target : HandleTarget ProcessHandle

abbrev pub handle_target : MessageChannel → HandleTarget ProcessHandle
handle_target c = elim c.target [
  | nobody ↦ nobody
  | current_process ↦ current_process
  | remote_process p ↦ remote_process p
]

pub record ChildMessageChannel : Type 0 where
  pub channel_handle : ℕ
  pub remote_process_handle : Option ℕ
  pub remote_process_id : ℕ

pub record PreMessageChannel : Type 0 where
  pub pipe : ℕ
  pub server : Bool

abbrev pub infinite : ℕ
infinite = 2 ^ 32 - 1

-- The milliseconds of a timeout as a `ULONG`; a `Duration` is its seconds and nanoseconds.
unfoldable pub millis : Option (ℕ × ℕ) → ℕ
millis none = infinite
millis (some (secs, nanos)) = (secs * 1000 % 2 ^ 64 + nanos / (1000 * 1000)) % 2 ^ 64 % 2 ^ 32

module _ {W : Type 0} (calls : Calls W) where
  -- The drop of a `WinHandle`.
  abbrev pub drop_handle : ℕ → St (Files W) (Unit {0})
  drop_handle h s = (ok tt, record { world = calls.close h s.world; opened = remove h s.opened })

  -- `winapi_bool_call!`, and `winapi_handle_call!`, each with its `?`.
  unfoldable pub bool_call : (W → Bool × W) → St (Files W) (Unit {0})
  bool_call f = do result ← call f; lift_ensure result ErrorKind.os

  unfoldable pub handle_call : (W → Option ℕ × W) → St (Files W) ℕ
  handle_call f = do
    result ← call f
    handle ← lift_ok_or result ErrorKind.os
    hold handle
    pure handle

  -- A call that fails, or gives a number.
  unfoldable pub id_call : (W → Option ℕ × W) → St (Files W) ℕ
  id_call f = do result ← call f; lift_ok_or result ErrorKind.os

  -- `PollEvented::new_with_handle(MioNamedPipe::from_raw_handle(...))?`, which owns the pipe.
  unfoldable pub poll_evented : (pipe : ℕ) → St (Files W) ℕ
  poll_evented pipe = do scoped (drop_handle pipe) (attempt (calls.register pipe)); pure pipe

  -- The server half begins to connect: overlapped, so that it must not succeed at once.
  unfoldable pub begin_connection : (server : ℕ) → St (Files W) (Unit {0})
  begin_connection server = do
    connected ← call (calls.connect_named_pipe server)
    lift_ensure (not connected) ErrorKind.os
    bool_call calls.last_error_is_io_pending

  -- The client half, and the end of the connection.
  unfoldable pub client_end : (server : ℕ) → St (Files W) ℕ
  client_end server = do
    begin_connection server
    client ← handle_call calls.create_file
    scoped (drop_handle client) (bool_call (calls.get_overlapped_result server 1000))
    pure client

  unfoldable pub raw_pipe_pair : St (Files W) (ℕ × ℕ)
  raw_pipe_pair = do
    bool_call calls.initialize_security_descriptor
    bool_call calls.set_security_descriptor_dacl
    server ← handle_call calls.create_named_pipe
    client ← scoped (drop_handle server) (client_end server)
    pure (server, client)

  -- `MessageChannel::pair`
  unfoldable pub pair : St (Files W) (MessageChannel × MessageChannel)
  pair = do
    (server, client) ← raw_pipe_pair
    a ← scoped (drop_handle client) (poll_evented server)
    b ← scoped (drop_handle a) (poll_evented client)
    pure (
      record { pipe = a; server = true; target = current_process },
      record { pipe = b; server = false; target = current_process },
    )

  -- `PreMessageChannel::pair`
  unfoldable pub pre_pair : St (Files W) (PreMessageChannel × PreMessageChannel)
  pre_pair = do
    (server, client) ← raw_pipe_pair
    pure (record { pipe = server; server = true }, record { pipe = client; server = false })

  -- A channel over a pipe, with what was received or opened for its target.
  unfoldable pub channel_over :
      (pipe : ℕ) (server : Bool) → HandleTarget ProcessHandle → St (Files W) MessageChannel
  channel_over pipe server nobody = do
    p ← poll_evented pipe
    pure (record { pipe = p; server = server; target = nobody })
  channel_over pipe server current_process = do
    p ← poll_evented pipe
    pure (record { pipe = p; server = server; target = current_process })
  channel_over pipe server (remote_process process) = do
    p ← scoped (drop_handle process.handle) (poll_evented pipe)
    pure (record { pipe = p; server = server; target = remote_process process })

  -- `PreMessageChannel::into_channel`, and `into_sealed_channel`
  abbrev pub into_channel : PreMessageChannel → ProcessHandle → St (Files W) MessageChannel
  into_channel pre process = channel_over pre.pipe pre.server (remote_process process)

  abbrev pub into_sealed_channel : PreMessageChannel → St (Files W) MessageChannel
  into_sealed_channel pre = channel_over pre.pipe pre.server nobody
