-- ===== src/Channel/Establish.antt =====
-- How a `MessageChannel` of src/unix/channel.rs comes to be, and who closes its file descriptors. The
-- calls of the system are an argument, over the state `W` of the process; names of sockets and the
-- address that holds them are left out, but for their length.
pub mod Owners
mod Tests
use sandbox_ipc.Prelude.{ℕ, ◌^◌, Bool, List, [], ◌∷◌, Option, none, some, ltb, ◌==◌, if◌then◌else◌}
use sandbox_ipc.Prelude.Io.{Result, ok, err, panic, ErrorKind}
use sandbox_ipc.Prelude.State.{St, ◌>>=◌, ◌>>◌, pure, lift, lift_ensure, lift_assert, lift_ok_or}
use sandbox_ipc.Channel.Owned.{Files, remove, call, attempt, hold}
use sandbox_ipc.Prelude.State.{scoped, finally}
use sandbox_ipc.Channel.Fds
use sandbox_ipc.Channel.Fds.{Libc, is_negative}

-- A call that returns a `c_int` is negative when it fails. `register` is `PollEvented::new_with_handle`.
pub record Calls (W : Type 0) : Type 0 where
  pub libc : Libc W
  pub socketpair : W → Option (ℕ × ℕ) × W
  pub socket : W → ℕ × W
  pub bind : (fd : ℕ) → W → ℕ × W
  pub listen : (fd : ℕ) → W → ℕ × W
  pub accept : (fd : ℕ) → W → ℕ × W
  pub connect : (fd : ℕ) → W → ℕ × W
  pub close : (fd : ℕ) → W → W
  pub register : (fd : ℕ) → W → Result (Unit {0}) × W

-- The bytes of `sun_path`.
abbrev pub sun_path_len : ℕ
sun_path_len = 108

module _ {W : Type 0} (calls : Calls W) where
  -- `ScopedFd::drop`
  abbrev pub drop_fd : ℕ → St (Files W) (Unit {0})
  drop_fd fd s = (ok tt, record { world = calls.close fd s.world; opened = remove fd s.opened })

  abbrev pub checked : (W → ℕ × W) → St (Files W) (Unit {0})
  checked f = do result ← call f; lift_ensure (ltb result (2 ^ 31)) ErrorKind.os

  -- The handle is dropped when it cannot be registered.
  abbrev pub poll_evented : ℕ → St (Files W) ℕ
  poll_evented fd = do scoped (drop_fd fd) (attempt (calls.register fd)); pure fd

  unfoldable pub raw_socketpair : St (Files W) (ℕ × ℕ)
  raw_socketpair = do
    sockets ← call calls.socketpair
    (a, b) ← lift_ok_or sockets ErrorKind.os
    hold a
    hold b
    attempt (Fds.set_cloexec calls.libc a)
    attempt (Fds.set_cloexec calls.libc b)
    pure (a, b)

  -- `MessageChannel::pair`; a channel is its file descriptor.
  unfoldable pub pair : St (Files W) (ℕ × ℕ)
  pair = do
    (a, b) ← raw_socketpair
    first ← scoped (drop_fd b) (poll_evented a)
    second ← scoped (drop_fd a) (poll_evented b)
    pure (first, second)

  -- The child is launched, and the parent's channel made of its socket `a`.
  unfoldable pub launch : {A : Type 0} → (ℕ → St (Files W) A) → (a b : ℕ) → St (Files W) (ℕ × A)
  launch transmit_and_launch a b = do
    child ← scoped (drop_fd a) (transmit_and_launch b)
    channel ← poll_evented a
    pure (channel, child)

  -- `CloexecGuard::drop`, if there is a guard, and the drop of the child's socket.
  unfoldable pub drop_guard : Result (Unit {0}) → (b : ℕ) → St (Files W) (Unit {0})
  drop_guard (ok done) b s =
      drop_fd b (record s { world = (Fds.set_cloexec calls.libc b s.world).1 })
  drop_guard (err kind) b s = drop_fd b s
  drop_guard panic b s = drop_fd b s

  -- `MessageChannel::establish_with_child`: the guard clears `FD_CLOEXEC` while the child is launched.
  unfoldable pub establish_with_child : {A : Type 0} → (ℕ → St (Files W) A) → St (Files W) (ℕ × A)
  unfolding raw_socketpair launch drop_guard
  establish_with_child transmit_and_launch = do
    (a, b) ← raw_socketpair
    guard ← call (Fds.clear_cloexec calls.libc b)
    finally (drop_guard guard b) (launch transmit_and_launch a b)

  -- `NamedMessageChannel::new`, with the length of the path.
  unfoldable pub named_new : (path_len : ℕ) → St (Files W) ℕ
  named_new path_len = do
    socket ← call calls.socket
    hold socket
    scoped (drop_fd socket) (do
      attempt (Fds.set_cloexec calls.libc socket)
      lift_assert (ltb path_len sun_path_len)
      checked (calls.bind socket)
      checked (calls.listen socket)
      pure socket)

  -- `NamedMessageChannel::accept`, which consumes the listening socket.
  unfoldable pub accept : (listener : ℕ) → St (Files W) ℕ
  accept listener = finally (drop_fd listener) (do
    socket ← call (calls.accept listener)
    lift_ensure (ltb socket (2 ^ 31)) ErrorKind.os
    hold socket
    poll_evented socket)

  -- `NamedMessageChannel::connect`, with the length of the path.
  unfoldable pub connect : (path_len : ℕ) → St (Files W) ℕ
  connect path_len = do
    socket ← call calls.socket
    hold socket
    attempt (Fds.set_cloexec calls.libc socket)
    lift_assert (ltb path_len sun_path_len)
    checked (calls.connect socket)
    poll_evented socket

  -- `MessageChannel::establish_with_child_custom`, whose closure gives a `ProcessHandle`, which is
  -- empty, and a result.
  unfoldable pub establish_with_child_custom :
      {A : Type 0} → (ℕ → St (Files W) (Unit {0} × A)) → St (Files W) (ℕ × A)
  establish_with_child_custom transmit_and_launch = do
    (channel, (token, t)) ← establish_with_child transmit_and_launch
    pure (channel, t)

  -- `PreMessageChannel::pair`, and `into_channel` and `into_sealed_channel`, which do the same.
  unfoldable pub pre_pair : St (Files W) (ℕ × ℕ)
  pre_pair = raw_socketpair

  unfoldable pub into_channel : (pre : ℕ) → Unit {0} → St (Files W) ℕ
  into_channel pre remote_process = poll_evented pre

  unfoldable pub into_sealed_channel : (pre : ℕ) → St (Files W) ℕ
  into_sealed_channel pre = poll_evented pre
