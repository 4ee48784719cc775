-- ===== src/Channel/Establish/Tests.antt =====
-- A process that counts its file descriptors, whose listens and connects fail, and the theorems of
-- src/unix/channel.rs at it.
use sandbox_ipc.Prelude.{ℕ, ◌+◌, ◌≡◌, [], ◌∷◌, some, arith, refl}
use sandbox_ipc.Prelude.Io.{Result, ok, err, ErrorKind}
use sandbox_ipc.Channel.Fds.{Libc, minus_one, set_cloexec}
use sandbox_ipc.Channel.Owned.{Files, attempt}
use sandbox_ipc.Channel.Establish.{
  Calls, raw_socketpair, pair, establish_with_child, named_new, accept, connect, launch,
}
use sandbox_ipc.Channel.Establish.Owners.{channels_kept, connect-leaks}

abbrev libc : Libc ℕ
libc = record {
  dup = λ fd w. (w, w + 1);
  get_flags = λ fd w. (0, w);
  set_flags = λ fd flags w. (0, w);
}

abbrev calls : Calls ℕ
calls = record {
  libc = libc;
  socketpair = λ w. (some (w, w + 1), w + 2);
  socket = λ w. (w, w + 1);
  bind = λ fd w. (0, w);
  listen = λ fd w. (minus_one, w);
  accept = λ fd w. (w, w + 1);
  connect = λ fd w. (minus_one, w);
  close = λ fd w. w;
  register = λ fd w. (ok tt, w);
}

abbrev process : Files ℕ
process = record { world = 5; opened = 4 ∷ [] }

sockets : (raw_socketpair calls process).0 ≡ ok (5, 6)
unfolding raw_socketpair set_cloexec
sockets = refl

-- The launch fails.
abbrev transmit : ℕ → ℕ → Result (Unit {0}) × ℕ
transmit fd w = (err ErrorKind.os, w)

channels_kept_example :
    ((pair calls process).1.opened ≡ 6 ∷ 5 ∷ 4 ∷ [])
    × ((establish_with_child calls (λ b. attempt (transmit b)) process).1.opened ≡ 4 ∷ [])
    × ((named_new calls 20 process).1.opened ≡ 4 ∷ [])
    × ((accept calls 4 process).1.opened ≡ 5 ∷ [])
unfolding pair establish_with_child raw_socketpair launch named_new accept set_cloexec
channels_kept_example = channels_kept calls transmit 20 4 process 5 6 sockets (omega arith)

socket_left :
    ((connect calls 20 process).0 ≡ err ErrorKind.os)
    × ((connect calls 20 process).1.opened ≡ 5 ∷ 4 ∷ [])
unfolding set_cloexec
socket_left = connect-leaks calls 20 5 process 6 6 refl refl (omega arith) (omega arith)
