-- ===== src/Channel/Socket/Tests.antt =====
-- A socket that keeps what is sent over it, and the theorems of src/unix/channel.rs at it.
use sandbox_ipc.Prelude.{
  ℕ, ◌≡◌, true, List, [], ◌∷◌, ◌++◌, none, some, arith, refl, length, replicate,
}
use sandbox_ipc.Prelude.Io.{Result, ok, err, ErrorKind}
use sandbox_ipc.Channel.Cmsg
use sandbox_ipc.Channel.Cmsg.{Cmsg}
use sandbox_ipc.Channel.Cmsg.Payload.{Sound}
use sandbox_ipc.Channel.Datagram.{Codec}
use sandbox_ipc.Channel.Datagram.Outbox.{Sends}
use sandbox_ipc.Channel.Fds.{Locals, max_msg_fds, before_deserialize}
use sandbox_ipc.Channel.Socket.{Socket, MessageChannel, read, transport, wrapper}
use sandbox_ipc.Channel.Socket.Sending.{Seqpacket, transport-Sends}
use sandbox_ipc.Channel.Socket.Stale.{read-stale}

abbrev sendmsg : Cmsg → List (List ℕ) → Result ℕ × List (List ℕ)
sendmsg c p = elim c.iovec [
  | none ↦ (err ErrorKind.os, p)
  | some bytes ↦ (ok (length bytes), p ++ (bytes ∷ []))
]

-- Always ready, with a message of three bytes and no file descriptors to receive.
abbrev log : Socket (List (List ℕ))
log = record {
  poll_write_ready = λ p. (ok true, p);
  poll_read_ready = λ p. (ok true, p);
  clear_write_ready = λ p. (ok tt, p);
  clear_read_ready = λ p. (ok tt, p);
  sendmsg = sendmsg;
  recvmsg = λ c buffer p. (ok 3, record c { msg_controllen = 0 }, buffer, p);
}

log-Seqpacket : Seqpacket log (λ p. p)
log-Seqpacket = record {
  sendmsg-ok = λ c bytes p n points e. ground (arith, points, e);
  sendmsg-err = λ c p kind e. ground (arith, e);
  sendmsg-panic = λ c p e. ground (arith, e);
  write-ready-keeps = λ p. refl;
  read-ready-keeps = λ p. refl;
  clear-write-keeps = λ p. refl;
  clear-read-keeps = λ p. refl;
  recvmsg-keeps = λ c buffer p. refl;
}

abbrev serialize_into : ℕ → ℕ → List ℕ → Locals (Unit {0}) → Result ℕ × List ℕ × Locals (Unit {0})
serialize_into limit x [] l = (err ErrorKind.invalid_input, [], l)
serialize_into limit x (b ∷ buffer) l = (ok 1, x ∷ buffer, l)

abbrev bytes : Codec (Locals (Unit {0})) ℕ ℕ
bytes = record {
  serialize_into = serialize_into;
  deserialize = λ limit encoded l. (err ErrorKind.invalid_data, l);
}

transport-Sends_example : Sends (transport 16 log) bytes (wrapper 16 log) (λ ch. ch.socket)
transport-Sends_example = transport-Sends 16 log-Seqpacket bytes

-- A channel whose buffer still holds the file descriptors 7 and 8 of an earlier message.
abbrev used : MessageChannel (List (List ℕ))
used = record {
  socket = [];
  cmsg = record {
    cmsg_len = 24;
    msg_controllen = 24;
    payload = 7 ∷ 8 ∷ replicate 30 0;
    iovec = none;
    fd_count = max_msg_fds;
  };
}

used-Sound : Sound 16 used.cmsg
unfolding Cmsg.current_fd_count Cmsg.cmsg_align
used-Sound = record { room = omega arith; few = omega arith; told = omega arith }

read-stale_example :
    let (r, _, ch') = read 16 log (0 ∷ 0 ∷ 0 ∷ []) used in
    (r ≡ ok 3)
    × ((before_deserialize 16 ch'.cmsg
          (record { world = tt; sender = none; receiver = none })).1.receiver
        ≡ some (record { fds = 7 ∷ 8 ∷ replicate 30 0; fds_count = 32 }))
read-stale_example =
    read-stale {W = Unit {0}} 16 log (0 ∷ 0 ∷ 0 ∷ []) used
      (record { world = tt; sender = none; receiver = none }) 3 _ (0 ∷ 0 ∷ 0 ∷ []) [] []
      (omega arith) used-Sound refl refl refl refl
