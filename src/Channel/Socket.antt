-- ===== src/Channel/Socket.antt =====
-- `MessageChannel` of src/unix/channel.rs as a transport: one message for each write and read, with
-- its control message. The socket, with tokio's readiness of it, is an argument.
pub mod Sending
pub mod Stale
mod Tests
use sandbox_ipc.Prelude.{ℕ, Bool, true, false, List, Option, none, some, ◌==◌, if◌then◌else◌}
use sandbox_ipc.Prelude.Io.{Result, ok, err, panic, ErrorKind, would_block}
use sandbox_ipc.Channel.Cmsg
use sandbox_ipc.Channel.Cmsg.{Cmsg}
use sandbox_ipc.Channel.Datagram.{Transport, Wrapper}
use sandbox_ipc.Channel.Fds.{
  HandleSender, HandleReceiver, Locals, max_msg_fds, before_serialize, commit_serialize,
  drop_serialize, before_deserialize, drop_deserialize,
}

-- The state `P` of the socket. `poll_write_ready` and `poll_read_ready` answer whether it is ready;
-- `sendmsg` and `recvmsg` are called with the flag `MSG_DONTWAIT`. A `recvmsg` gives back the control
-- message and the buffer as they are after the call.
pub record Socket (P : Type 0) : Type 0 where
  pub poll_write_ready : P → Result Bool × P
  pub poll_read_ready : P → Result Bool × P
  pub clear_write_ready : P → Result (Unit {0}) × P
  pub clear_read_ready : P → Result (Unit {0}) × P
  pub sendmsg : Cmsg → P → Result ℕ × P
  pub recvmsg : Cmsg → (buffer : List ℕ) → P → Result ℕ × Cmsg × List ℕ × P

pub record MessageChannel (P : Type 0) : Type 0 where
  pub socket : P
  pub cmsg : Cmsg

-- `MessageChannel { socket, cmsg: Cmsg::new(MAX_MSG_FDS) }`
abbrev pub new_channel : {P : Type 0} → (cmsghdr_size : ℕ) → P → MessageChannel P
new_channel cmsghdr_size socket = record {
  socket = socket;
  cmsg = Cmsg.new cmsghdr_size max_msg_fds;
}

-- What a failed call returns: readiness is cleared if the call would have blocked, and an error of
-- that comes first.
abbrev pub failed :
    {P : Type 0} → (clear : P → Result (Unit {0}) × P) → ErrorKind → P → Result ℕ × P
failed clear would_block p =
    let (r, p') = clear p in
    (elim r [ ok done ↦ err would_block | err kind ↦ err kind | panic ↦ panic ], p')
failed clear kind p = (err kind, p)

abbrev pub outcome :
    {P : Type 0} → (clear : P → Result (Unit {0}) × P) → Result ℕ → P → Result ℕ × P
outcome clear (ok n) p = (ok n, p)
outcome clear (err kind) p = failed clear kind p
outcome clear panic p = (panic, p)

module _ {P : Type 0} (cmsghdr_size : ℕ) (sys : Socket P) where
  -- `io::Write::write`
  unfoldable pub write : List ℕ → MessageChannel P → Result ℕ × MessageChannel P
  write buffer ch =
      let (ready, p) = sys.poll_write_ready ch.socket in
      elim ready [
        | ok true ↦
            let cmsg = Cmsg.set_data cmsghdr_size buffer ch.cmsg in
            let (result, p') = sys.sendmsg cmsg p in
            let (r, p'') = outcome sys.clear_write_ready result p' in
            (r, record { socket = p''; cmsg = cmsg })
        | ok false ↦ (err would_block, record ch { socket = p })
        | err kind ↦ (err kind, record ch { socket = p })
        | panic ↦ (panic, record ch { socket = p })
      ]

  -- `io::Read::read`
  unfoldable pub read : List ℕ → MessageChannel P → Result ℕ × List ℕ × MessageChannel P
  read buffer ch =
      let (ready, p) = sys.poll_read_ready ch.socket in
      elim ready [
        | ok true ↦
            let cmsg =
              Cmsg.reset_fd_count cmsghdr_size (Cmsg.set_data cmsghdr_size buffer ch.cmsg) in
            let (result, cmsg', buffer', p') = sys.recvmsg cmsg buffer p in
            let (r, p'') = outcome sys.clear_read_ready result p' in
            (r, buffer', record { socket = p''; cmsg = cmsg' })
        | ok false ↦ (err would_block, buffer, record ch { socket = p })
        | err kind ↦ (err kind, buffer, record ch { socket = p })
        | panic ↦ (panic, buffer, record ch { socket = p })
      ]

  -- The channel as the transport of a `BincodeDatagram`.
  abbrev pub transport : Transport (MessageChannel P)
  transport = record { read = read; write = write }

  -- `ChannelSerializeWrapper`
  abbrev pub wrapper :
      {W : Type 0}
      → Wrapper (MessageChannel P) (Locals W) (Option HandleSender) (Option HandleReceiver)
  wrapper = record {
    before_serialize = λ ch l. before_serialize l;
    commit_serialize = λ saved ch l.
        let (r, l') = commit_serialize cmsghdr_size saved ch.cmsg l in
        elim r [
          | ok cmsg ↦ (ok tt, record ch { cmsg = cmsg }, l')
          | err kind ↦ (err kind, ch, l')
          | panic ↦ (panic, ch, l')
        ];
    drop_serialize = drop_serialize;
    before_deserialize = λ ch l. before_deserialize cmsghdr_size ch.cmsg l;
    commit_deserialize = drop_deserialize;
    drop_deserialize = drop_deserialize;
  }
