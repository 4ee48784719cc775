-- ===== src/Channel/Socket/Sending.antt =====
-- The `MessageChannel` of src/unix/channel.rs keeps what a `BincodeDatagram` relies on.
use sandbox_ipc.Prelude.{
  append_nil, ℕ, ◌≡◌, List, [], ◌∷◌, ◌++◌, some, arith, refl, ap, ◌∙◌, length, inl, inr,
}
use sandbox_ipc.Prelude.Io.{Result, ok, err, panic, ErrorKind, Result-cases}
use sandbox_ipc.Channel.Cmsg
use sandbox_ipc.Channel.Cmsg.{Cmsg}
use sandbox_ipc.Channel.Datagram.{Codec}
use sandbox_ipc.Channel.Datagram.Outbox.{Sends}
use sandbox_ipc.Channel.Fds.{Locals}
use sandbox_ipc.Channel.Socket.{Socket, MessageChannel, write, read, transport, wrapper}

-- What a socket documents that keeps the boundaries of messages, with the messages sent over it:
-- `sendmsg` sends all the bytes that the `iovec` points to, or fails and sends nothing. No other
-- call sends.
pub record Seqpacket {P : Type 0} (sys : Socket P) (sent : P → List (List ℕ)) : Type 0 where
  pub sendmsg-ok :
      (c : Cmsg) (bytes : List ℕ) (p : P) (n : ℕ)
      → c.iovec ≡ some bytes
      → (sys.sendmsg c p).0 ≡ ok n
      → (n ≡ length bytes) × (sent (sys.sendmsg c p).1 ≡ sent p ++ (bytes ∷ []))
  pub sendmsg-err :
      (c : Cmsg) (p : P) (kind : ErrorKind)
      → (sys.sendmsg c p).0 ≡ err kind
      → sent (sys.sendmsg c p).1 ≡ sent p
  pub sendmsg-panic :
      (c : Cmsg) (p : P) → (sys.sendmsg c p).0 ≡ panic → sent (sys.sendmsg c p).1 ≡ sent p
  pub write-ready-keeps : (p : P) → sent (sys.poll_write_ready p).1 ≡ sent p
  pub read-ready-keeps : (p : P) → sent (sys.poll_read_ready p).1 ≡ sent p
  pub clear-write-keeps : (p : P) → sent (sys.clear_write_ready p).1 ≡ sent p
  pub clear-read-keeps : (p : P) → sent (sys.clear_read_ready p).1 ≡ sent p
  pub recvmsg-keeps :
      (c : Cmsg) (buffer : List ℕ) (p : P) → sent (sys.recvmsg c buffer p).3 ≡ sent p

module _ {P : Type 0} (cmsghdr_size : ℕ) {sys : Socket P} {sent : P → List (List ℕ)}
    (packets : Seqpacket sys sent) where
  -- The message that a write sends, by what the write returns.
  abbrev logged : List ℕ → Result ℕ → List (List ℕ)
  logged bytes (ok n) = bytes ∷ []
  logged bytes (err kind) = []
  logged bytes panic = []

  write_sent :
      (bytes : List ℕ) (ch : MessageChannel P)
      → let (r, ch') = write cmsghdr_size sys bytes ch in
        sent ch'.socket ≡ sent ch.socket ++ logged bytes r
  unfolding write Cmsg.set_data
  write_sent bytes ch =
      let p = (sys.poll_write_ready ch.socket).1 in
      let c = Cmsg.set_data cmsghdr_size bytes ch.cmsg in
      let p' = (sys.sendmsg c p).1 in
      let same = packets.write-ready-keeps ch.socket in
      let cleared = packets.clear-write-keeps p' in
      let nil = append_nil (sent ch.socket) in
      elim (Result-cases (sys.sendmsg c p).0) [
        | inl (n, e) ↦ ground (arith, e, same, nil, packets.sendmsg-ok c bytes p n refl e)
        | inr (inl (kind, e)) ↦
            ground (arith, e, same, nil, cleared, packets.sendmsg-err c p kind e)
        | inr (inr e) ↦ ground (arith, e, same, nil, packets.sendmsg-panic c p e)
      ]

  write_whole :
      (bytes : List ℕ) (ch : MessageChannel P) (n : ℕ)
      → (write cmsghdr_size sys bytes ch).0 ≡ ok n
      → n ≡ length bytes
  unfolding write Cmsg.set_data
  write_whole bytes ch n done =
      let p = (sys.poll_write_ready ch.socket).1 in
      let c = Cmsg.set_data cmsghdr_size bytes ch.cmsg in
      elim (Result-cases (sys.sendmsg c p).0) [
        | inl (m, e) ↦ ground (arith, done, e, packets.sendmsg-ok c bytes p m refl e)
        | inr (inl (kind, e)) ↦ absurd (ground (arith, done, e))
        | inr (inr e) ↦ absurd (ground (arith, done, e))
      ]

  read_lem :
      (buffer : List ℕ) (ch : MessageChannel P)
      → sent (read cmsghdr_size sys buffer ch).2.socket ≡ sent ch.socket
  unfolding read
  read_lem buffer ch =
      let p = (sys.poll_read_ready ch.socket).1 in
      let c = Cmsg.reset_fd_count cmsghdr_size (Cmsg.set_data cmsghdr_size buffer ch.cmsg) in
      ground (
        arith,
        packets.read-ready-keeps ch.socket,
        packets.recvmsg-keeps c buffer p,
        packets.clear-read-keeps (sys.recvmsg c buffer p).3,
      )

  -- The `MessageChannel` of Unix keeps the contract of a transport of datagrams, for which every
  -- message that a `BincodeDatagram` accepts is sent once and in order: over a socket that keeps the
  -- boundaries of messages, and any codec.
  pub transport-Sends :
      {W T R : Type 0} (codec : Codec (Locals W) T R)
      → Sends (transport cmsghdr_size sys) codec (wrapper cmsghdr_size sys) (λ ch. sent ch.socket)
  transport-Sends codec = record {
    write-ok = λ bytes ch n e. (
      write_whole bytes ch n e,
      write_sent bytes ch ∙ ap (λ r. sent ch.socket ++ logged bytes r) e,
    );
    write-err = λ bytes ch kind e.
        write_sent bytes ch
        ∙ ap (λ r. sent ch.socket ++ logged bytes r) e
        ∙ append_nil (sent ch.socket);
    write-panic = λ bytes ch e.
        write_sent bytes ch
        ∙ ap (λ r. sent ch.socket ++ logged bytes r) e
        ∙ append_nil (sent ch.socket);
    read-keeps = read_lem;
    commit-keeps = λ saved ch l. ground arith;
  }
