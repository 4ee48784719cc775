-- ===== src/Channel/Socket/Stale.antt =====
-- A message without file descriptors over the `MessageChannel` of src/unix/channel.rs.
use sandbox_ipc.Prelude.{
  append_nil, ℕ, ◌+◌, ◌*◌, ◌<◌, ◌≡◌, true, refl, ap, sym, ◌∙◌, List, some, arith, take,
}
use sandbox_ipc.Prelude.Word.{usize_mod}
use sandbox_ipc.Prelude.Io.{ok}
use sandbox_ipc.Channel.Cmsg
use sandbox_ipc.Channel.Cmsg.{Cmsg}
use sandbox_ipc.Channel.Cmsg.Payload.{Sound, reset-Sound}
use sandbox_ipc.Channel.Fds.{Locals, max_msg_fds, before_deserialize}
use sandbox_ipc.Channel.Socket.{Socket, MessageChannel, read}

before_full :
    {W : Type 0} (cmsghdr_size : ℕ) (c : Cmsg) (l : Locals W)
    → Cmsg.current_fd_count cmsghdr_size c ≡ max_msg_fds
    → (before_deserialize cmsghdr_size c l).1.receiver
      ≡ some (record { fds = take max_msg_fds c.payload; fds_count = max_msg_fds })
unfolding before_deserialize Cmsg.fds
before_full cmsghdr_size c l e = rw (e, append_nil (take max_msg_fds c.payload)) refl

read_ok :
    {P : Type 0} (cmsghdr_size : ℕ) (sys : Socket P) (buffer : List ℕ) (ch : MessageChannel P)
    (n : ℕ) (c : Cmsg) (buffer' : List ℕ) (p p' : P)
    → sys.poll_read_ready ch.socket ≡ (ok true, p)
    → sys.recvmsg
        (Cmsg.reset_fd_count cmsghdr_size (Cmsg.set_data cmsghdr_size buffer ch.cmsg))
        buffer
        p
      ≡ (ok n, c, buffer', p')
    → read cmsghdr_size sys buffer ch ≡ (ok n, buffer', record { socket = p'; cmsg = c })
unfolding read
read_ok cmsghdr_size sys buffer ch n c buffer' p p' ready got = ground (arith, ready, got)

-- A message without file descriptors offers those of the message before: when the system reports by
-- `msg_controllen` that there was no control data, and leaves the buffer alone, as `recvmsg`
-- documents, the receiver counts 32 file descriptors, and takes them from what the buffer held.
pub read-stale :
    {P W : Type 0} (cmsghdr_size : ℕ) (sys : Socket P) (buffer : List ℕ) (ch : MessageChannel P)
    (l : Locals W) (n : ℕ) (c : Cmsg) (buffer' : List ℕ) (p p' : P)
    → cmsghdr_size + 24 + 4 * max_msg_fds < usize_mod
    → Sound cmsghdr_size ch.cmsg
    → ch.cmsg.fd_count ≡ max_msg_fds
    → sys.poll_read_ready ch.socket ≡ (ok true, p)
    → c ≡ Cmsg.reset_fd_count cmsghdr_size (Cmsg.set_data cmsghdr_size buffer ch.cmsg)
    → sys.recvmsg c buffer p ≡ (ok n, record c { msg_controllen = 0 }, buffer', p')
    → let (r, _, ch') = read cmsghdr_size sys buffer ch in
      (r ≡ ok n)
      × ((before_deserialize cmsghdr_size ch'.cmsg l).1.receiver
          ≡ some (record { fds = take max_msg_fds ch.cmsg.payload; fds_count = max_msg_fds }))
unfolding Cmsg.reset_fd_count Cmsg.set_data Cmsg.current_fd_count
read-stale cmsghdr_size sys buffer ch l n c buffer' p p' small sound full ready given got =
    let (_, count) = reset-Sound cmsghdr_size ch.cmsg (omega (arith, full)) sound in
    let same : Cmsg.current_fd_count cmsghdr_size c ≡ max_msg_fds =
      ap (Cmsg.current_fd_count cmsghdr_size) given ∙ count ∙ full in
    let kept : c.payload ≡ ch.cmsg.payload = ap (λ t. t.payload) given in
    let got' = ap (λ t. sys.recvmsg t buffer p) (sym given) ∙ got in
    rw (read_ok cmsghdr_size sys buffer ch n _ buffer' p p' ready got', sym kept)
      (refl, before_full cmsghdr_size (record c { msg_controllen = 0 }) l same)
