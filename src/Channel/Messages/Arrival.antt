-- ===== src/Channel/Messages/Arrival.antt =====
-- An end of a pair of src/channel.rs from one process to another, on Unix.
mod Tests
use sandbox_ipc.Prelude.{
  ℕ, ◌+◌, ◌*◌, ◌<◌, ◌≡◌, ap, subst, some, List, [], ◌∷◌, ◌++◌, Option, arith, inl, inr,
}
use sandbox_ipc.Prelude.Word.{usize_mod}
use sandbox_ipc.Prelude.Io.{ok, Result-cases}
use sandbox_ipc.Prelude.State.{St}
use sandbox_ipc.Channel.Cmsg.{Cmsg}
use sandbox_ipc.Channel.Cmsg.Payload.{Sound}
use sandbox_ipc.Channel.Owned.{Files}
use sandbox_ipc.Channel.Tokens.{Token, number, next_number}
use sandbox_ipc.Channel.Fds.{
  Libc, Locals, max_msg_fds, before_serialize, commit_serialize, before_deserialize,
}
use sandbox_ipc.Channel.Fds.Items.{put_fd, get_fd, put_scoped, get_scoped}
use sandbox_ipc.Channel.Fds.Runs.{serialize_all}
use sandbox_ipc.Channel.Fds.Sender.{Duplicates, Opens}
use sandbox_ipc.Channel.Fds.Receiver.{Usable}
use sandbox_ipc.Channel.Fds.Delivery.{Delivers, numbered, delivered}
use sandbox_ipc.Channel.Fds.Single.{put_fd-all, read_fd}
use sandbox_ipc.Shm.Unix.Transfer.{drop_fd}
use sandbox_ipc.Channel.Establish
use sandbox_ipc.Channel.Messages.{PreMessageChannel, message_channel, pre_pair, pre_into_channel}
use sandbox_ipc.Channel.Messages.Platforms.{unix}
use sandbox_ipc.Channel.Messages.Sent.{serialize, deserialize}

serialize-fd :
    {W : Type 0} (libc : Libc W) (pre : PreMessageChannel ℕ) (tokens : List Token) (l l' : Locals W)
    → put_fd libc pre.inner l ≡ (ok tokens, l')
    → serialize (put_scoped libc) pre l ≡ (ok (tokens ++ (number pre.max_message_size ∷ [])), l')
unfolding serialize
serialize-fd libc pre tokens l l' e = ground (arith, e)

deserialize-fd :
    {V : Type 0} (libc : Libc V) (close : ℕ → V → V) (fd size : ℕ) (rest : List Token)
    (l : Locals V)
    → (get_fd libc (number 0 ∷ number size ∷ rest) l).0 ≡ ok (fd, number size ∷ rest)
    → deserialize (get_scoped libc) (drop_fd close) (number 0 ∷ number size ∷ rest) l ≡ (
      ok (record { inner = fd; max_message_size = size }, rest),
      (get_fd libc (number 0 ∷ number size ∷ rest) l).1,
    )
unfolding deserialize next_number
deserialize-fd libc close fd size rest l e = ground (arith, e)

module _ {U G : Type 0} (L T : Type 0) (calls : Establish.Calls U) (path_len : ℕ) (locals : G) where
  size_of :
      (size : ℕ) (s s' : Files U) (a b : PreMessageChannel ℕ)
      → pre_pair (unix {L = L} {T = T} calls path_len) size s ≡ (ok (a, b), s')
      → (a.max_message_size ≡ size) × (b.max_message_size ≡ size)
  unfolding pre_pair
  size_of size s s' a b e =
      elim (Result-cases ((unix {L = L} {T = T} calls path_len).pre_pair s).0) [
        | inl (x, w) ↦ (ground (arith, w, e), ground (arith, w, e))
        | inr (inl (kind, w)) ↦ absurd (ground (arith, w, e))
        | inr (inr w) ↦ absurd (ground (arith, w, e))
      ]

  finished :
      (pre : PreMessageChannel ℕ) (s : Files U)
      → (calls.register pre.inner s.world).0 ≡ ok tt
      → (pre_into_channel (unix {L = L} {T = T} calls path_len) locals pre tt s).0
        ≡ ok (message_channel pre.inner pre.max_message_size locals)
  unfolding pre_into_channel Establish.into_channel
  finished pre s registers = ground (arith, registers)

module _ {W V : Type 0} {libc : Libc W} {refers : W → ℕ → Option ℕ} {libc' : Libc V}
    {refers' : V → ℕ → Option ℕ} (dups : Duplicates libc refers) (dups' : Duplicates libc' refers')
    (usable : (fd file : ℕ) (w : V) → refers' w fd ≡ some file → Usable libc' w fd)
    (close : ℕ → V → V) (cmsghdr_size : ℕ) where
  -- An end of a pair, encoded and decoded: the end that arrives has an open file descriptor for the same
  -- file, and the same size.
  end_arrives :
      (pre : PreMessageChannel ℕ) (files indices : List ℕ) (c c' : Cmsg) (l : Locals W)
      (r : Locals V) (rest : List Token)
      → cmsghdr_size + 24 + 4 * max_msg_fds < usize_mod
      → Sound cmsghdr_size c
      → c.fd_count ≡ max_msg_fds
      → Opens (refers l.world) (pre.inner ∷ []) files
      → (serialize_all libc (pre.inner ∷ []) (before_serialize l).1).0 ≡ ok indices
      → (let (saved, l₀) = before_serialize l in
          let l₁ = (serialize (put_scoped libc) pre l₀).1 in
          (m : Cmsg)
          → (commit_serialize cmsghdr_size saved c l₁).0 ≡ ok m
          → Delivers cmsghdr_size (refers l₁.world) (refers' r.world) m c')
      → let (saved, l₀) = before_serialize l in
        let (encoded, l₁) = serialize (put_scoped libc) pre l₀ in
        let r₀ = (before_deserialize cmsghdr_size c' r).1 in
        (tokens : List Token) × (encoded ≡ ok tokens)
        × ((commit_serialize cmsghdr_size saved c l₁).1.sender ≡ l.sender)
        × (let (got, r₁) = deserialize (get_scoped libc') (drop_fd close) (tokens ++ rest) r₀ in
            (fd : ℕ) × (got
              ≡ ok (record { inner = fd; max_message_size = pre.max_message_size }, rest))
            × Opens (refers' r₁.world) (fd ∷ []) files)
  end_arrives pre files indices c c' l r rest small sound room open_fds done delivery =
      let l₀ = (before_serialize l).1 in
      let size = pre.max_message_size in
      let counted =
        numbered dups cmsghdr_size (pre.inner ∷ []) files indices c l small sound room open_fds
          done in
      let put = put_fd-all libc pre.inner indices l₀ done counted in
      let enc = serialize-fd libc pre (number 0 ∷ []) l₀ _ put in
      let (kept, offers, opens) =
        delivered dups refers' cmsghdr_size (pre.inner ∷ []) files indices c c' l r small sound room
          open_fds done
          (subst
            (λ (l₁ : Locals W).
              (m : Cmsg)
              → (commit_serialize cmsghdr_size (before_serialize l).0 c l₁).0 ≡ ok m
              → Delivers cmsghdr_size (refers l₁.world) (refers' r.world) m c')
            (ap (λ p. p.1) enc) delivery) in
      let (fd, read, opened) =
        read_fd dups' usable (refers l.world) pre.inner _ files (number size ∷ rest) _ open_fds
          opens offers in
      let dec = deserialize-fd libc' close fd size rest _ read in
      (
        number 0 ∷ number size ∷ [],
        ap (λ p. p.0) enc,
        rw enc kept,
        (fd, ap (λ p. p.0) dec, rw (ap (λ p. p.1) dec) opened),
      )

  -- The two ends of a pair become a channel between two processes, on Unix: one process makes the pair
  -- and sends an end; the other process decodes it, with what follows in the message left over, to an
  -- end with an open file descriptor for the same socket; and what the two processes make of their ends
  -- are channels over these file descriptors, with the size that the pair was made with. The sender's
  -- variable is afterwards as it was. The end that is sent is open and can be encoded, no channel fails
  -- to be registered, the receiver can read and set the flags of what it has open, the control message
  -- of the sender is sound and has room for 32 file descriptors, and the one that the receiver gets has
  -- what the documentation of `recvmsg` says.
  pub ends_arrive :
      {U X G G' : Type 0} (L T L' T' : Type 0) (calls : Establish.Calls U)
      (calls' : Establish.Calls X) (path_len path_len' : ℕ) (locals : G) (locals' : G') (size : ℕ)
      (a b : PreMessageChannel ℕ) (f f' : Files U) (g : Files X) (files indices : List ℕ)
      (c c' : Cmsg) (l : Locals W) (r : Locals V) (rest : List Token)
      → pre_pair (unix {L = L} {T = T} calls path_len) size f ≡ (ok (a, b), f')
      → cmsghdr_size + 24 + 4 * max_msg_fds < usize_mod
      → Sound cmsghdr_size c
      → c.fd_count ≡ max_msg_fds
      → Opens (refers l.world) (b.inner ∷ []) files
      → (serialize_all libc (b.inner ∷ []) (before_serialize l).1).0 ≡ ok indices
      → (let (saved, l₀) = before_serialize l in
          let l₁ = (serialize (put_scoped libc) b l₀).1 in
          (m : Cmsg)
          → (commit_serialize cmsghdr_size saved c l₁).0 ≡ ok m
          → Delivers cmsghdr_size (refers l₁.world) (refers' r.world) m c')
      → (calls.register a.inner f'.world).0 ≡ ok tt
      → ((fd : ℕ) → (calls'.register fd g.world).0 ≡ ok tt)
      → let (saved, l₀) = before_serialize l in
        let (encoded, l₁) = serialize (put_scoped libc) b l₀ in
        let r₀ = (before_deserialize cmsghdr_size c' r).1 in
        (tokens : List Token) × (encoded ≡ ok tokens)
        × ((commit_serialize cmsghdr_size saved c l₁).1.sender ≡ l.sender)
        × (let (got, r₁) = deserialize (get_scoped libc') (drop_fd close) (tokens ++ rest) r₀ in
            (b' : PreMessageChannel ℕ) × (got ≡ ok (b', rest))
            × Opens (refers' r₁.world) (b'.inner ∷ []) files
            × ((pre_into_channel (unix {L = L} {T = T} calls path_len) locals a tt f').0
                ≡ ok (message_channel a.inner size locals))
            × ((pre_into_channel (unix {L = L'} {T = T'} calls' path_len') locals' b' tt g).0
                ≡ ok (message_channel b'.inner size locals')))
  ends_arrive L T L' T' calls calls' path_len path_len' locals locals' size a b f f' g files indices
        c c' l r rest paired small sound room open_fds done delivery registers registers' =
      let (size_a, size_b) = size_of L T calls path_len locals size f f' a b paired in
      let (tokens, encoded, kept, (fd, read, opened)) =
        end_arrives b files indices c c' l r rest small sound room open_fds done delivery in
      let b' : PreMessageChannel ℕ = record { inner = fd; max_message_size = b.max_message_size } in
      let near = finished L T calls path_len locals a f' registers in
      let far = finished L' T' calls' path_len' locals' b' g (registers' fd) in
      (
        tokens,
        encoded,
        kept,
        (b', read, opened, ground (arith, near, size_a), ground (arith, far, size_b)),
      )
