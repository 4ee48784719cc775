-- ===== src/Channel/Fds/Delivery.antt =====
-- File descriptors from one process to another, by src/unix/mod.rs on both sides.
use sandbox_ipc.Prelude.{ℕ, ◌+◌, ◌*◌, ◌≤◌, ◌<◌, ◌≡◌, List, Option, arith, length}
use sandbox_ipc.Prelude.Word.{usize_mod}
use sandbox_ipc.Prelude.Io.{ok}
use sandbox_ipc.Channel.Cmsg
use sandbox_ipc.Channel.Cmsg.{Cmsg}
use sandbox_ipc.Channel.Cmsg.Payload.{Sound}
use sandbox_ipc.Channel.Fds.{
  Libc, Locals, max_msg_fds, before_serialize, commit_serialize, before_deserialize,
}
use sandbox_ipc.Channel.Fds.Runs.{serialize_all, from}
use sandbox_ipc.Channel.Fds.Sender.{Duplicates, Opens}
use sandbox_ipc.Channel.Fds.Message.{message-carries}
use sandbox_ipc.Channel.Fds.Reading.{Offers, before_deserialize-Offers}

-- What `recvmsg` documents of the control message `c'` that it writes, where `c` was sent: it has file
-- descriptors of the receiver for the same open files, in the same order.
pub record Delivers (cmsghdr_size : ℕ) (refers refers' : ℕ → Option ℕ) (c c' : Cmsg) : Type 0 where
  pub sound : Sound cmsghdr_size c'
  pub room : c'.fd_count ≤ max_msg_fds
  pub same :
      (files : List ℕ)
      → Opens refers (Cmsg.fds cmsghdr_size c) files
      → Opens refers' (Cmsg.fds cmsghdr_size c') files

before_deserialize-world :
    {V : Type 0} (cmsghdr_size : ℕ) (c : Cmsg) (r : Locals V)
    → (before_deserialize cmsghdr_size c r).1.world ≡ r.world
unfolding before_deserialize
before_deserialize-world cmsghdr_size c r = ground arith

module _ {W V : Type 0} {libc : Libc W} {refers : W → ℕ → Option ℕ} (dups : Duplicates libc refers)
    (refers' : V → ℕ → Option ℕ) where
  -- Open file descriptors whose encoding succeeds are encoded as 0, 1, 2 and so on, and offered to the
  -- receiver as open file descriptors for the same files.
  pub delivered :
      (cmsghdr_size : ℕ) (fds files indices : List ℕ) (c c' : Cmsg) (l : Locals W) (r : Locals V)
      → cmsghdr_size + 24 + 4 * max_msg_fds < usize_mod
      → Sound cmsghdr_size c
      → c.fd_count ≡ max_msg_fds
      → Opens (refers l.world) fds files
      → (serialize_all libc fds (before_serialize l).1).0 ≡ ok indices
      → let (saved, l₀) = before_serialize l in
        let l₁ = (serialize_all libc fds l₀).1 in
        let (sent, l₂) = commit_serialize cmsghdr_size saved c l₁ in
        ((m : Cmsg) → sent ≡ ok m → Delivers cmsghdr_size (refers l₁.world) (refers' r.world) m c')
        → let r₀ = (before_deserialize cmsghdr_size c' r).1 in
          (l₂.sender ≡ l.sender)
          × Offers (Cmsg.fds cmsghdr_size c') r₀
          × Opens (refers' r₀.world) (Cmsg.fds cmsghdr_size c') files
  delivered cmsghdr_size fds files indices c c' l r small sound room open_fds done delivery =
      let (m, sent, sound', few', counted, size, opens, kept) =
        message-carries dups cmsghdr_size fds files indices c l small sound room open_fds done in
      let delivers = delivery m sent in
      (
        kept,
        before_deserialize-Offers cmsghdr_size c' r delivers.sound delivers.room,
        rw (before_deserialize-world cmsghdr_size c' r) (delivers.same files opens),
      )

module _ {W : Type 0} {libc : Libc W} {refers : W → ℕ → Option ℕ}
    (dups : Duplicates libc refers) where
  -- The indices, for a control message with room for 32 file descriptors.
  pub numbered :
      (cmsghdr_size : ℕ) (fds files indices : List ℕ) (c : Cmsg) (l : Locals W)
      → cmsghdr_size + 24 + 4 * max_msg_fds < usize_mod
      → Sound cmsghdr_size c
      → c.fd_count ≡ max_msg_fds
      → Opens (refers l.world) fds files
      → (serialize_all libc fds (before_serialize l).1).0 ≡ ok indices
      → indices ≡ from 0 (length fds)
  numbered cmsghdr_size fds files indices c l small sound room open_fds done =
      let (m, sent, sound', few, counted, size, opens, kept) =
        message-carries dups cmsghdr_size fds files indices c l small sound room open_fds done in
      counted
