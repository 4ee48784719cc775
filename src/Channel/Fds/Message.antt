-- ===== src/Channel/Fds/Message.antt =====
-- A message with file descriptors of src/unix/mod.rs, from its encoding to the control message.
use sandbox_ipc.Prelude.{
  ℕ, ◌+◌, ◌*◌, ◌≤◌, ◌<◌, ◌≡◌, List, [], arith, refl, take, length, length-take, replicate,
}
use sandbox_ipc.Prelude.Word.{usize_mod}
use sandbox_ipc.Prelude.Io.{ok}
use sandbox_ipc.Channel.Cmsg
use sandbox_ipc.Channel.Cmsg.{Cmsg}
use sandbox_ipc.Channel.Cmsg.Payload.{Sound, fds-set_fds}
use sandbox_ipc.Channel.Fds.{
  Libc, HandleSender, Locals, max_msg_fds, before_serialize, commit_serialize, drop_serialize,
  Option,
}
use sandbox_ipc.Channel.Fds.Runs.{serialize_all, from}
use sandbox_ipc.Channel.Fds.Sender.{Duplicates, Opens, all, serialize_all_lem}

module _ {W : Type 0} {libc : Libc W} {refers : W → ℕ → Option ℕ}
    (dups : Duplicates libc refers) where
  -- The control message of a message carries its file descriptors: if the encoding of open file
  -- descriptors succeeds, between `before_serialize` and `commit`, then they are at most 32, the
  -- commit succeeds, the indices encoded are 0, 1, 2 and so on, the control message stays sound and
  -- offers as many open file descriptors for the same files in the same order, and the thread-local
  -- variable is as it was before; for a sound control message with room for 32 descriptors.
  pub message-carries :
      (cmsghdr_size : ℕ) (fds files indices : List ℕ) (c : Cmsg) (l : Locals W)
      → cmsghdr_size + 24 + 4 * max_msg_fds < usize_mod
      → Sound cmsghdr_size c
      → c.fd_count ≡ max_msg_fds
      → Opens (refers l.world) fds files
      → (serialize_all libc fds (before_serialize l).1).0 ≡ ok indices
      → let l' = (serialize_all libc fds (before_serialize l).1).1 in
        let (r, l'') = commit_serialize cmsghdr_size (before_serialize l).0 c l' in
        (c' : Cmsg) × (r ≡ ok c')
        × Sound cmsghdr_size c'
        × (length fds ≤ max_msg_fds)
        × (indices ≡ from 0 (length fds))
        × (length (Cmsg.fds cmsghdr_size c') ≡ length fds)
        × Opens (refers l'.world) (Cmsg.fds cmsghdr_size c') files
        × (l''.sender ≡ l.sender)
  unfolding before_serialize commit_serialize drop_serialize
  message-carries cmsghdr_size fds files indices c l small sound room opens done =
      let s : HandleSender = record { fds = replicate max_msg_fds 0; index = 0 } in
      let (s', counted, ready) =
        serialize_all_lem dups fds files [] s (before_serialize l).1 indices refl (omega arith)
          opens all done in
      let size : length s'.fds ≡ max_msg_fds = ready.length_kept in
      let few : length (take s'.index s'.fds) ≡ length fds =
        omega (arith, length-take s'.index s'.fds, ready.within, ready.counted) in
      let (c', stored, same, count, sound') =
        fds-set_fds cmsghdr_size (take s'.index s'.fds) c (rw room small) sound
          (omega (arith, few, room, ready.within, ready.counted, size)) in
      (
        c',
        ground (arith, ready.holds, stored),
        sound',
        omega (arith, ready.within, ready.counted, size),
        counted,
        rw same few,
        rw same ready.opened,
        refl,
      )
