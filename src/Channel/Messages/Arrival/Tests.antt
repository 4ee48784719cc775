-- ===== src/Channel/Messages/Arrival/Tests.antt =====
-- An end of a pair of src/channel.rs that goes to another process, on Unix.
use sandbox_ipc.Prelude.{
  ℕ, ◌+◌, ◌≡◌, refl, [], ◌∷◌, ◌++◌, List, some, true, false, arith, get_elem?, subst,
}
use sandbox_ipc.Prelude.Io.{ok}
use sandbox_ipc.Channel.Cmsg
use sandbox_ipc.Channel.Cmsg.{Cmsg}
use sandbox_ipc.Channel.Cmsg.Payload.{new-Sound}
use sandbox_ipc.Channel.Owned.{Files}
use sandbox_ipc.Channel.Tokens.{Token, number}
use sandbox_ipc.Channel.Fds.{
  Libc, Locals, max_msg_fds, send, set_cloexec, serialize_fd, before_serialize, commit_serialize,
  before_deserialize,
}
use sandbox_ipc.Channel.Fds.Items.{put_fd, put_scoped, get_scoped}
use sandbox_ipc.Channel.Fds.Sender.{Opens, all, one}
use sandbox_ipc.Channel.Fds.Table.{
  table, table-Duplicates, table-Usable, sender, receiver, empty, empty_room, received, duplicated,
  same_file,
}
use sandbox_ipc.Channel.Fds.Delivery.{Delivers}
use sandbox_ipc.Shm.Unix.Transfer.{drop_fd}
use sandbox_ipc.Channel.Establish.{Calls, pre_pair, raw_socketpair}
use sandbox_ipc.Channel.Messages
use sandbox_ipc.Channel.Messages.{PreMessageChannel, message_channel, pre_into_channel}
use sandbox_ipc.Channel.Messages.Platforms.{unix}
use sandbox_ipc.Channel.Messages.Sent.{serialize, deserialize}
use sandbox_ipc.Channel.Messages.Arrival.{ends_arrive}

abbrev libc : Libc ℕ
libc = record {
  dup = λ fd w. (w, w + 1);
  get_flags = λ fd w. (0, w);
  set_flags = λ fd flags w. (0, w);
}

abbrev calls : Calls ℕ
calls = record {
  libc = libc;
  socketpair = λ w. (some (w, w + 1), w + 2);
  socket = λ w. (w, w + 1);
  bind = λ fd w. (0, w);
  listen = λ fd w. (0, w);
  accept = λ fd w. (w, w + 1);
  connect = λ fd w. (0, w);
  close = λ fd w. w;
  register = λ fd w. (ok tt, w);
}

abbrev before : Files ℕ
before = record { world = 1; opened = [] }

abbrev made : Files ℕ
made = record { world = 3; opened = 2 ∷ 1 ∷ [] }

-- The pair has the file descriptors 1 and 2.
abbrev near : PreMessageChannel ℕ
near = record { inner = 1; max_message_size = 512 }

abbrev far : PreMessageChannel ℕ
far = record { inner = 2; max_message_size = 512 }

paired : Messages.pre_pair (unix {L = ℕ} {T = ℕ} calls 20) 512 before ≡ (ok (near, far), made)
unfolding Messages.pre_pair pre_pair raw_socketpair set_cloexec
paired = refl

abbrev keep : ℕ → List ℕ → List ℕ
keep fd w = w

abbrev after : Locals (List ℕ)
after = (serialize (put_scoped table) far (before_serialize sender).1).1

after_world : after.world ≡ 50 ∷ 51 ∷ 52 ∷ 52 ∷ []
unfolding before_serialize serialize serialize_fd send set_cloexec put_fd
after_world = refl

committed_fds :
    (m : Cmsg)
    → (commit_serialize 16 (before_serialize sender).0 empty after).0 ≡ ok m
    → Cmsg.fds 16 m ≡ 3 ∷ []
unfolding before_serialize serialize serialize_fd send set_cloexec put_fd commit_serialize
    Cmsg.set_fds Cmsg.fds Cmsg.new Cmsg.cmsg_align
committed_fds m e = ground (arith, e)

delivery :
    (m : Cmsg)
    → (commit_serialize 16 (before_serialize sender).0 empty after).0 ≡ ok m
    → Delivers 16 (λ fd. get_elem? after.world fd) (λ fd. get_elem? receiver.world fd) m received
unfolding Cmsg.current_fd_count Cmsg.cmsg_align
delivery m e = record {
  sound = record { room = omega arith; few = omega arith; told = omega arith };
  room = omega arith;
  same = λ files opens.
      same_file (λ fd. get_elem? after.world fd) files (rw after_world refl)
        (subst (λ fds. Opens (λ fd. get_elem? after.world fd) fds files) (committed_fds m e) opens);
}

ends_arrive_example :
    let (saved, l₀) = before_serialize sender in
    let (encoded, l₁) = serialize (put_scoped table) far l₀ in
    let r₀ = (before_deserialize 16 received receiver).1 in
    (tokens : List Token) × (encoded ≡ ok tokens)
    × ((commit_serialize 16 saved empty l₁).1.sender ≡ sender.sender)
    × (let (got, r₁) =
          deserialize (get_scoped table) (drop_fd keep) (tokens ++ (number 9 ∷ [])) r₀ in
        (b' : PreMessageChannel ℕ) × (got ≡ ok (b', number 9 ∷ []))
        × Opens (λ fd. get_elem? r₁.world fd) (b'.inner ∷ []) (52 ∷ [])
        × ((pre_into_channel (unix {L = ℕ} {T = ℕ} calls 20) false near tt made).0
            ≡ ok (message_channel 1 512 false))
        × ((pre_into_channel (unix {L = ℕ} {T = ℕ} calls 20) true b' tt before).0
            ≡ ok (message_channel b'.inner 512 true)))
ends_arrive_example =
    ends_arrive table-Duplicates table-Duplicates table-Usable keep 16 ℕ ℕ ℕ ℕ calls calls 20 20
      false true 512 near far before made before (52 ∷ []) (0 ∷ []) empty received sender receiver
      (number 9 ∷ []) paired (omega arith) (new-Sound 16 max_msg_fds (omega arith)) empty_room
      (one refl all) duplicated delivery refl (λ fd. refl)
