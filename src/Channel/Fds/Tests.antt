-- ===== src/Channel/Fds/Tests.antt =====
-- A process whose file descriptors are the places of a list, and the theorems of src/unix/mod.rs at
-- messages that it sends and receives.
use sandbox_ipc.Prelude.{ℕ, zero, suc, ◌≡◌, List, [], ◌∷◌, none, some, arith, refl, get_elem?}
use sandbox_ipc.Prelude.Io.{ok}
use sandbox_ipc.Channel.Cmsg
use sandbox_ipc.Channel.Cmsg.{Cmsg}
use sandbox_ipc.Channel.Cmsg.Payload.{Sound}
use sandbox_ipc.Channel.Fds.{
  Locals, send, set_cloexec, serialize_fd, deserialize_fd, before_serialize, before_deserialize,
  drop_deserialize,
}
use sandbox_ipc.Channel.Fds.Runs.{serialize_all}
use sandbox_ipc.Channel.Fds.Table.{table}
use sandbox_ipc.Channel.Fds.Receiver.{Usable, deserialize_fd-nth}

-- File descriptors 0 to 2, for the files 50 to 52.
abbrev process : Locals (List ℕ)
process = record { world = 50 ∷ 51 ∷ 52 ∷ []; sender = none; receiver = none }

sent_lem : (serialize_all table (2 ∷ 0 ∷ []) (before_serialize process).1).0 ≡ ok (0 ∷ 1 ∷ [])
unfolding before_serialize serialize_all serialize_fd send set_cloexec
sent_lem = refl

-- A control message as received, with the file descriptors 1 and 2.
abbrev received : Cmsg
received = record {
  cmsg_len = 24;
  msg_controllen = 24;
  payload = 1 ∷ 2 ∷ 0 ∷ [];
  iovec = none;
  fd_count = 3;
}

received-Sound : Sound 16 received
unfolding Cmsg.current_fd_count Cmsg.cmsg_align
received-Sound = record { room = omega arith; few = omega arith; told = omega arith }

usable : (i fd : ℕ) → get_elem? (Cmsg.fds 16 received) i ≡ some fd → Usable table process.world fd
unfolding Cmsg.fds Cmsg.cmsg_align set_cloexec
usable zero fd e = record { valid = ground (arith, e); settable = ground (arith, e) }
usable (suc zero) fd e = record { valid = ground (arith, e); settable = ground (arith, e) }
usable (suc (suc i)) fd e = absurd (ground (arith, e))

deserialize_fd-nth_example :
    let (r, l') = before_deserialize 16 received process in
    (r ≡ ok none)
    × ((deserialize_fd table 1 l').0 ≡ ok 2)
    × ((drop_deserialize none l').receiver ≡ none)
unfolding Cmsg.fds Cmsg.cmsg_align
deserialize_fd-nth_example =
    deserialize_fd-nth table 16 1 received process received-Sound (omega arith) usable
