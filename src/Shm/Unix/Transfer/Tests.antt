-- ===== src/Shm/Unix/Transfer/Tests.antt =====
-- A memory that a process sends to another, of src/unix/sharedmem.rs.
use sandbox_ipc.Prelude.{ℕ, ◌≡◌, List, [], ◌∷◌, none, some, refl}
use sandbox_ipc.Prelude.Io.{ok}
use sandbox_ipc.Channel.Cmsg
use sandbox_ipc.Channel.Cmsg.{Cmsg}
use sandbox_ipc.Channel.Tokens.{number, is_some, next_number}
use sandbox_ipc.Channel.Fds.{
  Locals, send, set_cloexec, serialize_fd, deserialize_fd, before_serialize, before_deserialize,
}
use sandbox_ipc.Channel.Fds.Table.{table}
use sandbox_ipc.Channel.Fds.Items.{put_fd, put_option, get_fd, get_option}
use sandbox_ipc.Shm.Unix.{SharedMem}
use sandbox_ipc.Shm.Unix.Transfer.{serialize_token, deserialize_token}
use sandbox_ipc.Shm.Map

abbrev memory : Map.SharedMem SharedMem
memory = record { inner = record { rw_fd = some 2; ro_fd = 0; size = 4096 }; token = 77 }

abbrev sender : Locals (List ℕ)
sender = record { world = 50 ∷ 51 ∷ 52 ∷ []; sender = none; receiver = none }

abbrev receiver : Locals (List ℕ)
receiver = record { world = 60 ∷ 52 ∷ 50 ∷ []; sender = none; receiver = none }

-- The control message as received, with the file descriptors 1 and 2.
abbrev received : Cmsg
received = record {
  cmsg_len = 24;
  msg_controllen = 24;
  payload = 1 ∷ 2 ∷ 0 ∷ [];
  iovec = none;
  fd_count = 3;
}

encoded :
    (serialize_token table memory (before_serialize sender).1).0
    ≡ ok (is_some ∷ number 0 ∷ number 1 ∷ number 4096 ∷ number 77 ∷ [])
unfolding before_serialize serialize_token serialize_fd send set_cloexec put_fd put_option
encoded = refl

-- The receiver has its file descriptors 1 and 2 for the files of the sender's 2 and 0.
decoded :
    (deserialize_token table
      (λ fd w. w)
      (is_some ∷ number 0 ∷ number 1 ∷ number 4096 ∷ number 77 ∷ number 5 ∷ [])
      (before_deserialize 16 received receiver).1).0
    ≡ ok (
      record { inner = record { rw_fd = some 1; ro_fd = 2; size = 4096 }; token = 77 },
      number 5 ∷ [],
    )
unfolding before_deserialize deserialize_token get_fd get_option deserialize_fd Cmsg.fds set_cloexec
    Cmsg.cmsg_align next_number
decoded = refl
