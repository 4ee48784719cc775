-- ===== src/Source/Transfer/Tests.antt =====
-- Data sources of src/io.rs that a process sends to another.
use sandbox_ipc.Prelude.{
  ◌+◌, ltb, ℕ, ◌≡◌, List, [], ◌∷◌, ◌++◌, none, some, arith, refl, subst, get_elem?,
}
use sandbox_ipc.Prelude.Io.{ok}
use sandbox_ipc.Channel.Cmsg
use sandbox_ipc.Channel.Cmsg.{Cmsg}
use sandbox_ipc.Channel.Cmsg.Payload.{new-Sound}
use sandbox_ipc.Channel.Tokens.{Token, number, next_number, next_array}
use sandbox_ipc.Channel.Fds.{
  Locals, max_msg_fds, send, set_cloexec, serialize_fd, deserialize_fd, before_serialize,
  commit_serialize,
}
use sandbox_ipc.Channel.Fds.Sender.{Opens, all, one}
use sandbox_ipc.Channel.Fds.Table.{
  table, table-Duplicates, table-Usable, sender, receiver, empty, empty_room, received, duplicated,
  same_file,
}
use sandbox_ipc.Channel.Fds.Delivery.{Delivers}
use sandbox_ipc.Channel.Fds.Items.{put_fd, get_fd}
use sandbox_ipc.Channel.Handles
use sandbox_ipc.Channel.Handles.{Winapi, HandleSender, remote_process}
use sandbox_ipc.Channel.Handles.Arrival.{before_deserialize}
use sandbox_ipc.Channel.Fds
use sandbox_ipc.Shm.Windows
use sandbox_ipc.Shm.Unix.{SharedMem}
use sandbox_ipc.Source.{SendableDataSource, file, memory, inline}
use sandbox_ipc.Source.Transfer.{serialize, deserialize}
use sandbox_ipc.Source.Transfer.Handles.{windows, windows_source_arrives}
use sandbox_ipc.Source.Transfer.Arrival.{unix, Obtained, source_arrives}

abbrev source : SendableDataSource ℕ SharedMem
source = file 2

abbrev keep : ℕ → List ℕ → List ℕ
keep fd w = w

abbrev after : Locals (List ℕ)
after = (serialize (unix table table keep) source (before_serialize sender).1).1

after_world : after.world ≡ 50 ∷ 51 ∷ 52 ∷ 52 ∷ []
unfolding before_serialize serialize serialize_fd send set_cloexec put_fd
after_world = refl

committed_fds :
    (m : Cmsg)
    → (commit_serialize 16 (before_serialize sender).0 empty after).0 ≡ ok m
    → Cmsg.fds 16 m ≡ 3 ∷ []
unfolding before_serialize serialize serialize_fd send set_cloexec put_fd commit_serialize
    Cmsg.set_fds Cmsg.fds Cmsg.new Cmsg.cmsg_align
committed_fds m e = ground (arith, e)

delivery :
    (m : Cmsg)
    → (commit_serialize 16 (before_serialize sender).0 empty after).0 ≡ ok m
    → Delivers 16 (λ fd. get_elem? after.world fd) (λ fd. get_elem? receiver.world fd) m received
unfolding Cmsg.current_fd_count Cmsg.cmsg_align
delivery m e = record {
  sound = record { room = omega arith; few = omega arith; told = omega arith };
  room = omega arith;
  same = λ files opens.
      same_file (λ fd. get_elem? after.world fd) files (rw after_world refl)
        (subst (λ fds. Opens (λ fd. get_elem? after.world fd) fds files) (committed_fds m e) opens);
}

source_arrives_example :
    Obtained table-Duplicates table-Duplicates table-Usable keep 16 source
      (52 ∷ [])
      received
      sender
      receiver
      (number 5 ∷ [])
source_arrives_example =
    source_arrives table-Duplicates table-Duplicates table-Usable keep 16 source (52 ∷ []) (0 ∷ [])
      empty received sender receiver (number 5 ∷ []) (omega arith)
      (new-Sound 16 max_msg_fds (omega arith)) empty_room (one refl all) duplicated
      (λ some_fds. delivery)

decoded :
    (deserialize
      (unix table table keep)
      (number 0 ∷ number 0 ∷ number 5 ∷ [])
      (Fds.before_deserialize 16 received receiver).1).0
    ≡ ok (file 1, number 5 ∷ [])
unfolding Fds.before_deserialize deserialize get_fd next_number deserialize_fd Cmsg.fds set_cloexec
    Cmsg.cmsg_align
decoded = refl

decoded_bytes :
    (deserialize
      (unix table table keep)
      (number 2 ∷ number 2 ∷ number 104 ∷ number 105 ∷ [])
      receiver).0
    ≡ ok (inline (104 ∷ 105 ∷ []), [])
unfolding deserialize next_number next_array
decoded_bytes = refl

-- A section in a message to the process whose handles are 100 above those of this one.
abbrev api : Winapi ℕ
api = record {
  duplicate_here = λ handle w. (none, w);
  duplicate_to = λ process handle w. (some (handle + 100), w + 1);
  close = λ handle w. w;
  close_source = λ process handle w. w;
}

abbrev target : HandleSender
target = record { target = remote_process (record { handle = 9; id = 40 }); handles = [] }

abbrev parent : Handles.Locals ℕ
parent = record { world = 0; sender = some target; receiver = none }

abbrev child : Handles.Locals ℕ
child = record { world = 0; sender = none; receiver = none }

abbrev section : ℕ → SendableDataSource ℕ Windows.SharedMem
section handle = memory (record { inner = record { handle = handle; size = 4096 }; token = 77 })

windows_source_arrives_example :
    let wire = windows api api (λ h. ltb 0 h) in
    (tokens : List Token) × ((serialize wire (section 6) parent).0 ≡ ok tokens)
    × ((deserialize wire (tokens ++ (number 5 ∷ [])) (before_deserialize child).1).0
        ≡ ok (section 106, number 5 ∷ []))
windows_source_arrives_example =
    windows_source_arrives api api (λ h. ltb 0 h) (section 6) 0 106 target parent child
      (number 5 ∷ []) refl refl refl
