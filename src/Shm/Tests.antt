-- ===== src/Shm/Tests.antt =====
-- Memories and mappings of src/shm, src/unix/sharedmem.rs and src/windows/sharedmem.rs, and the
-- theorems at them.
use sandbox_ipc.Prelude.{
  List, ◌++◌, ℕ, ◌+◌, ◌*◌, ◌^◌, ◌<◌, ◌-◌, ◌%◌, ◌==◌, if◌then◌else◌, true, ◌≡◌, ◌≢◌, refl, arith,
  some, none, [], ◌∷◌, ◌⊎◌,
}
use sandbox_ipc.Prelude.Io.{ok, err, ErrorKind}
use sandbox_ipc.Channel.Owned.{Files}
use sandbox_ipc.Channel.Owned.Turns.{count, owned}
use sandbox_ipc.Shm.Range.{read, read_write, between, full, start, end, span}
use sandbox_ipc.Shm.Unix
use sandbox_ipc.Shm.Unix.Cover.{Covers}
use sandbox_ipc.Shm.Unix.Extent.{Grants, extent, mapped_part}
use sandbox_ipc.Shm.Unix.Created.{
  Linked, Calls, new, clone, scoped_fd, create, reopen, finish, bool_call, unlink,
}
use sandbox_ipc.Shm.Unix.Owners.{memory_fds, memories_kept}
use sandbox_ipc.Shm.Unix.Rights.{Memory, Derived, same, cloned, received, read_only_stays}
use sandbox_ipc.Shm.Unix.Transfer.{serialize_token, deserialize_token}
use sandbox_ipc.Channel.Tokens.{Token, number, is_none, next_number}
use sandbox_ipc.Channel.Fds.{Locals, send, recv, set_cloexec, serialize_fd, deserialize_fd}
use sandbox_ipc.Channel.Fds.Items.{put_fd, put_option, get_fd, get_option}
use sandbox_ipc.Channel.Fds.Table.{table}
use sandbox_ipc.Shm.Memory
use sandbox_ipc.Shm.Memory.{clone_with_access}
use sandbox_ipc.Shm.Windows
use sandbox_ipc.Shm.Windows.View.{Asks, Shows, map-Shows}
use sandbox_ipc.Shm.Map
use sandbox_ipc.Shm.Map.{Platform, SharedMem, SharedMemMap}

abbrev pub page : ℕ
page = 4096

-- Every mapping lies at 0x10000.
abbrev pub mmap : Unix.Mmap
mmap len prot fd offset = some 65536

abbrev view : Windows.MapViewOfFile
view handle access high low len = some 65536

abbrev file : Unix.SharedMem
file = record { rw_fd = some 4; ro_fd = 3; size = 10000 }

abbrev section : Windows.SharedMem
section = record { handle = 8; size = 10000 }

-- A mapping from byte 5000 on.
abbrev late : Unix.SharedMemMap
late = record {
  mapping_pointer = 65536;
  user_pointer = 66440;
  mapping_len = 4096;
  user_len = 1;
  mapping_offset = 4096;
  user_offset = 5000;
  access = read_write;
}

late_lem : Unix.map page mmap file (between 5000 6000) read_write ≡ ok late
unfolding Unix.map Unix.choose_fd Unix.bounds start Unix.place Unix.end_shift
late_lem = refl

abbrev shown : Windows.SharedMemMap
shown = record {
  mapping_pointer = 65536;
  mapping_len = 1904;
  user_pointer = 66440;
  user_len = 1000;
  access = read;
  user_offset = 5000;
}

shown_lem : Windows.map page view section (between 5000 6000) read ≡ ok shown
unfolding Windows.map Windows.bounds start end Windows.place
shown_lem = refl

-- The state is the bytes that are mapped.
mapped_part_example :
    Covers page 10000 late
    × (some (5000, 1) ≡ extent (between 5000 6000) 10000)
    × (some (5000, 1) ≢ span (between 5000 6000) 10000)
    × ((prot : Unix.Prot) × (fd : ℕ) × (pointer : ℕ) × (Grants file read_write prot fd)
        × (mmap 4096 prot fd 4096 ≡ some pointer)
        × (Unix.drop (λ pointer len w. w - len) late 8192 ≡ 4096))
mapped_part_example =
    mapped_part page mmap file (between 5000 6000) 5000 6000 read_write (λ pointer len w. w - len)
      8192 (omega arith) (omega arith) late_lem (omega arith) late_lem

map-Shows_example :
    Shows page (between 5000 6000) 10000 shown
    × ((pointer high low : ℕ) × (raw : Windows.RawAccess) × Asks read raw
        × (high * 2 ^ 32 + low ≡ 4096)
        × (low < 2 ^ 32)
        × (view 8 raw high low 1904 ≡ some pointer)
        × (Windows.drop (λ pointer w. w - 1) shown 2 ≡ 1))
map-Shows_example =
    map-Shows page view section (between 5000 6000) read (λ pointer w. w - 1) 2 (omega arith)
      shown_lem

-- A memory of one page, mapped whole for writing.
abbrev pub platform : Platform Unix.SharedMem Unix.SharedMemMap
platform = Map.unix page mmap

abbrev pub whole : SharedMemMap Unix.SharedMem Unix.SharedMemMap
whole = record {
  object = record { inner = record { rw_fd = some 4; ro_fd = 3; size = 4096 }; token = 77 };
  inner = record {
    mapping_pointer = 65536;
    user_pointer = 65536;
    mapping_len = 4096;
    user_len = 4096;
    mapping_offset = 0;
    user_offset = 0;
    access = read_write;
  };
}

-- A process that counts its calls. Memory with an odd name cannot be opened for reading.
abbrev calls : Calls ℕ
calls = record {
  new_v4 = λ w. (w, w + 1);
  shm_open_new = λ name w. (some w, w + 1);
  shm_open_read = λ name w. (if name % 2 == 0 then some w else none, w + 1);
  shm_unlink = λ name w. (true, w);
  dup = λ fd w. (if fd % 2 == 0 then some w else none, w + 1);
  ftruncate = λ fd size w. (true, w);
  close = λ fd w. w;
}

abbrev process : ℕ → Files (Linked ℕ)
process w = record { world = record { process = w; names = 90 ∷ [] }; opened = 3 ∷ [] }

made : new calls 4096 (process 6) ≡ (
  ok (record { rw_fd = some 7; ro_fd = 8; size = 4096 }),
  record { world = record { process = 9; names = 90 ∷ [] }; opened = 8 ∷ 7 ∷ 3 ∷ [] },
)
unfolding new scoped_fd create reopen finish bool_call unlink
made = refl

-- The name stays when the memory cannot be opened for reading.
name_left : new calls 4096 (process 5) ≡ (
  err ErrorKind.os,
  record { world = record { process = 8; names = 5 ∷ 90 ∷ [] }; opened = 3 ∷ [] },
)
unfolding new scoped_fd create reopen finish bool_call unlink
name_left = refl

-- A memory of one file descriptor, a clone of it, and what another process receives of the clone.
abbrev readable : ℕ → Memory
readable fd = record { inner = record { rw_fd = none; ro_fd = fd; size = 4096 }; token = 77 }

abbrev locals : Locals (List ℕ)
locals = record {
  world = 50 ∷ 51 ∷ 52 ∷ 53 ∷ 54 ∷ 55 ∷ 56 ∷ [];
  sender = some (record { fds = 0 ∷ 0 ∷ []; index = 0 });
  receiver = some (record { fds = 1 ∷ 0 ∷ []; fds_count = 1 });
}

abbrev fields : List Token
fields = is_none ∷ number 0 ∷ number 4096 ∷ number 77 ∷ []

clone_lem :
    (clone_with_access (Memory.unix calls) (readable 4) read (process 6)).0 ≡ ok (readable 6)
unfolding clone_with_access clone scoped_fd
clone_lem = refl

encode_lem : (serialize_token table (readable 6) locals).0 ≡ ok fields
unfolding serialize_token put_fd put_option serialize_fd send set_cloexec
encode_lem = refl

decode_lem : (deserialize_token table (λ fd w. w) (fields ++ []) locals).0 ≡ ok (readable 1, [])
unfolding deserialize_token get_fd get_option next_number deserialize_fd recv set_cloexec
decode_lem = refl

derived : Derived calls table (λ fd w. w) (readable 4) (readable 1)
derived =
    received locals locals fields [] [] (readable 1)
      (cloned read (process 6) (readable 6) same clone_lem) encode_lem decode_lem

read_only_stays_example :
    (4096 ≡ (readable 4).inner.size)
    × ((readable 1).token ≡ 77)
    × (Map.map (Map.unix page mmap) (readable 1) full read_write ≡ err ErrorKind.permission_denied)
    × ((clone_with_access (Memory.unix calls) (readable 1) read_write (process 6)).0
        ≡ err ErrorKind.permission_denied)
read_only_stays_example = read_only_stays derived page mmap full (process 6) refl

-- The file descriptor 3 cannot be duplicated, and the duplicate 6 of the file descriptor 4 stays open.
abbrev both : Unix.SharedMem
both = record { rw_fd = some 4; ro_fd = 3; size = 4096 }

memories_kept_example :
    (let (r, s) = new calls 4096 (process 6) in
      (count 6 s.opened ≡ count 6 (owned memory_fds r) + 0)
      × ((s.world.names ≡ 90 ∷ []) ⊎ ((s.world.names ≡ 6 ∷ 90 ∷ []) × (r ≡ err ErrorKind.os))))
    × (let (r, s) = clone calls both read_write (process 6) in
        (count 6 s.opened ≡ count 6 (owned memory_fds r) + 1 + 0) × (s.world.names ≡ 90 ∷ []))
memories_kept_example = memories_kept calls 4096 both read_write (process 6) 6
