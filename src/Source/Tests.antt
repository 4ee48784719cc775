-- ===== src/Source/Tests.antt =====
-- Data sources of src/io.rs with seven bytes, read by pieces of three.
use sandbox_ipc.Prelude.{ℕ, ◌<◌, ◌≡◌, refl, ap, List, [], ◌∷◌, take, drop, arith, some, length, ◌%◌}
use sandbox_ipc.Prelude.Io.{Result, ok, ◌>>=◌}
use sandbox_ipc.Shm.Range.{start}
use sandbox_ipc.Shm.Unix
use sandbox_ipc.Shm.Map
use sandbox_ipc.Source.{
  Files, SendableDataSource, SendableDataSourceBytes, to_read, to_bytes, deref, drain,
}
use sandbox_ipc.Source.Reading.{Streams, read_all, take-drop, take-eq-nil}

-- A file is what lies between its position and its end.
abbrev plain : Files (List ℕ)
plain = record { read = λ f size. (ok (take size f), drop size f); read_to_end = λ f. (ok f, []) }

plain-Streams : Streams plain (λ f. f)
plain-Streams = record {
  read_chunk = λ f size lt. (take size f, refl, (take-drop size f, take-eq-nil size f lt));
  read_rest = λ f. refl;
}

-- Seven bytes of memory at 65536.
abbrev shared_mem : Map.SharedMem Unix.SharedMem
shared_mem = record { inner = record { rw_fd = some 4; ro_fd = 3; size = 7 }; token = 1 }

abbrev platform : Map.Platform Unix.SharedMem Unix.SharedMemMap
platform = Map.unix 4096 (λ len prot fd offset. some 65536)

abbrev byte_at : ℕ → ℕ
byte_at address = address % 251

abbrev source : SendableDataSource (List ℕ) Unix.SharedMem
source = SendableDataSource.memory shared_mem

abbrev shown : List ℕ
shown = 25 ∷ 26 ∷ 27 ∷ 28 ∷ 29 ∷ 30 ∷ 31 ∷ []

abbrev count : Result (SendableDataSourceBytes Unix.SharedMem Unix.SharedMemMap) → ℕ
unfolding deref
count (ok b) = length (deref plain platform byte_at b)
count _ = 0

source_len :
    (b : SendableDataSourceBytes Unix.SharedMem Unix.SharedMemMap)
    → to_bytes plain platform byte_at source ≡ ok b
    → length (deref plain platform byte_at b) < 8
unfolding to_bytes deref count Map.map Unix.map Unix.choose_fd Unix.bounds start Unix.place
    Unix.end_shift
source_len b e = omega (arith, ap count e)

read_all_example :
    (to_read plain platform byte_at source >>= λ reader. drain plain platform byte_at 8 3 reader)
    ≡ (to_bytes plain platform byte_at source >>= λ b. ok (deref plain platform byte_at b))
read_all_example =
    read_all plain platform byte_at (λ f. f) plain-Streams source 8 3 (omega arith) source_len

whole :
    (to_bytes plain platform byte_at source >>= λ b. ok (deref plain platform byte_at b)) ≡ ok shown
unfolding to_bytes deref Map.map Unix.map Unix.choose_fd Unix.bounds start Unix.place Unix.end_shift
whole = refl
