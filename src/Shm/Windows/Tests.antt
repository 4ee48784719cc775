-- ===== src/Shm/Windows/Tests.antt =====
-- Sections of src/windows/sharedmem.rs, made, cloned and sent.
use sandbox_ipc.Prelude.{
  ℕ, ◌+◌, ◌*◌, ◌^◌, ◌≡◌, refl, [], ◌∷◌, none, some, arith, ltb, if◌then◌else◌, Option,
}
use sandbox_ipc.Prelude.Io.{ok}
use sandbox_ipc.Channel.Owned.{Files}
use sandbox_ipc.Channel.Owned.Turns.{count, owned}
use sandbox_ipc.Channel.Tokens.{number, next_number}
use sandbox_ipc.Channel.Handles.{Winapi, remote_process, Locals, serialize_handle, send}
use sandbox_ipc.Channel.Handles.Arrival.{before_deserialize, encode_handle, deserialize_handle}
use sandbox_ipc.Shm.Range.{read}
use sandbox_ipc.Shm.Windows.{SharedMem}
use sandbox_ipc.Shm.Windows.Created.{Calls, new, clone}
use sandbox_ipc.Shm.Windows.Owners.{sections_kept}
use sandbox_ipc.Shm.Windows.Transfer.{serialize_token, deserialize_token}
use sandbox_ipc.Shm.Map

-- A process that counts its handles and the bytes that it has asked for; a section has less than 16 GiB.
abbrev make : ℕ → ℕ × ℕ → Option ℕ × (ℕ × ℕ)
make size (next, bytes) =
    if ltb size (2 ^ 34) then (some next, (next + 1, bytes + size)) else (none, (next, bytes))

abbrev calls : Calls (ℕ × ℕ)
calls = record {
  create_file_mapping = λ high low w. make (high * 2 ^ 32 + low) w;
  duplicate_handle = λ handle access w. (some w.0, (w.0 + 1, w.1));
}

abbrev process : Files (ℕ × ℕ)
process = record { world = (6, 0); opened = 3 ∷ [] }

-- A section of 5 GiB.
large : new calls (5 * 2 ^ 30) process ≡ (
  ok (record { handle = 6; size = 5 * 2 ^ 30 }),
  record { world = (7, 5 * 2 ^ 30); opened = 6 ∷ 3 ∷ [] },
)
unfolding new
large = refl

sections_kept_example :
    let mem : SharedMem = record { handle = 3; size = 4096 } in
    let (r, s') = new calls (5 * 2 ^ 30) process in
    let (r', s'') = clone calls mem read process in
    (s'.world ≡ (7, 5 * 2 ^ 30))
    × (count 3 s'.opened ≡ count 3 (owned (λ m. m.handle ∷ []) r) + 1)
    × (count 3 s''.opened ≡ count 3 (owned (λ m. m.handle ∷ []) r') + 1)
sections_kept_example =
    sections_kept calls make (record { handle = 3; size = 4096 }) read (5 * 2 ^ 30) process 3
      (omega arith) (λ high low h k. refl)

-- Handles of the process with the handle 9 are 100 above those of this one.
abbrev api : Winapi ℕ
api = record {
  duplicate_here = λ handle w. (none, w);
  duplicate_to = λ process handle w. (some (handle + 100), w + 1);
  close = λ handle w. w;
  close_source = λ process handle w. w;
}

abbrev memory : Map.SharedMem SharedMem
memory = record { inner = record { handle = 6; size = 4096 }; token = 77 }

abbrev sender : Locals ℕ
sender = record {
  world = 0;
  sender = some (record { target = remote_process (record { handle = 9; id = 40 }); handles = [] });
  receiver = none;
}

abbrev receiver : Locals ℕ
receiver = record { world = 0; sender = none; receiver = none }

encoded : (serialize_token api memory sender).0 ≡ ok (number 106 ∷ number 4096 ∷ number 77 ∷ [])
unfolding serialize_token encode_handle serialize_handle send
encoded = refl

decoded :
    (deserialize_token api
      (λ h. ltb 0 h)
      (number 106 ∷ number 4096 ∷ number 77 ∷ number 5 ∷ [])
      (before_deserialize receiver).1).0
    ≡ ok (record { inner = record { handle = 106; size = 4096 }; token = 77 }, number 5 ∷ [])
unfolding deserialize_token deserialize_handle before_deserialize next_number
decoded = refl
