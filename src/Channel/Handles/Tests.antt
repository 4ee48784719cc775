-- ===== src/Channel/Handles/Tests.antt =====
-- Processes whose handles are the places of a list of flags, and the theorems of src/windows/mod.rs
-- at messages to another process.
use sandbox_ipc.Prelude.{
  ℕ, ◌+◌, ◌≡◌, Bool, false, ◌||◌, ◌&&◌, not, List, [], ◌∷◌, ◌++◌, length-replicate, replicate,
  Option, none, some, ◌==◌, arith, refl, if◌then◌else◌, ltb,
}
use sandbox_ipc.Prelude.Io.{ok}
use sandbox_ipc.Channel.Handles.{
  Winapi, ProcessHandle, remote_process, Locals, serialize_all, serialize_handle, send,
  before_serialize, drop_serialize,
}
use sandbox_ipc.Channel.Tokens.{Token, number}
use sandbox_ipc.Channel.Handles.Winsock.{WsaProtoInfo, WellFormed}
use sandbox_ipc.Channel.Handles.Arrival.{
  Winsock, Into, remote_process_id, serialize_socket, deserialize_socket, encode_handle,
  deserialize_handle, before_deserialize, drop_deserialize, resources_arrive,
}
use sandbox_ipc.Channel.Handles.Commit.{Opening, Tracked, there}
use sandbox_ipc.Channel.Handles.AllOrNone.{Committed, message_handles}

-- The handles that are open, and the number from which on none has been used.
abbrev Table : Type 0
Table = (ℕ → Bool) × ℕ

-- Handles up to 9 can be had.
abbrev duplicate_to : ℕ → Table → Option ℕ × Table
duplicate_to handle (open_at, next) =
    if ltb next 10 && not (open_at next)
    then (some next, (λ x. (x == next) || open_at x, next + 1))
    else (none, (open_at, next))

abbrev close : ℕ → Table → Table
close handle (open_at, next) = (λ x. not (x == handle) && open_at x, next)

abbrev api : Winapi Table
api = record {
  duplicate_here = λ handle w. (none, w);
  duplicate_to = λ process. duplicate_to;
  close = λ handle w. w;
  close_source = λ process. close;
}

dup-some_lem :
    (handle remote : ℕ) (w : Table) → (duplicate_to handle w).0 ≡ some remote → w.0 remote ≡ false
dup-some_lem handle remote (open_at, next) e = ground (arith, e)

dup-opens_lem :
    (handle remote x : ℕ) (w : Table)
    → (duplicate_to handle w).0 ≡ some remote
    → (duplicate_to handle w).1.0 x ≡ ((x == remote) || w.0 x)
dup-opens_lem handle remote x (open_at, next) e = ground (arith, e)

dup-none_lem :
    (handle x : ℕ) (w : Table)
    → (duplicate_to handle w).0 ≡ none
    → (duplicate_to handle w).1.0 x ≡ w.0 x
dup-none_lem handle x (open_at, next) e = ground (arith, e)

api-Opening : Opening duplicate_to close (λ w. w.0)
api-Opening = record {
  dup-some = dup-some_lem;
  dup-opens = dup-opens_lem;
  dup-none = dup-none_lem;
  close-closes = λ handle x w. refl;
}

-- The process that is written to.
abbrev other : ProcessHandle
other = record { handle = 3; id = 40 }

api-Tracked : Tracked api (λ w. w.0) (remote_process other)
api-Tracked = there api-Opening

-- Handles 1 and 2 are open.
abbrev initial : Locals Table
initial = record { world = (λ x. (x == 1) || (x == 2), 8); sender = none; receiver = none }

-- Two handles are sent.
message_handles_example :
    let (saved, l0) = before_serialize (remote_process other) initial in
    let (r, l1) = serialize_all api (1 ∷ 2 ∷ []) l0 in
    ((drop_serialize api saved l1).world.0 9 ≡ false)
    × ((drop_serialize api saved l1).sender ≡ none)
    × Committed api-Tracked initial l1 saved 9 (ok (8 ∷ 9 ∷ []))
unfolding before_serialize serialize_all serialize_handle send
message_handles_example = message_handles api-Tracked (1 ∷ 2 ∷ []) initial 9

abbrev info : WsaProtoInfo
info = record {
  dw_service_flags1 = 1;
  dw_service_flags2 = 2;
  dw_service_flags3 = 3;
  dw_service_flags4 = 4;
  dw_provider_flags = 5;
  provider_id = record { data1 = 6; data2 = 7; data3 = 8; data4 = replicate 8 9 };
  dw_catalog_entry_id = 10;
  protocol_chain = record { chain_len = 1; chain_entries = replicate 7 0 };
  i_version = 11;
  i_address_family = 2;
  i_max_sock_addr = 16;
  i_min_sock_addr = 16;
  i_socket_type = 1;
  i_protocol = 6;
  i_protocol_max_offset = 0;
  i_network_byte_order = 0;
  i_security_scheme = 0;
  dw_message_size = 0;
  dw_provider_reserved = 0;
  sz_protocol = replicate 256 0;
}

info-WellFormed : WellFormed info
info-WellFormed = record {
  data4_len = length-replicate {A = ℕ} 8 9;
  entries_len = length-replicate {A = ℕ} 7 0;
  protocol_len = length-replicate {A = ℕ} 256 0;
}

abbrev winsock : Winsock Table
winsock = record {
  duplicate_socket = λ socket id w. (some info, w);
  wsa_socket = λ description w. (some 77, w);
  current_process_id = 5;
}

abbrev sending : Locals Table
sending = record initial { sender = some (record { target = remote_process other; handles = [] }) }

resources_arrive_example :
    let (saved, r₀) = before_deserialize initial in
    let (got, r₁) = deserialize_handle (λ h. ltb 0 h) (number 8 ∷ []) r₀ in
    ((encode_handle api 1 sending).0 ≡ ok (number 8 ∷ []))
    × (got ≡ ok (8, []))
    × (drop_deserialize saved r₁ ≡ initial)
    × (tokens : List Token) × ((serialize_socket winsock 60 sending).0 ≡ ok tokens)
    × ((deserialize_socket winsock (tokens ++ []) r₀).0 ≡ ok (77, []))
    × ((drop_deserialize saved (deserialize_socket winsock (tokens ++ []) r₀).1).receiver ≡ none)
unfolding remote_process_id
resources_arrive_example =
    resources_arrive api winsock winsock (λ h. ltb 0 h) duplicate_to 1 8 60 40 77 info
      (record { target = remote_process other; handles = [] }) sending initial [] refl Into.there
      refl refl refl info-WellFormed refl
